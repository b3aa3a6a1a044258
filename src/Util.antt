-- ===== src/Util.antt =====
-- pkg/utilities/utilities.go.
pub mod Checksum
pub mod Writing
mod Examples
use mchat.Base.{
  ℕ, suc, ◌+◌, ◌/◌, ◌%◌, Bool, true, false, List, [], ◌∷◌, ◌++◌, Option, none, some, ltb, ◌==◌,
  Bytes, length, if◌then◌else◌,
}
use mchat.Text.{trim_left, trim_right}
use mchat.Runtime.{Runtime}

-- one upper case hexadecimal digit
abbrev pub hex_digit : ℕ → ℕ
hex_digit n = if ltb n 10 then 48 + n else 55 + n

-- `%X` on bytes
unfoldable pub hex : Bytes → Bytes
hex [] = []
hex (b ∷ bs) = hex_digit (b / 16) ∷ hex_digit (b % 16) ∷ hex bs

unfoldable pub sha256_checksum : Runtime → Bytes → Bytes
unfolding hex
sha256_checksum rt bytes = hex (rt.sum256 bytes)

unfoldable pub end_of_line : Bytes → Bytes
end_of_line src = src ++ (13 ∷ 10 ∷ [])

-- `Fmtln` of a text whose verbs are already replaced by their arguments
unfoldable pub fmtln : Bytes → Bytes
unfolding end_of_line
fmtln text = end_of_line text

unfoldable pub trim_whitespaces : Bytes → Bytes
unfolding trim_left trim_right
trim_whitespaces src = trim_left (trim_right src)

-- What the k-th `Write` of a connection returns for a buffer: a count, and whether it failed.
abbrev pub Writer : Type 0
Writer = ℕ → Bytes → ℕ × Bool

-- `for bWritten < buffer.Len()`; `none` means that the fuel ran out
unfoldable pub write_loop : ℕ → Writer → ℕ → Bytes → ℕ → Option (ℕ × Bool)
write_loop ℕ.zero w k buffer written = none
write_loop (suc fuel) w k buffer written =
    let (n, failed) = w k buffer in
    let rest = write_loop fuel w (k + 1) buffer (written + n) in
    if ltb written (length buffer)
    then (if failed then some (written, true) else rest)
    else some (written, false)

-- `WriteBytes`: the count, and whether an error is returned
unfoldable pub write_bytes : ℕ → Writer → Bytes → Option (ℕ × Bool)
unfolding write_loop
write_bytes fuel w buffer = write_loop fuel w 0 buffer 0
