-- ===== src/Util/Writing.antt =====
-- `WriteBytes` over a connection that keeps the contract of `io.Writer`.
use mchat.Base.{
  ℕ, zero, suc, ◌≤◌, ◌≡◌, true, false, some, arith, Bytes, length, ◌==◌, if◌then◌else◌,
}
use mchat.Util.{Writer, write_bytes}

-- A `Write` that does not fail has taken the whole buffer.
abbrev pub IsWriter : Writer → Type 0
IsWriter w = (k : ℕ) (buffer : Bytes) → (w k buffer).1 ≡ false → (w k buffer).0 ≡ length buffer

-- Over a writer that keeps the contract, a fuel of two or more is enough: an empty buffer is not written
-- at all, any other is written by the first `Write`; where that fails, the result is an error with a
-- count of zero.
pub write_bytes_total :
    (fuel : ℕ) (w : Writer) (buffer : Bytes)
    → 2 ≤ fuel
    → IsWriter w
    → write_bytes fuel w buffer ≡ (
        if length buffer == 0
        then some (0, false)
        else if (w 0 buffer).1
        then some (0, true)
        else some (length buffer, false))
unfolding write_bytes
write_bytes_total zero w buffer h iw = absurd (omega arith)
write_bytes_total (suc zero) w buffer h iw = absurd (omega arith)
write_bytes_total (suc (suc fuel)) w buffer h iw = ground (arith, iw 0 buffer)
