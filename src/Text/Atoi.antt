-- ===== src/Text/Atoi.antt =====
-- `strconv.Atoi` for a 64-bit `int`: the value that it returns beside its error, too.
use mchat.Base.{
  ℕ, ◌+◌, ◌-◌, ◌*◌, ◌/◌, ◌^◌, Bool, true, false, ◌&&◌, [], ◌∷◌, ltb, leb, ◌==◌, if◌then◌else◌,
  Bytes, is_empty,
}

-- `negsuc n` is -(n + 1).
pub data ℤ : Type 0 where
  pos : ℕ → ℤ
  negsuc : ℕ → ℤ

pub data NumError : Type 0 where
  success err_syntax err_range : NumError

-- the greatest `uint64` and the cutoff of `ParseUint` in base 10
abbrev pub max_uint64 : ℕ
max_uint64 = 2 ^ 64 - 1

abbrev pub uint_cutoff : ℕ
uint_cutoff = max_uint64 / 10 + 1

abbrev pub int_cutoff : ℕ
int_cutoff = 2 ^ 63

-- the digit loop of `strconv.ParseUint`
unfoldable pub parse_digits : ℕ → Bytes → ℕ × NumError
parse_digits n [] = (n, success)
parse_digits n (c ∷ cs) =
    let rest = parse_digits (n * 10 + (c - b'0')) cs in
    if leb b'0' c && leb c b'9'
    then (if leb uint_cutoff n
        then (max_uint64, err_range)
        else if ltb max_uint64 (n * 10 + (c - b'0'))
        then (max_uint64, err_range)
        else rest)
    else (0, err_syntax)

unfoldable pub parse_uint : Bytes → ℕ × NumError
unfolding parse_digits
parse_uint s = if is_empty s then (0, err_syntax) else parse_digits 0 s

-- `-n` as an integer
abbrev pub negate : ℕ → ℤ
negate n = if n == 0 then pos 0 else negsuc (n - 1)

-- the end of `strconv.ParseInt`, after the sign; the flag is `neg`
unfoldable pub with_sign : Bool → ℕ × NumError → ℤ × NumError
with_sign negative (un, err_syntax) = (pos 0, err_syntax)
with_sign false (un, e) =
    if leb int_cutoff un then (pos (int_cutoff - 1), err_range) else (pos un, success)
with_sign true (un, e) =
    if ltb int_cutoff un then (negate int_cutoff, err_range) else (negate un, success)

unfoldable pub atoi : Bytes → ℤ × NumError
unfolding parse_uint with_sign
atoi [] = (pos 0, err_syntax)
atoi (c ∷ cs) =
    if c == b'+'
    then with_sign false (parse_uint cs)
    else if c == b'-'
    then with_sign true (parse_uint cs)
    else with_sign false (parse_uint (c ∷ cs))
