-- ===== src/Text.antt =====
-- What the program uses of Go's `strings` and `strconv` packages, over bytes.
pub mod Atoi
pub mod Laws
mod Tests
use mchat.Base.{
  ℕ, ◌+◌, Bool, true, false, ◌&&◌, ◌||◌, not, List, [], ◌∷◌, ◌++◌, ◌==◌, leb, if◌then◌else◌, Bytes,
  equal, Option, none, some,
}
use mathlib.Core.List.{reverse}

-- `strings.HasPrefix`
unfoldable pub has_prefix : Bytes → Bytes → Bool
has_prefix s [] = true
has_prefix [] (p ∷ ps) = false
has_prefix (c ∷ cs) (p ∷ ps) = c == p && has_prefix cs ps

-- `strings.HasSuffix` with a suffix of one byte
unfoldable pub ends_with : Bytes → ℕ → Bool
ends_with [] b = false
ends_with (c ∷ []) b = c == b
ends_with (c ∷ d ∷ cs) b = ends_with (d ∷ cs) b

-- puts a byte in front of the first piece
abbrev pub push_first : ℕ → List Bytes → List Bytes
push_first c [] = (c ∷ []) ∷ []
push_first c (p ∷ ps) = (c ∷ p) ∷ ps

-- `strings.Split` with a separator of one byte
unfoldable pub split : Bytes → ℕ → List Bytes
split [] sep = [] ∷ []
split (c ∷ cs) sep = let rest = split cs sep in if c == sep then [] ∷ rest else push_first c rest

-- `strings.Count` of a text of one byte
unfoldable pub count : Bytes → ℕ → ℕ
count [] b = 0
count (c ∷ cs) b = (if c == b then 1 else 0) + count cs b

-- `strings.Cut` at a separator of one byte, without its third result
unfoldable pub cut : Bytes → ℕ → Bytes × Bytes
cut [] sep = ([], [])
cut (c ∷ cs) sep =
    let (before, after) = cut cs sep in if c == sep then ([], cs) else (c ∷ before, after)

abbrev pub is_upper : ℕ → Bool
is_upper c = leb b'A' c && leb c b'Z'

abbrev pub is_lower : ℕ → Bool
is_lower c = leb b'a' c && leb c b'z'

abbrev pub is_digit : ℕ → Bool
is_digit c = leb b'0' c && leb c b'9'

unfoldable pub lower_byte : ℕ → ℕ
lower_byte c = if is_upper c then c + 32 else c

-- `strings.ToLower`, as far as a comparison with an ASCII text can see: besides the ASCII letters,
-- only U+0130 (I with a dot) and U+212A (the sign of kelvin) have ASCII lower case letters, and the
-- bytes of every other character stay outside ASCII.
unfoldable pub to_lower : Bytes → Bytes
unfolding lower_byte
to_lower [] = []
to_lower (a ∷ []) = lower_byte a ∷ []
to_lower (a ∷ b ∷ []) =
    if a == 0xc4 && b == 0xb0 then b'i' ∷ [] else lower_byte a ∷ lower_byte b ∷ []
to_lower (a ∷ b ∷ c ∷ s) =
    let after_two = b'i' ∷ to_lower (c ∷ s) in
    let after_three = b'k' ∷ to_lower s in
    let plain = lower_byte a ∷ to_lower (b ∷ c ∷ s) in
    if a == 0xc4 && b == 0xb0
    then after_two
    else if a == 0xe2 && b == 0x84 && c == 0xaa
    then after_three
    else plain

-- `strings.EqualFold` on ASCII texts, the only ones that the program hands it: user names that
-- passed `ValidateName`, and hexadecimal digests.
unfoldable pub equal_fold : Bytes → Bytes → Bool
unfolding lower_byte
equal_fold [] [] = true
equal_fold (x ∷ xs) (y ∷ ys) = lower_byte x == lower_byte y && equal_fold xs ys
equal_fold _ _ = false

-- the cutset " \r\n\v\t\f" of `util.TrimWhitespaces`
abbrev pub is_space : ℕ → Bool
is_space c = c == 32 || c == 13 || c == 10 || c == 11 || c == 9 || c == 12

unfoldable pub trim_left : Bytes → Bytes
trim_left [] = []
trim_left (c ∷ cs) = let rest = trim_left cs in if is_space c then rest else c ∷ cs

unfoldable pub trim_right : Bytes → Bytes
trim_right s = reverse (trim_left (reverse s))

-- `strings.Contains`
unfoldable pub contains : Bytes → Bytes → Bool
unfolding has_prefix
contains [] p = has_prefix [] p
contains (c ∷ cs) p = has_prefix (c ∷ cs) p || contains cs p
