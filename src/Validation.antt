-- ===== src/Validation.antt =====
-- pkg/validation/validation.go. Every regular expression there is a class of ASCII bytes, either
-- anchored at both ends with a repetition count or looked for anywhere, so a match is a test on
-- the bytes: a byte of a character outside ASCII is in no class.
pub mod Credentials
pub mod Email
mod Examples
use mchat.Base.{
  ℕ, ◌+◌, Bool, true, false, ◌&&◌, ◌||◌, not, List, [], ◌∷◌, ◌==◌, leb, if◌then◌else◌, Bytes,
  length, all, any,
}
use mchat.Text.{is_upper, is_lower, is_digit, has_prefix, ends_with, count, cut}

abbrev pub is_alpha : ℕ → Bool
is_alpha c = is_lower c || is_upper c

-- `^[class]{lo,hi}$`
abbrev pub repeated : (ℕ → Bool) → ℕ → ℕ → Bytes → Bool
repeated class lo hi s = leb lo (length s) && leb (length s) hi && all class s

-- `[a-zA-Z0-9_@$#:&%]`
unfoldable pub password_class : ℕ → Bool
password_class c =
    is_alpha c
    || is_digit c
    || c == b'_'
    || c == b'@'
    || c == b'$'
    || c == b'#'
    || c == b':'
    || c == b'&'
    || c == b'%'

-- `[!^0-9]`, `[!^a-z]`, `[!^A-Z]`: a `^` that does not come first stands for itself
unfoldable pub digits_class : ℕ → Bool
digits_class c = c == b'!' || c == b'^' || is_digit c

unfoldable pub lower_class : ℕ → Bool
lower_class c = c == b'!' || c == b'^' || is_lower c

unfoldable pub upper_class : ℕ → Bool
upper_class c = c == b'!' || c == b'^' || is_upper c

-- [!^@|%|$|#|&]
unfoldable pub symbols_class : ℕ → Bool
symbols_class c =
    c == b'!'
    || c == b'^'
    || c == b'@'
    || c == b'|'
    || c == b'%'
    || c == b'$'
    || c == b'#'
    || c == b'&'

unfoldable pub validate_password : Bytes → Bool
validate_password password =
    repeated password_class 12 32 password
    && any digits_class password
    && any lower_class password
    && any upper_class password
    && any symbols_class password

-- `\w`
unfoldable pub word_class : ℕ → Bool
word_class c = is_digit c || is_alpha c || c == b'_'

-- `^[a-zA-Z]`
unfoldable pub begins_with_letter : Bytes → Bool
begins_with_letter [] = false
begins_with_letter (c ∷ cs) = is_alpha c

unfoldable pub validate_name : Bytes → Bool
unfolding begins_with_letter
validate_name name = repeated word_class 8 32 name && begins_with_letter name

unfoldable pub local_class : ℕ → Bool
local_class c =
    is_digit c
    || is_alpha c
    || c == b'_'
    || c == b'.'
    || c == b'!'
    || c == b'#'
    || c == b'$'
    || c == b'%'
    || c == b'&'
    || c == 39
    || c == b'*'
    || c == b'+'
    || c == b'-'
    || c == b'/'
    || c == b'='
    || c == b'?'
    || c == b'^'
    || c == b'`'
    || c == b'{'
    || c == b'|'
    || c == b'}'
    || c == b'~'

unfoldable pub domain_class : ℕ → Bool
domain_class c =
    is_digit c || is_alpha c || c == b'-' || c == b'[' || c == b']' || c == b':' || c == b'.'

-- the loop over the local part: false at the first dot with a dot behind it
unfoldable pub no_double_dot : Bytes → Bool
no_double_dot [] = true
no_double_dot (c ∷ []) = true
no_double_dot (c ∷ d ∷ cs) = if c == b'.' && d == b'.' then false else no_double_dot (d ∷ cs)

-- `[class]+` between anchors
abbrev pub one_or_more : (ℕ → Bool) → Bytes → Bool
one_or_more class [] = false
one_or_more class (c ∷ cs) = all class (c ∷ cs)

-- the checks on the part in front of the `@`
unfoldable pub valid_local : Bytes → Bool
unfolding has_prefix ends_with no_double_dot
valid_local local =
    if has_prefix local (b'.' ∷ []) || ends_with local b'.'
    then false
    else if not (no_double_dot local)
    then false
    else repeated local_class 1 64 local

-- the checks on the part behind the `@`
unfoldable pub valid_domain : Bytes → Bool
unfolding has_prefix ends_with
valid_domain domain =
    if has_prefix domain (b'-' ∷ []) || ends_with domain b'-'
    then false
    else if not (one_or_more domain_class domain)
    then false
    else not (has_prefix domain (b'[' ∷ []) && not (ends_with domain b']'))

unfoldable pub validate_email : Bytes → Bool
unfolding count cut valid_local valid_domain
validate_email email =
    if not (count email b'@' == 1)
    then false
    else (let (local, domain) = cut email b'@' in valid_local local && valid_domain domain)

-- `[0-9A-F]`
unfoldable pub hex_class : ℕ → Bool
hex_class c = is_digit c || (leb b'A' c && leb c b'F')

unfoldable pub validate_password_sha256 : Bytes → Bool
validate_password_sha256 hash = length hash == 64 && one_or_more hex_class hash
