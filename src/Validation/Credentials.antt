-- ===== src/Validation/Credentials.antt =====
-- What `ValidatePassword`, `ValidateName` and `ValidatePasswordSha256` accept.
use mchat.Base.{
  ℕ, ◌≤◌, ◌≡◌, refl, ◌↔◌, Bool, true, ◌||◌, [], ◌∷◌, ◌==◌, arith, Bytes, length, all, any, &&_iff,
}
use mchat.Text.{is_upper, is_lower, is_digit}
use mchat.Validation.{
  password_class, digits_class, lower_class, upper_class, symbols_class, validate_password,
  word_class, begins_with_letter, validate_name, hex_class, validate_password_sha256,
}

-- The symbols of which a password needs one.
abbrev pub is_symbol : ℕ → Bool
is_symbol c = c == b'@' || c == b'%' || c == b'$' || c == b'#' || c == b'&'

-- What is asked of a password, with neither `!` nor `^` nor `|`.
pub record IsPassword (s : Bytes) : Type 0 where
  pub long_enough : 12 ≤ length s
  pub short_enough : length s ≤ 32
  pub allowed : all password_class s ≡ true
  pub has_digit : any is_digit s ≡ true
  pub has_lower : any is_lower s ≡ true
  pub has_upper : any is_upper s ≡ true
  pub has_symbol : any is_symbol s ≡ true

-- Over allowed bytes two tests that agree on these find the same.
any_agree :
    (p q : ℕ → Bool) (s : Bytes)
    → ((c : ℕ) → password_class c ≡ true → p c ≡ q c)
    → all password_class s ≡ true
    → any p s ≡ any q s
any_agree p q [] h a = refl
any_agree p q (c ∷ cs) h a =
    let parts = (&&_iff (password_class c) (all password_class cs)).0 a in
    ground (arith, h c parts.0, any_agree p q cs h parts.1)

digits_agree : (c : ℕ) → password_class c ≡ true → digits_class c ≡ is_digit c
unfolding password_class digits_class
digits_agree c h = ground arith

lower_agree : (c : ℕ) → password_class c ≡ true → lower_class c ≡ is_lower c
unfolding password_class lower_class
lower_agree c h = ground arith

upper_agree : (c : ℕ) → password_class c ≡ true → upper_class c ≡ is_upper c
unfolding password_class upper_class
upper_agree c h = ground arith

symbols_agree : (c : ℕ) → password_class c ≡ true → symbols_class c ≡ is_symbol c
unfolding password_class symbols_class
symbols_agree c h = ground arith

allowed_of : (s : Bytes) → validate_password s ≡ true → all password_class s ≡ true
unfolding validate_password
allowed_of s h = ground arith

-- Over allowed bytes the four searches are those for the four kinds of bytes.
searches_agree :
    (s : Bytes)
    → all password_class s ≡ true
    → (any digits_class s ≡ any is_digit s)
      × (any lower_class s ≡ any is_lower s)
      × (any upper_class s ≡ any is_upper s)
      × (any symbols_class s ≡ any is_symbol s)
searches_agree s a = (
  any_agree digits_class is_digit s digits_agree a,
  any_agree lower_class is_lower s lower_agree a,
  any_agree upper_class is_upper s upper_agree a,
  any_agree symbols_class is_symbol s symbols_agree a,
)

-- A password is accepted exactly when it has 12 to 32 bytes, all of them letters, digits or one of
-- `_@$#:&%`, and among them a digit, a lower case letter, an upper case letter and one of `@%$#&`:
-- the `!`, `^` and `|` of the classes that are looked for never count.
pub validate_password_iff : (s : Bytes) → (validate_password s ≡ true) ↔ IsPassword s
unfolding validate_password
validate_password_iff s = (
  λ h. ground (arith, searches_agree s (allowed_of s h)),
  λ p. ground (arith, searches_agree s p.allowed),
)

-- What is asked of a name of a participant or a channel.
pub record IsName (s : Bytes) : Type 0 where
  pub long_enough : 8 ≤ length s
  pub short_enough : length s ≤ 32
  pub allowed : all word_class s ≡ true
  pub begins : begins_with_letter s ≡ true

-- A name is accepted exactly when it has 8 to 32 bytes, all of them letters, digits or
-- underscores, and begins with a letter.
pub validate_name_iff : (s : Bytes) → (validate_name s ≡ true) ↔ IsName s
unfolding validate_name
validate_name_iff s = (λ h. ground arith, λ h. ground arith)

-- A password digest is accepted exactly when it is 64 upper case hexadecimal digits.
pub validate_password_sha256_iff :
    (s : Bytes) → (validate_password_sha256 s ≡ true) ↔ ((length s ≡ 64) × (all hex_class s ≡ true))
unfolding validate_password_sha256
validate_password_sha256_iff [] = ground arith
validate_password_sha256_iff (c ∷ s) = ground arith
