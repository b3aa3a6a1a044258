-- ===== src/Util/Checksum.antt =====
-- The digests that the backends store.
use mchat.Base.{
  ℕ, ◌*◌, ◌/◌, ◌%◌, ◌<◌, ◌≡◌, refl, ◌↔◌, true, [], ◌∷◌, arith, Bytes, length, all, ltb,
}
use mchat.Text.{equal_fold, lower_byte}
use mchat.Validation.{hex_class, validate_password_sha256}
use mchat.Validation.Credentials.{validate_password_sha256_iff}
use mchat.Util.{hex_digit, hex, sha256_checksum}
use mchat.Runtime.{Runtime}

abbrev AllBytes : Bytes → Type 0
AllBytes s = all (λ b. ltb b 256) s ≡ true

length-hex : (s : Bytes) → length (hex s) ≡ 2 * length s
unfolding hex
length-hex [] = refl
length-hex (b ∷ s) = omega (arith, length-hex s)

hex_digit-hex_class : (n : ℕ) → n < 16 → hex_class (hex_digit n) ≡ true
unfolding hex_class
hex_digit-hex_class n h = ground arith

hex-hex_class : (s : Bytes) → AllBytes s → all hex_class (hex s) ≡ true
unfolding hex
hex-hex_class [] h = refl
hex-hex_class (b ∷ s) h =
    ground (arith, hex_digit-hex_class (b / 16), hex_digit-hex_class (b % 16), hex-hex_class s)

-- What `Sha256Checksum` returns always passes `ValidatePasswordSha256`.
pub sha256_checksum-validate :
    (rt : Runtime) (s : Bytes) → validate_password_sha256 (sha256_checksum rt s) ≡ true
unfolding sha256_checksum
sha256_checksum-validate rt s = (validate_password_sha256_iff (hex (rt.sum256 s))).1 (
  omega (arith, length-hex (rt.sum256 s), rt.sum256_length s),
  hex-hex_class (rt.sum256 s) (rt.sum256_bytes s),
)

hex_digit-lower :
    (m n : ℕ) → m < 16 → n < 16 → lower_byte (hex_digit m) ≡ lower_byte (hex_digit n) → m ≡ n
unfolding lower_byte
hex_digit-lower m n hm hn e = ground arith

equal_fold_two :
    (a b c d : ℕ) (s t : Bytes)
    → equal_fold (a ∷ b ∷ s) (c ∷ d ∷ t) ≡ true
    → (lower_byte a ≡ lower_byte c) × (lower_byte b ≡ lower_byte d) × (equal_fold s t ≡ true)
unfolding equal_fold
equal_fold_two a b c d s t e = ground arith

hex-equal_fold : (s t : Bytes) → AllBytes s → AllBytes t → equal_fold (hex s) (hex t) ≡ true → s ≡ t
unfolding hex
hex-equal_fold [] [] hs ht e = refl
hex-equal_fold [] (c ∷ t) hs ht e = unfold equal_fold in cc
hex-equal_fold (b ∷ s) [] hs ht e = unfold equal_fold in cc
hex-equal_fold (b ∷ s) (c ∷ t) hs ht e =
    let parts = equal_fold_two _ _ _ _ _ _ e in
    let high = hex_digit-lower (b / 16) (c / 16) (ground arith) (ground arith) parts.0 in
    let low = hex_digit-lower (b % 16) (c % 16) (omega arith) (omega arith) parts.1 in
    let rest = hex-equal_fold s t (ground arith) (ground arith) parts.2 in
    let head : b ≡ c = omega arith in cc

pub equal_fold_refl : (s : Bytes) → equal_fold s s ≡ true
unfolding equal_fold
equal_fold_refl [] = refl
equal_fold_refl (c ∷ s) = ground (arith, equal_fold_refl s)

-- Comparing two checksums in any case compares the digests.
pub sha256_checksum-equal_fold :
    (rt : Runtime) (s t : Bytes)
    → (equal_fold (sha256_checksum rt s) (sha256_checksum rt t) ≡ true)
      ↔ (rt.sum256 s ≡ rt.sum256 t)
unfolding sha256_checksum
sha256_checksum-equal_fold rt s t = (
  hex-equal_fold (rt.sum256 s) (rt.sum256 t) (rt.sum256_bytes s) (rt.sum256_bytes t),
  λ e. rw e (equal_fold_refl (hex (rt.sum256 t))),
)
