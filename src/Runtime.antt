-- ===== src/Runtime.antt =====
-- What the program takes from outside: the digest of crypto/sha256, the clock, the order in which a
-- `range` goes through a map, and `fmt.Sprintf` applied to a text of a user with no arguments.
-- The laws are the documented ones.
use mathlib.Core.List.{Perm}
use mchat.Base.{ℕ, ◌≡◌, true, not, List, ltb, ◌==◌, Bytes, length, all}

pub record Runtime : Type 1 where
  -- `sha256.Sum256`
  pub sum256 : Bytes → Bytes
  pub sum256_length : (s : Bytes) → length (sum256 s) ≡ 32
  pub sum256_bytes : (s : Bytes) → all (λ b. ltb b 256) (sum256 s) ≡ true
  -- the n-th reading of `time.Now().Format(time.TimeOnly)`
  pub time_now_str : ℕ → Bytes
  -- the order that the n-th `range` over a map takes
  pub arrange : (A : Type 0) → ℕ → List A → List A
  pub arrange_perm : (A : Type 0) (n : ℕ) (l : List A) → Perm (arrange A n l) l
  -- a text with no verb is printed as it is
  pub sprintf : Bytes → Bytes
  pub sprintf_plain : (s : Bytes) → all (λ c. not (c == b'%')) s ≡ true → sprintf s ≡ s
