-- ===== src/TestRuntime.antt =====
-- A runtime for the examples: a toy digest, a clock that stands still, maps that are ranged over in
-- the order of their entries, and a `Sprintf` that prints every text as it is.
use mathlib.Core.List.Perm
use mchat.Base.{ℕ, zero, suc, ◌%◌, ◌≡◌, refl, true, [], ◌∷◌, arith, Bytes, codes, length, all, ltb}
use mchat.Runtime.{Runtime}

-- n bytes, the first ones of the text and zeros behind them
abbrev pub toy_digest : ℕ → Bytes → Bytes
toy_digest zero s = []
toy_digest (suc n) [] = 0 ∷ toy_digest n []
toy_digest (suc n) (c ∷ s) = (c % 256) ∷ toy_digest n s

pub length-toy_digest : (n : ℕ) (s : Bytes) → length (toy_digest n s) ≡ n
length-toy_digest zero s = refl
length-toy_digest (suc n) [] = omega (arith, length-toy_digest n [])
length-toy_digest (suc n) (c ∷ s) = omega (arith, length-toy_digest n s)

pub bytes-toy_digest : (n : ℕ) (s : Bytes) → all (λ b. ltb b 256) (toy_digest n s) ≡ true
bytes-toy_digest zero s = refl
bytes-toy_digest (suc n) [] = ground (arith, bytes-toy_digest n [])
bytes-toy_digest (suc n) (c ∷ s) = ground (arith, bytes-toy_digest n s)

abbrev pub test_runtime : Runtime
test_runtime = record {
  sum256 = toy_digest 32;
  sum256_length = length-toy_digest 32;
  sum256_bytes = bytes-toy_digest 32;
  time_now_str = λ n. codes "10:00:00";
  arrange = λ A n l. l;
  arrange_perm = λ A n l. Perm.refl l;
  sprintf = λ s. s;
  sprintf_plain = λ s h. refl;
}
