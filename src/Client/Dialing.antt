-- ===== src/Client/Dialing.antt =====
-- How often a client tries to connect.
use mchat.Base.{
  ℕ, zero, suc, ◌+◌, ◌≡◌, ◌≤◌, ◌<◌, refl, subst, inl, inr, Bool, true, false, not, ◌&&◌, ◌||◌, some,
  arith, ◌==◌, ==_iff, Bool-cases,
}
use mchat.Text.Atoi.{ℤ, pos, negsuc}
use mchat.Client.{is_last, try_connect}

-- the number of the last attempt
abbrev pub last_attempt : ℤ → ℕ
last_attempt (pos retries_count) = retries_count
last_attempt (negsuc n) = 0

-- No attempt before the k-th connects.
abbrev pub all_fail : (ℕ → Bool) → ℕ → Bool
all_fail dial zero = true
all_fail dial (suc k) = not (dial k) && all_fail dial k

is_last_lem :
    (retries : ℕ) (retries_count : ℤ)
    → retries ≤ last_attempt retries_count
    → is_last retries retries_count ≡ (retries == last_attempt retries_count)
is_last_lem retries (pos n) h = ground (arith, h)
is_last_lem retries (negsuc n) h = ground (arith, h)

all_fail_next :
    (dial : ℕ → Bool) (k : ℕ)
    → dial k ≡ false
    → all_fail dial k ≡ true
    → all_fail dial (k + 1) ≡ true
all_fail_next dial k fails fail =
    let next : suc k ≡ k + 1 = omega arith in
    subst (λ j. all_fail dial j ≡ true) next (rw fails fail)

try_connect_from :
    (fuel : ℕ) (retries_count : ℤ) (dial : ℕ → Bool) (retries : ℕ)
    → last_attempt retries_count < fuel + retries
    → retries ≤ last_attempt retries_count
    → all_fail dial retries ≡ true
    → (k : ℕ) × (try_connect fuel retries_count dial retries ≡ some (k, dial k))
      × (k ≤ last_attempt retries_count)
      × (all_fail dial k ≡ true)
      × ((dial k || k == last_attempt retries_count) ≡ true)
unfolding try_connect
try_connect_from zero retries_count dial retries enough within fail =
    absurd (omega (arith, enough, within))
try_connect_from (suc fuel) retries_count dial retries enough within fail =
    let last = is_last_lem retries retries_count within in
    elim (Bool-cases (dial retries)) [
      | inl connects ↦ (retries, rw connects refl, within, fail, rw connects refl)
      | inr fails ↦ elim (Bool-cases (retries == last_attempt retries_count)) [
        | inl ends ↦ (retries, rw (fails, last, ends) refl, within, fail, rw (fails, ends) refl)
        | inr goes_on ↦
            let apart = ==_iff retries (last_attempt retries_count) in
            rw (fails, last, goes_on)
              (try_connect_from fuel retries_count dial (retries + 1) (omega (arith, enough))
                (ground (arith, apart, goes_on, within)) (all_fail_next dial retries fails fail))
      ]
    ]

-- With fuel for one attempt more than the retries, a negative number of which counts as none,
-- `tryConnect` ends: at the first attempt that connects, or with a failure at the last one.
pub try_connect_total :
    (fuel : ℕ) (retries_count : ℤ) (dial : ℕ → Bool)
    → last_attempt retries_count < fuel
    → (k : ℕ) × (try_connect fuel retries_count dial 0 ≡ some (k, dial k))
      × (k ≤ last_attempt retries_count)
      × (all_fail dial k ≡ true)
      × ((dial k || k == last_attempt retries_count) ≡ true)
try_connect_total fuel retries_count dial enough =
    try_connect_from fuel retries_count dial 0 (omega (arith, enough)) (omega arith) refl
