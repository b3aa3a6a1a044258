-- ===== src/TestSetup/Matching.antt =====
-- What `Match` compares.
pub mod Keys
use mathlib.Core.List.{Mem, Mem-prop, mem-cons, mem-cons_self, not-mem-nil}
use mathlib.Core.List
use mathlib.Core.List.Perm
use mathlib.Core.List.Subperm
use mathlib.Core.List.Nodup
use mathlib.Core.Logic.Or
use mathlib.Core.Nat
use mchat.Base.{
  ℕ, zero, suc, ◌≡◌, ◌↔◌, ◌∙◌, sym, ap, refl, Bool, true, false, not, List, [], ◌∷◌, Bytes, arith,
  equal, equal_iff, equal_refl, length, map, if◌then◌else◌, inl, inr, Bool-cases, ==_iff,
}
use mchat.TestSetup.{all_contained, match}

-- the lengths of the library
to_native : Nat.ℕ → ℕ
to_native Nat.zero = 0
to_native (Nat.suc n) = suc (to_native n)

from_native : ℕ → Nat.ℕ
from_native zero = Nat.zero
from_native (suc n) = Nat.suc (from_native n)

to_native-length : {A : Type 0} (l : List A) → to_native (List.length l) ≡ length l
unfolding to_native
to_native-length [] = refl
to_native-length (x ∷ l) = ap suc (to_native-length l)

from_native-length : {A : Type 0} (l : List A) → from_native (length l) ≡ List.length l
unfolding from_native
from_native-length [] = refl
from_native-length (x ∷ l) = ap Nat.suc (from_native-length l)

module _ {T K : Type 0} (key : T → K) (callback : List T → T → Bool) where
  -- A callback that looks for an element with the same key.
  abbrev pub IsSearch : Type 0
  IsSearch = (src : List T) (x : T) → (callback src x ≡ true) ↔ Mem (key x) (map key src)

  all_contained-subset :
      IsSearch
      → (a b : List T) → all_contained a b callback ≡ true
      → (x : K) → Mem x (map key a)
      → Mem x (map key b)
  unfolding all_contained
  all_contained-subset search [] b h x m = absurd (not-mem-nil m)
  all_contained-subset search (item ∷ a) b h x m =
      Or.elim Mem-prop (mem-cons.0 m) (λ e. rw e ((search b item).0 (ground arith)))
        (λ later. all_contained-subset search a b (ground arith) x later)

  subset-all_contained :
      IsSearch
      → (a b : List T) → ((x : K) → Mem x (map key a) → Mem x (map key b))
      → all_contained a b callback ≡ true
  unfolding all_contained
  subset-all_contained search [] b h = refl
  subset-all_contained search (item ∷ a) b h =
      let rest = subset-all_contained search a b (λ x m. h x (mem-cons.1 (Or.inr m))) in
      let found = (search b item).1 (h (key item) mem-cons_self) in ground (arith, rest, found)

  length-keys : (l : List T) → length (map key l) ≡ length l
  length-keys [] = refl
  length-keys (x ∷ l) = ap suc (length-keys l)

  -- With different keys on the left, `Match` says that the keys on the right are the same ones, in
  -- any order.
  pub match_search :
      IsSearch
      → (a b : List T) → List.Nodup (map key a)
      → (match a b callback ≡ true) ↔ List.Perm (map key a) (map key b)
  unfolding match
  match_search search a b distinct = (
    λ h.
        let same : length b ≡ length a = ground (arith, h, ==_iff (length a) (length b)) in
        let within = all_contained-subset search a b (ground (arith, h)) in
        let lengths =
          sym (from_native-length (map key b))
          ∙ ap from_native (length-keys b ∙ same ∙ sym (length-keys a))
          ∙ from_native-length (map key a) in
        Subperm.perm_of_length_le (Nodup.subperm distinct within) (Nat.le_of_eq lengths),
    λ p.
        let lengths =
          sym (to_native-length (map key a))
          ∙ ap to_native (Perm.length-eq p)
          ∙ to_native-length (map key b) in
        let all = subset-all_contained search a b (λ x m. (Perm.mem_iff p).0 m) in
        ground (arith, all, lengths, length-keys a, length-keys b, ==_iff (length a) (length b)),
  )
