-- ===== src/Backend/Redis/TestClient.antt =====
-- A database for the examples: a list of members and a hash under each key.
use mathlib.Core.Bool.{Bool-set}
use mathlib.Core.List.{Mem, mem-cons, mem-cons_self, not-mem-nil}
use mathlib.Core.Logic.Or
use mchat.Base.{
  ℕ, zero, suc, ◌≡◌, ◌≤◌, ◌↔◌, refl, inl, inr, Bool, true, false, not, ◌&&◌, ◌||◌, List, [], ◌∷◌,
  arith, Bytes, length, equal, equal_iff, if◌then◌else◌, Bool-cases,
}
use mchat.Dict.{Dict, lookup, insert}
use mchat.Dict.Laws.{lookup-insert}
use mchat.Backend.Redis.Client.{RedisClient, IsRedis, or_empty}

pub record Database : Type 0 where
  pub sets : Bytes → List Bytes
  pub hashes : Bytes → Dict Bytes

abbrev pub set_at {ℓ} : {A : Type ℓ} → (Bytes → A) → Bytes → A → Bytes → A
set_at at k a k' = if equal k k' then a else at k'

unfoldable pub contains : List Bytes → Bytes → Bool
contains [] m = false
contains (x ∷ xs) m = equal x m || contains xs m

unfoldable pub remove : List Bytes → Bytes → List Bytes
remove [] m = []
remove (x ∷ xs) m = let rest = remove xs m in if equal m x then rest else x ∷ rest

unfoldable pub drop : List Bytes → ℕ → List Bytes
drop xs zero = xs
drop [] (suc n) = []
drop (x ∷ xs) (suc n) = drop xs n

contains-remove :
    (xs : List Bytes) (m m' : Bytes)
    → contains (remove xs m) m' ≡ (not (equal m m') && contains xs m')
unfolding contains remove
contains-remove [] m m' = ground arith
contains-remove (x ∷ xs) m m' =
    ground (arith, equal_iff m x, equal_iff x m', equal_iff m m', contains-remove xs m m')

drop_all : (xs : List Bytes) (n : ℕ) → length xs ≤ n → drop xs n ≡ []
unfolding drop
drop_all [] zero h = refl
drop_all [] (suc n) h = refl
drop_all (x ∷ xs) zero h = absurd (omega (arith, h))
drop_all (x ∷ xs) (suc n) h = drop_all xs n (omega (arith, h))

mem-contains : (xs : List Bytes) (m : Bytes) → Mem m xs ↔ (contains xs m ≡ true)
unfolding contains
mem-contains [] m = (λ h. absurd (not-mem-nil h), λ h. cc)
mem-contains (x ∷ xs) m = (
  λ h.
      Or.elim (Bool-set _ _) (mem-cons.0 h) (λ e. ground (arith, equal_iff x m))
        (λ t. ground (arith, (mem-contains xs m).0 t)),
  λ h. elim (Bool-cases (equal x m)) [
    | inl same ↦ rw ((equal_iff x m).0 same) mem-cons_self
    | inr other ↦ mem-cons.1 (Or.inr ((mem-contains xs m).1 (ground arith)))
  ],
)

-- What the database stores under the two kinds of keys is apart, and no command is refused.
abbrev pub test_client : RedisClient
test_client = record {
  Db = Database;
  s_is_member = λ d k m. contains (d.sets k) m;
  s_members = λ d k. d.sets k;
  s_add = λ d k m. record d { sets = set_at d.sets k (m ∷ remove (d.sets k) m) };
  s_rem = λ d k m. record d { sets = set_at d.sets k (remove (d.sets k) m) };
  s_pop_n = λ d k n. record d { sets = set_at d.sets k (drop (d.sets k) n) };
  h_set = λ d k f v. record d { hashes = set_at d.hashes k (insert (d.hashes k) f v) };
  h_get = λ d k f. or_empty (lookup (d.hashes k) f);
  h_get_all = λ d k. d.hashes k;
  del = λ d k. record { sets = set_at d.sets k []; hashes = set_at d.hashes k [] };
}

same_set :
    (d : Database) (k k' m : Bytes)
    → equal k k' ≡ true
    → contains (d.sets k) m ≡ contains (d.sets k') m
same_set d k k' m h = rw ((equal_iff k k').0 h) refl

same_field :
    (d : Database) (k k' f : Bytes)
    → equal k k' ≡ true
    → lookup (d.hashes k) f ≡ lookup (d.hashes k') f
same_field d k k' f h = rw ((equal_iff k k').0 h) refl

module _ (d : Database) (k : Bytes) where
  members_at :
      (xs : List Bytes) (k' m : Bytes)
      → contains (set_at d.sets k xs k') m
        ≡ (if equal k k' then contains xs m else contains (d.sets k') m)
  members_at xs k' m = elim (Bool-cases (equal k k')) [ inl e ↦ rw e refl | inr e ↦ rw e refl ]

  fields_at :
      (h : Dict Bytes) (k' f : Bytes)
      → lookup (set_at d.hashes k h k') f
        ≡ (if equal k k' then lookup h f else lookup (d.hashes k') f)
  fields_at h k' f = elim (Bool-cases (equal k k')) [ inl e ↦ rw e refl | inr e ↦ rw e refl ]

pub test_client-IsRedis : IsRedis test_client
unfolding contains lookup
test_client-IsRedis = record {
  mem-members = λ d k m. mem-contains (d.sets k) m;
  member-add = λ d k m k' m' h. ground (
    arith,
    members_at d k (m ∷ remove (d.sets k) m) k' m',
    contains-remove (d.sets k) m m',
    same_set d k k' m',
  );
  find-add = λ d k m k' f. refl;
  member-rem = λ d k m k' m'. ground (
    arith,
    members_at d k (remove (d.sets k) m) k' m',
    contains-remove (d.sets k) m m',
    same_set d k k' m',
  );
  find-rem = λ d k m k' f. refl;
  member-pop = λ d k n k' m h.
      ground (arith, members_at d k (drop (d.sets k) n) k' m, drop_all (d.sets k) n h);
  find-pop = λ d k n k' f. refl;
  find-set = λ d k f v k' f' h. ground (
    arith,
    fields_at d k (insert (d.hashes k) f v) k' f',
    lookup-insert (d.hashes k) f f' v,
    same_field d k k' f',
  );
  member-set = λ d k f v k' m. refl;
  get_lem = λ d k f. refl;
  find-del = λ d k k' f. ground (arith, fields_at d k [] k' f);
  member-del = λ d k k' m. ground (arith, members_at d k [] k' m);
}
