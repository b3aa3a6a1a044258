-- ===== src/Dict/Laws.antt =====
-- The laws of maps.
use mathlib.Core.List.{Nodup, Nodup-cons, Nodup-nil, Mem, mem-cons, mem-cons_self, not-mem-nil}
use mathlib.Core.Bool.{Bool-set}
use mathlib.Core.Logic.Or
use mchat.Base.{
  suc, ◌↔◌, ◌≡◌, refl, inl, inr, true, [], ◌∷◌, none, some, arith, Bytes, equal, equal_iff, length,
  if◌then◌else◌, Bool-cases,
}
use mchat.Dict.{Dict, lookup, insert, delete, keys, has}

module _ {ℓ} {V : Type ℓ} where
  pub lookup-insert :
      (m : Dict V) (k j : Bytes) (v : V)
      → lookup (insert m k v) j ≡ (if equal k j then some v else lookup m j)
  unfolding lookup insert
  lookup-insert [] k j v = refl
  lookup-insert ((i, w) ∷ m) k j v =
      ground (arith, equal_iff k j, equal_iff i k, equal_iff i j, lookup-insert m k j v)

  pub lookup-delete :
      (m : Dict V) (k j : Bytes) → lookup (delete m k) j ≡ (if equal k j then none else lookup m j)
  unfolding lookup delete
  lookup-delete [] k j = ground arith
  lookup-delete ((i, w) ∷ m) k j =
      ground (arith, equal_iff k j, equal_iff i k, equal_iff i j, lookup-delete m k j)

  pub length-insert :
      (m : Dict V) (k : Bytes) (v : V)
      → length (insert m k v) ≡ (if has m k then length m else suc (length m))
  unfolding lookup insert
  length-insert [] k v = refl
  length-insert ((i, w) ∷ m) k v = ground (arith, length-insert m k v)

  -- No key stands twice.
  abbrev pub Unique : Dict V → Type ℓ
  Unique [] = Unit
  Unique ((k, v) ∷ m) = (lookup m k ≡ none) × Unique m

  pub Unique-insert : (m : Dict V) (k : Bytes) (v : V) → Unique m → Unique (insert m k v)
  unfolding insert
  Unique-insert [] k v u = (unfold lookup in refl, tt)
  Unique-insert ((j, w) ∷ m) k v u = elim (Bool-cases (equal j k)) [
    | inl same ↦ rw same (rw (← (equal_iff j k).0 same) u.0, u.1)
    | inr other ↦ rw other (
      ground (arith, lookup-insert m k j v, equal_iff k j, equal_iff j k),
      Unique-insert m k v u.1,
    )
  ]

  pub Unique-delete : (m : Dict V) (k : Bytes) → Unique m → Unique (delete m k)
  unfolding delete
  Unique-delete [] k u = tt
  Unique-delete ((j, w) ∷ m) k u = elim (Bool-cases (equal j k)) [
    | inl same ↦ rw same (Unique-delete m k u.1)
    | inr other ↦ rw other (ground (arith, lookup-delete m k j), Unique-delete m k u.1)
  ]

  -- The keys of a map are those that it has.
  pub mem-keys : (m : Dict V) (k : Bytes) → Mem k (keys m) ↔ (has m k ≡ true)
  unfolding lookup
  mem-keys [] k = (λ h. absurd (not-mem-nil h), λ h. cc)
  mem-keys ((j, v) ∷ m) k = (
    λ h.
        Or.elim (Bool-set _ _) (mem-cons.0 h) (λ e. ground (arith, equal_iff j k))
          (λ t. ground (arith, (mem-keys m k).0 t)),
    λ h. elim (Bool-cases (equal j k)) [
      | inl same ↦ rw ((equal_iff j k).0 same) mem-cons_self
      | inr other ↦ mem-cons.1 (Or.inr ((mem-keys m k).1 (ground arith)))
    ],
  )

  pub keys-Nodup : (m : Dict V) → Unique m → Nodup (keys m)
  keys-Nodup [] u = Nodup-nil
  keys-Nodup ((k, v) ∷ m) u =
      Nodup-cons.1 (λ h. ground (arith, (mem-keys m k).0 h), keys-Nodup m u.1)
