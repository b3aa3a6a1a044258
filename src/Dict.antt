-- ===== src/Dict.antt =====
-- Go's `map[string]V` as an association list: the order of the entries stands for none, since each
-- `range` goes through them in an order of its own (`Runtime.arrange`).
pub mod Laws
pub mod Values
use mchat.Base.{
  ℕ, Bool, true, false, List, [], ◌∷◌, Option, none, some, map, Bytes, equal, if◌then◌else◌,
}

abbrev pub Dict {ℓ} : Type ℓ → Type ℓ
Dict V = List (Bytes × V)

module _ {ℓ} {V : Type ℓ} where
  -- `v, exists := m[k]`
  unfoldable pub lookup : Dict V → Bytes → Option V
  lookup [] k = none
  lookup ((j, v) ∷ m) k = if equal j k then some v else lookup m k

  -- `m[k] = v`
  unfoldable pub insert : Dict V → Bytes → V → Dict V
  insert [] k v = (k, v) ∷ []
  insert ((j, w) ∷ m) k v = if equal j k then (k, v) ∷ m else (j, w) ∷ insert m k v

  -- `delete(m, k)`
  unfoldable pub delete : Dict V → Bytes → Dict V
  delete [] k = []
  delete ((j, v) ∷ m) k = let rest = delete m k in if equal j k then rest else (j, v) ∷ rest

  abbrev pub values : Dict V → List V
  values = map (λ e. e.1)

  abbrev pub keys : Dict V → List Bytes
  keys = map (λ e. e.0)

  -- `_, exists := m[k]`
  abbrev pub has : Dict V → Bytes → Bool
  has m k = elim (lookup m k) [ none ↦ false | some v ↦ true ]
