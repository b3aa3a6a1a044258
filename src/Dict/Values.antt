-- ===== src/Dict/Values.antt =====
-- The values of a map, as a `range` goes through them.
use mathlib.Core.List.{Nodup, Nodup-cons, Nodup-nil, Mem, mem-cons, not-mem-nil}
use mathlib.Core.Option.{is_set}
use mathlib.Core.Logic.Or
use mchat.Base.{◌≡◌, none, some, arith, Bytes, equal, equal_iff, [], ◌∷◌, Bool-cases, inl, inr}
use mchat.Dict.{Dict, lookup, values}
use mchat.Dict.Laws.{Unique}

module _ {ℓ} {V : Type ℓ} where
  pub mem-values : (m : Dict V) (k : Bytes) (v : V) → lookup m k ≡ some v → Mem v (values m)
  unfolding lookup
  mem-values [] k v h = cc
  mem-values ((j, w) ∷ m) k v h = elim (Bool-cases (equal j k)) [
    | inl same ↦ mem-cons.1 (Or.inl (ground (arith, h, same)))
    | inr other ↦ mem-cons.1 (Or.inr (mem-values m k v (ground arith)))
  ]

  module _ (key : V → Bytes) where
    -- each value knows the key that it stands under
    abbrev pub Keyed : Dict V → Type ℓ
    Keyed m = (k : Bytes) (v : V) → lookup m k ≡ some v → key v ≡ k

    Keyed-tail : (k : Bytes) (v : V) (m : Dict V) → lookup m k ≡ none → Keyed ((k, v) ∷ m) → Keyed m
    unfolding lookup
    Keyed-tail k v m free keyed j w h = keyed j w (ground (arith, equal_iff k j))

    module _ (set : IsSet V) where
      pub lookup-key :
          (m : Dict V) (v : V) → Unique m → Keyed m → Mem v (values m) → lookup m (key v) ≡ some v
      unfolding lookup
      lookup-key [] v u keyed h = absurd (not-mem-nil h)
      lookup-key ((k, w) ∷ m) v u keyed h =
          let prop : IsProp (lookup ((k, w) ∷ m) (key v) ≡ some v) = is_set set _ _ in
          Or.elim prop (mem-cons.0 h)
            (λ e. ground (arith, e, keyed k w, equal_iff k (key v), equal_iff k k))
            (λ later.
              let before = lookup-key m v u.1 (Keyed-tail k w m u.0 keyed) later in
              ground (arith, u.0, equal_iff k (key v)))

      pub values-Nodup : (m : Dict V) → Unique m → Keyed m → Nodup (values m)
      unfolding lookup
      values-Nodup [] u keyed = Nodup-nil
      values-Nodup ((k, v) ∷ m) u keyed = Nodup-cons.1 (
        λ h.
            let again = lookup-key m v u.1 (Keyed-tail k v m u.0 keyed) h in
            ground (arith, u.0, keyed k v, equal_iff k k),
        values-Nodup m u.1 (Keyed-tail k v m u.0 keyed),
      )
