-- ===== src/Text/Laws.antt =====
-- Splitting a text at a separator, and joining the pieces again.
use mchat.Base.{
  ℕ, ◌≡◌, refl, ap, true, not, List, [], ◌∷◌, ◌++◌, ◌==◌, ==_refl, arith, Bytes, all, All, ◌∙◌,
}
use mchat.Text.{split}

-- The pieces with the separator between them, as `strings.Join` puts it.
abbrev pub join : ℕ → List Bytes → Bytes
join sep [] = []
join sep (p ∷ []) = p
join sep (p ∷ q ∷ ps) = p ++ (sep ∷ join sep (q ∷ ps))

abbrev pub IsWithout : ℕ → Bytes → Type 0
IsWithout sep s = all (λ c. not (c == sep)) s ≡ true

pub split-append :
    (sep : ℕ) (p s : Bytes) → IsWithout sep p → split (p ++ (sep ∷ s)) sep ≡ p ∷ split s sep
unfolding split
split-append sep [] s h = ground (arith, ==_refl sep)
split-append sep (c ∷ p) s h = ground (arith, split-append sep p s)

split_without : (sep : ℕ) (p : Bytes) → IsWithout sep p → split p sep ≡ p ∷ []
unfolding split
split_without sep [] h = refl
split_without sep (c ∷ p) h = ground (arith, split_without sep p)

-- Splitting undoes joining pieces that do not hold the separator.
pub split-join :
    (sep : ℕ) (p : Bytes) (ps : List Bytes)
    → All (IsWithout sep) (p ∷ ps)
    → split (join sep (p ∷ ps)) sep ≡ p ∷ ps
split-join sep p [] h = split_without sep p h.0
split-join sep p (q ∷ ps) h =
    split-append sep p (join sep (q ∷ ps)) h.0 ∙ ap (◌∷◌ p) (split-join sep q ps h.1)
