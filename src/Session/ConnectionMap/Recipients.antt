-- ===== src/Session/ConnectionMap/Recipients.antt =====
-- The members of the map that a message goes to.
use mathlib.Core.List.{Nodup, Nodup-cons, Mem, Mem-prop, mem-cons, mem-cons_self, not-mem-nil}
use mathlib.Core.Logic.Or
use mchat.Base.{ℕ, ◌≡◌, ◌≢◌, ◌↔◌, Bool, true, [], ◌∷◌, List, arith, Bool-cases, inl, inr, ◌∙◌}
use mchat.Session.State.{Connection, is_connected}
use mchat.Session.ConnectionMap.Broadcast.{online, without_first}

mem-cons_mono : {p q : ℕ} {l l' : List ℕ} → (Mem p l → Mem p l') → Mem p (q ∷ l) → Mem p (q ∷ l')
mem-cons_mono f h =
    Or.elim Mem-prop (mem-cons.0 h) (λ e. mem-cons.1 (Or.inl e))
      (λ later. mem-cons.1 (Or.inr (f later)))

module _ (heap : ℕ → Connection) where
  mem-online_member : (ps : List ℕ) (p : ℕ) → Mem p (online heap ps) → Mem p ps
  unfolding online
  mem-online_member [] p h = h
  mem-online_member (q ∷ ps) p h = elim (Bool-cases (is_connected (heap q).state)) [
    | inl on ↦ mem-cons_mono (mem-online_member ps p) (rw on at h)
    | inr off ↦ mem-cons.1 (Or.inr (mem-online_member ps p (rw off at h)))
  ]

  mem-online_connected :
      (ps : List ℕ) (p : ℕ) → Mem p (online heap ps) → is_connected (heap p).state ≡ true
  unfolding online
  mem-online_connected [] p h = absurd (not-mem-nil h)
  mem-online_connected (q ∷ ps) p h = elim (Bool-cases (is_connected (heap q).state)) [
    | inl on ↦ Or.elim (hlevel) (mem-cons.0 (rw on at h)) (λ e. rw e on) (mem-online_connected ps p)
    | inr off ↦ mem-online_connected ps p (rw off at h)
  ]

  mem-online_back :
      (ps : List ℕ) (p : ℕ) → Mem p ps → is_connected (heap p).state ≡ true → Mem p (online heap ps)
  unfolding online
  mem-online_back [] p h on = h
  mem-online_back (q ∷ ps) p h on = elim (Bool-cases (is_connected (heap q).state)) [
    | inl on' ↦ rw on' (mem-cons_mono (λ later. mem-online_back ps p later on) h)
    | inr off ↦ rw off (
        Or.elim Mem-prop (mem-cons.0 h) (λ e. ground (arith, rw e at on, off))
          (λ later. mem-online_back ps p later on))
  ]

  pub mem-online :
      (ps : List ℕ) (p : ℕ)
      → Mem p (online heap ps) ↔ (Mem p ps × (is_connected (heap p).state ≡ true))
  mem-online ps p = (
    λ h. (mem-online_member ps p h, mem-online_connected ps p h),
    λ (h, on). mem-online_back ps p h on,
  )

  pub online-Nodup : (ps : List ℕ) → Nodup ps → Nodup (online heap ps)
  unfolding online
  online-Nodup [] d = d
  online-Nodup (p ∷ ps) d = elim (Bool-cases (is_connected (heap p).state)) [
    | inl on ↦ rw on (
        Nodup-cons.1
          (λ h. (Nodup-cons.0 d).0 (mem-online_member ps p h), online-Nodup ps (Nodup-cons.0 d).1))
    | inr off ↦ rw off (online-Nodup ps (Nodup-cons.0 d).1)
  ]

-- Without the first of a kind that has one member only, the list has all members but that one.
module _ (is_kind : ℕ → Bool) (p : ℕ) (is_p : is_kind p ≡ true) where
  without_first_member : (ps : List ℕ) (q : ℕ) → Mem q (without_first is_kind ps) → Mem q ps
  unfolding without_first
  without_first_member [] q h = h
  without_first_member (r ∷ ps) q h = elim (Bool-cases (is_kind r)) [
    | inl this ↦ mem-cons.1 (Or.inr (rw this at h))
    | inr other ↦ mem-cons_mono (without_first_member ps q) (rw other at h)
  ]

  pub without_first-Nodup : (ps : List ℕ) → Nodup ps → Nodup (without_first is_kind ps)
  unfolding without_first
  without_first-Nodup [] d = d
  without_first-Nodup (r ∷ ps) d = elim (Bool-cases (is_kind r)) [
    | inl this ↦ rw this (Nodup-cons.0 d).1
    | inr other ↦ rw other (
        Nodup-cons.1 (
          λ h. (Nodup-cons.0 d).0 (without_first_member ps r h),
          without_first-Nodup ps (Nodup-cons.0 d).1,
        ))
  ]

  without_first_other :
      (ps : List ℕ) (q : ℕ)
      → ((r : ℕ) → Mem r ps → is_kind r ≡ true → r ≡ p)
      → Nodup ps
      → Mem q (without_first is_kind ps)
      → q ≢ p
  unfolding without_first
  without_first_other [] q only d h same = absurd (not-mem-nil h)
  without_first_other (r ∷ ps) q only d h same = elim (Bool-cases (is_kind r)) [
    | inl this ↦ (Nodup-cons.0 d).0 (rw (only r mem-cons_self this, ← same) (rw this at h))
    | inr other ↦
        Or.elim (λ x y. absurd x) (mem-cons.0 (rw other at h))
          (λ e. ground (arith, rw same at e, is_p, other))
          (λ later.
            without_first_other ps q (λ x m. only x (mem-cons.1 (Or.inr m))) (Nodup-cons.0 d).1
              later same)
  ]

  without_first_back :
      (ps : List ℕ) (q : ℕ)
      → ((r : ℕ) → Mem r ps → is_kind r ≡ true → r ≡ p)
      → Mem q ps
      → q ≢ p
      → Mem q (without_first is_kind ps)
  unfolding without_first
  without_first_back [] q only h ne = h
  without_first_back (r ∷ ps) q only h ne = elim (Bool-cases (is_kind r)) [
    | inl this ↦ rw this (
        Or.elim Mem-prop (mem-cons.0 h) (λ e. absurd (ne (e ∙ only r mem-cons_self this)))
          (λ later. later))
    | inr other ↦ rw other (
        mem-cons_mono
          (λ later. without_first_back ps q (λ x m. only x (mem-cons.1 (Or.inr m))) later ne) h)
  ]

  pub mem-without_first :
      (ps : List ℕ) (q : ℕ)
      → ((r : ℕ) → Mem r ps → is_kind r ≡ true → r ≡ p)
      → Nodup ps
      → Mem q (without_first is_kind ps) ↔ (Mem q ps × (q ≢ p))
  mem-without_first ps q only d = (
    λ h. (without_first_member ps q h, without_first_other ps q only d h),
    λ (h, ne). without_first_back ps q only h ne,
  )
