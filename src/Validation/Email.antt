-- ===== src/Validation/Email.antt =====
-- What `ValidateEmail` accepts, said without counting and cutting.
use mchat.Base.{
  ℕ, ◌≤◌, ◌≡◌, ◌≢◌, refl, ap, sym, suc, inl, inr, Bool-cases, ◌↔◌, Bool, true, false, ◌&&◌, [], ◌∷◌,
  ◌++◌, ◌==◌, arith, Bytes, length, all, &&_iff,
}
use mathlib.Core.Path.{subst}
use mchat.Text.{has_prefix, ends_with, count, cut}
use mchat.Validation.{
  local_class, domain_class, no_double_dot, valid_local, valid_domain, validate_email,
}

-- `t` stands in `s` as a block of neighbours.
pub record Contains (s t : Bytes) : Type 0 where
  pub before : Bytes
  pub after : Bytes
  pub splits : s ≡ before ++ (t ++ after)

-- What is asked of the part in front of the `@`.
pub record IsLocal (l : Bytes) : Type 0 where
  pub nonempty : 1 ≤ length l
  pub short_enough : length l ≤ 64
  pub allowed : all local_class l ≡ true
  pub no_first_dot : has_prefix l (b'.' ∷ []) ≡ false
  pub no_last_dot : ends_with l b'.' ≡ false
  pub no_dots : ¬ Contains l (b'.' ∷ b'.' ∷ [])

-- What is asked of the part behind the `@`.
pub record IsDomain (d : Bytes) : Type 0 where
  pub nonempty : d ≢ []
  pub allowed : all domain_class d ≡ true
  pub no_first_hyphen : has_prefix d (b'-' ∷ []) ≡ false
  pub no_last_hyphen : ends_with d b'-' ≡ false
  pub bracketed : has_prefix d (b'[' ∷ []) ≡ true → ends_with d b']' ≡ true

pub record IsEmail (e : Bytes) : Type 0 where
  pub local : Bytes
  pub domain : Bytes
  pub splits : e ≡ local ++ (b'@' ∷ domain)
  pub local_ok : IsLocal local
  pub domain_ok : IsDomain domain

no_double_dot-append : (s t : Bytes) → no_double_dot (s ++ (b'.' ∷ b'.' ∷ t)) ≡ false
unfolding no_double_dot
no_double_dot-append [] t = refl
no_double_dot-append (c ∷ []) t = ground arith
no_double_dot-append (c ∷ d ∷ s) t = ground (arith, no_double_dot-append (d ∷ s) t)

Contains-here : (s : Bytes) → Contains (b'.' ∷ b'.' ∷ s) (b'.' ∷ b'.' ∷ [])
Contains-here s = record { before = []; after = s; splits = refl }

Contains-cons : {s t : Bytes} (c : ℕ) → Contains s t → Contains (c ∷ s) t
Contains-cons c h = record { before = c ∷ h.before; after = h.after; splits = ap (◌∷◌ c) h.splits }

no_double_dot_sound : (s : Bytes) → no_double_dot s ≡ true → ¬ Contains s (b'.' ∷ b'.' ∷ [])
no_double_dot_sound s h c = cc (ap no_double_dot c.splits, no_double_dot-append c.before c.after)

no_double_dot_complete : (s : Bytes) → ¬ Contains s (b'.' ∷ b'.' ∷ []) → no_double_dot s ≡ true
unfolding no_double_dot
no_double_dot_complete [] h = refl
no_double_dot_complete (c ∷ []) h = refl
no_double_dot_complete (c ∷ d ∷ s) h =
    let rest = no_double_dot_complete (d ∷ s) (λ x. h (Contains-cons c x)) in
    elim (Bool-cases (c == b'.' && d == b'.')) [
      | inl dots ↦
          let e : c ∷ d ∷ s ≡ b'.' ∷ b'.' ∷ s = ground arith in
          absurd (h (subst (λ t. Contains t (b'.' ∷ b'.' ∷ [])) (sym e) (Contains-here s)))
      | inr other ↦ rw other rest
    ]

valid_domain_iff : (d : Bytes) → (valid_domain d ≡ true) ↔ IsDomain d
unfolding valid_domain
valid_domain_iff [] = (λ h. ground arith, λ h. ground arith)
valid_domain_iff (c ∷ d) = (λ h. ground arith, λ h. ground arith)

valid_local_iff : (l : Bytes) → (valid_local l ≡ true) ↔ IsLocal l
unfolding valid_local
valid_local_iff l = (to, from)
  where
    to : valid_local l ≡ true → IsLocal l
    to h = record {
      nonempty = ground arith;
      short_enough = ground arith;
      allowed = ground arith;
      no_first_dot = ground arith;
      no_last_dot = ground arith;
      no_dots = no_double_dot_sound l (ground arith);
    }

    from : IsLocal l → valid_local l ≡ true
    from h = ground (arith, no_double_dot_complete l h.no_dots)

count-append_one :
    (l d : Bytes) (b : ℕ)
    → count l b ≡ 0
    → count d b ≡ 0
    → (count (l ++ (b ∷ d)) b ≡ 1) × (cut (l ++ (b ∷ d)) b ≡ (l, d))
unfolding count cut
count-append_one [] d b hl hd = ground arith
count-append_one (c ∷ l) d b hl hd = ground (arith, count-append_one l d b)

-- A text that has the separator is cut there.
cut-splits : (e : Bytes) (b n : ℕ) → count e b ≡ suc n → e ≡ (cut e b).0 ++ (b ∷ (cut e b).1)
unfolding count cut
cut-splits [] b n h = cc
cut-splits (c ∷ e) b n h = elim (Bool-cases (c == b)) [
  | inl same ↦ rw same (ground arith)
  | inr other ↦ rw other (ap (◌∷◌ c) (cut-splits e b n (ground arith)))
]

count-class :
    (class : ℕ → Bool) (s : Bytes) (b : ℕ) → class b ≡ false → all class s ≡ true → count s b ≡ 0
unfolding count
count-class class [] b h a = refl
count-class class (c ∷ s) b h a = elim (Bool-cases (c == b)) [
  | inl same ↦
      let e : c ≡ b = ground arith in cc (ap class e, ((&&_iff (class c) (all class s)).0 a).0)
  | inr other ↦
      rw other (ground (arith, count-class class s b h ((&&_iff (class c) (all class s)).0 a).1))
]

local_class_at : local_class b'@' ≡ false
unfolding local_class
local_class_at = refl

domain_class_at : domain_class b'@' ≡ false
unfolding domain_class
domain_class_at = refl

validate_email_sound : (e : Bytes) → validate_email e ≡ true → IsEmail e
unfolding validate_email
validate_email_sound e h = record {
  local = (cut e b'@').0;
  domain = (cut e b'@').1;
  splits = cut-splits e b'@' 0 (ground arith);
  local_ok = (valid_local_iff (cut e b'@').0).0 (ground arith);
  domain_ok = (valid_domain_iff (cut e b'@').1).0 (ground arith);
}

validate_email_complete : (e : Bytes) → IsEmail e → validate_email e ≡ true
unfolding validate_email
validate_email_complete e h =
    let no_at = count-class local_class h.local b'@' local_class_at h.local_ok.allowed in
    let none_behind = count-class domain_class h.domain b'@' domain_class_at h.domain_ok.allowed in
    let (one, pieces) = count-append_one h.local h.domain b'@' no_at none_behind in
    let local_holds = (valid_local_iff h.local).1 h.local_ok in
    let domain_holds = (valid_domain_iff h.domain).1 h.domain_ok in
    rw h.splits (rw (one, pieces) (ground (arith, local_holds, domain_holds)))

-- An address is accepted exactly when it splits at an `@` into a local part of 1 to 64 bytes of
-- its class, with no dot first, last or next to another dot, and a nonempty domain of bytes of its
-- class, with no hyphen first or last, which ends in `]` if it begins with `[`.
pub validate_email_iff : (e : Bytes) → (validate_email e ≡ true) ↔ IsEmail e
validate_email_iff e = (validate_email_sound e, validate_email_complete e)
