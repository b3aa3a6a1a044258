-- ===== src/Client/Streams/Chunks.antt =====
-- What a client makes of its reads.
use mchat.Base.{
  ◌≡◌, refl, ap, inl, inr, Bool, true, false, ◌||◌, List, [], ◌∷◌, ◌++◌, any, Bytes, is_empty,
  if◌then◌else◌, Bool-cases, arith,
}
use mchat.Util.{trim_whitespaces}
use mchat.Session.Input.{ReadEvent}
use mchat.Client.{is_failed}

-- The bytes of the reads that did not fail; of the remote ones, those that returned some.
unfoldable pub chunks : List ReadEvent → List Bytes
chunks [] = []
chunks (e ∷ es) =
    let rest = chunks es in if is_failed e.err || is_empty e.bytes then rest else e.bytes ∷ rest

unfoldable pub lines : List ReadEvent → List Bytes
lines [] = []
lines (e ∷ es) =
    let rest = lines es in if is_failed e.err then rest else trim_whitespaces e.bytes ∷ rest

pub chunks-append : (xs ys : List ReadEvent) → chunks (xs ++ ys) ≡ chunks xs ++ chunks ys
unfolding chunks
chunks-append [] ys = refl
chunks-append (e ∷ es) ys = elim (Bool-cases (is_failed e.err || is_empty e.bytes)) [
  | inl skipped ↦ rw skipped (chunks-append es ys)
  | inr taken ↦ rw taken (ap (λ r. e.bytes ∷ r) (chunks-append es ys))
]

pub lines-append : (xs ys : List ReadEvent) → lines (xs ++ ys) ≡ lines xs ++ lines ys
unfolding lines
lines-append [] ys = refl
lines-append (e ∷ es) ys = elim (Bool-cases (is_failed e.err)) [
  | inl skipped ↦ rw skipped (lines-append es ys)
  | inr taken ↦ rw taken (ap (λ r. trim_whitespaces e.bytes ∷ r) (lines-append es ys))
]

pub no_chunk : (e : ReadEvent) → (is_failed e.err || is_empty e.bytes) ≡ true → chunks (e ∷ []) ≡ []
unfolding chunks
no_chunk e h = rw h refl

pub one_chunk :
    (e : ReadEvent) → (is_failed e.err || is_empty e.bytes) ≡ false → chunks (e ∷ []) ≡ e.bytes ∷ []
unfolding chunks
one_chunk e h = rw h refl

pub no_line : (e : ReadEvent) → is_failed e.err ≡ true → lines (e ∷ []) ≡ []
unfolding lines
no_line e h = rw h refl

pub one_line :
    (e : ReadEvent) → is_failed e.err ≡ false → lines (e ∷ []) ≡ trim_whitespaces e.bytes ∷ []
unfolding lines
one_line e h = rw h refl

-- A read of the connection after which `handleRemoteConnection` returns.
abbrev pub is_last_read : ReadEvent → Bool
is_last_read e = is_failed e.err || is_empty e.bytes

pub any-append :
    (p : ReadEvent → Bool) (xs ys : List ReadEvent) → any p (xs ++ ys) ≡ (any p xs || any p ys)
any-append p [] ys = refl
any-append p (x ∷ xs) ys = ground (arith, any-append p xs ys)
