-- ===== src/Session/Server/Invariant.antt =====
-- What holds of all connections of a session, whatever the order of their rounds.
use mathlib.Core.Option.{some-injective}
use mchat.Base.{
  ℕ, ◌≡◌, ◌≢◌, ◌<◌, ◌⊎◌, refl, subst, inl, inr, true, false, none, some, [], arith, Bytes,
  Bool-cases, ==_iff, ==_refl, ◌==◌, equal_refl, equal_iff,
}
use mchat.Dict.{lookup}
use mchat.Dict.Laws.{lookup-insert}
use mchat.Runtime.{Runtime}
use mchat.Backend.Defs.{Backend}
use mchat.Backend.Contract.{KeepsNames}
use mchat.Session.State.{Reader, Thread, World, is_connected, done}
use mchat.Session.ConnectionMap.{update}
use mchat.Session.Input.{ReadEvent}
use mchat.Session.Loop.{round}
use mchat.Session.Reader.Invariant.{Inv}
use mchat.Session.Reader.Rounds.{round-Inv}
use mchat.Session.Reader.Locality.{Local}
use mchat.Session.Reader.Locality.Rounds.{round-Local, round-Leaves, Leaves}
use mchat.Session.Server.{Server, thread, create, accept, goes_on, ends}

pub record ServerInv {b : Backend} (s : Server b) : Type 0 where
  pub numbered : (p : ℕ) (r : Reader) → s.readers p ≡ some r → (r.conn ≡ p) × (p < s.next)
  pub keeps : (p : ℕ) (r : Reader) → s.readers p ≡ some r → Inv (thread r s.world)
  -- two that are connected have different names
  pub distinct :
      (p q : ℕ) (r r' : Reader)
      → s.readers p ≡ some r
      → s.readers q ≡ some r'
      → is_connected (s.world.heap p).state ≡ true
      → is_connected (s.world.heap q).state ≡ true
      → (s.world.heap p).participant.username ≡ (s.world.heap q).participant.username
      → p ≡ q

update-cases {ℓ} :
    {A : Type ℓ} (f : ℕ → A) (p q : ℕ) (a x : A)
    → update f p a q ≡ x
    → ((p ≡ q) × (a ≡ x)) ⊎ ((p ≢ q) × (f q ≡ x))
update-cases f p q a x h = elim (Bool-cases (p == q)) [
  | inl same ↦ inl ((==_iff p q).0 same, rw same at h)
  | inr other ↦ inr (λ e. ground (arith, ==_iff p q), rw other at h)
]

pub create-ServerInv : {b : Backend} (storage : b.Store) → ServerInv (create {b = b} storage)
create-ServerInv storage = record {
  numbered = λ p r h. ground arith;
  keeps = λ p r h. cc;
  distinct = λ p q r r' h h'. cc;
}

-- What another connection's step leaves alone keeps the invariant of a connection.
moved-Inv :
    {b : Backend} (r : Reader) (w w' : World b)
    → w'.heap r.conn ≡ w.heap r.conn
    → lookup w'.connections (w.heap r.conn).ip_addr ≡ lookup w.connections (w.heap r.conn).ip_addr
    → (b.has_participant w.storage (w.heap r.conn).participant.username ≡ true
        → b.has_participant w'.storage (w.heap r.conn).participant.username ≡ true)
    → Inv (thread r w)
    → Inv (thread r w')
moved-Inv r w w' same mapped known v = ground arith

module _ (rt : Runtime) {b : Backend} (k : KeepsNames b) (s : Server b) (v : ServerInv s) where
  module _ (ip : Bytes) (free : lookup s.world.connections ip ≡ none) where
    accept_numbered :
        (q : ℕ) (r : Reader)
        → (accept s ip).readers q ≡ some r
        → (r.conn ≡ q) × (q < (accept s ip).next)
    unfolding accept
    accept_numbered q r h = ground (arith, v.numbered q r, ==_iff s.next q)

    accept_keeps :
        (q : ℕ) (r : Reader) → (accept s ip).readers q ≡ some r → Inv (thread r (accept s ip).world)
    unfolding accept
    accept_keeps q r h = ground (
      arith,
      v.numbered q r,
      v.keeps q r,
      ==_iff s.next q,
      ==_refl s.next,
      equal_refl ip,
      lookup-insert s.world.connections ip ip s.next,
      lookup-insert s.world.connections ip (s.world.heap r.conn).ip_addr s.next,
      equal_iff ip (s.world.heap r.conn).ip_addr,
    )

    accept_distinct :
        (p q : ℕ) (r r' : Reader)
        → (accept s ip).readers p ≡ some r
        → (accept s ip).readers q ≡ some r'
        → is_connected ((accept s ip).world.heap p).state ≡ true
        → is_connected ((accept s ip).world.heap q).state ≡ true
        → ((accept s ip).world.heap p).participant.username
          ≡ ((accept s ip).world.heap q).participant.username
        → p ≡ q
    unfolding accept
    accept_distinct p q r r' hp hq cp cq same =
        ground (arith, v.distinct p q r r', ==_iff s.next p, ==_iff s.next q)

    pub accept-ServerInv : ServerInv (accept s ip)
    accept-ServerInv = record {
      numbered = accept_numbered;
      keeps = accept_keeps;
      distinct = accept_distinct;
    }

  module _ (p : ℕ) (r : Reader) (e : ReadEvent) (t : Thread b) (at : s.readers p ≡ some r) where
    -- Two connections stand under different addresses.
    other_address :
        (q : ℕ) (r' : Reader)
        → s.readers q ≡ some r'
        → p ≢ q
        → (s.world.heap r.conn).ip_addr ≢ (s.world.heap r'.conn).ip_addr
    other_address q r' h ne same = ground (
      arith,
      v.numbered p r at,
      v.numbered q r' h,
      (v.keeps p r at).is_mapped,
      (v.keeps q r' h).is_mapped,
    )

    module _ (on : round rt (thread r s.world) e ≡ done (t, false)) where
      pub unchanged_for : (q : ℕ) (u : Bytes) → Local q u (thread r s.world) t
      unchanged_for q u = round-Local rt k q u (thread r s.world) t e (v.keeps p r at) on

      on_keeps :
          (q : ℕ) (r' : Reader) → (goes_on s p t).readers q ≡ some r' → Inv (thread r' t.world)
      on_keeps q r' h = elim (update-cases s.readers p q (some t.reader) (some r') h) [
        | inl (same, is_reader) ↦
            subst (λ x. Inv (thread x t.world)) (some-injective _ _ is_reader)
              (round-Inv rt k (thread r s.world) t e (v.keeps p r at) on)
        | inr (ne, h') ↦
            let facts = unchanged_for r'.conn (s.world.heap r'.conn).participant.username in
            moved-Inv r' s.world t.world
              (facts.same_other (ground (arith, v.numbered p r at, v.numbered q r' h')))
              (rw (facts.same_connections) refl) facts.stays_known (v.keeps q r' h')
      ]

      on_numbered :
          (q : ℕ) (r' : Reader) → (goes_on s p t).readers q ≡ some r' → (r'.conn ≡ q) × (q < s.next)
      on_numbered q r' h =
          ground
            (arith, v.numbered p r at, v.numbered q r', (unchanged_for q []).same_conn, ==_iff p q)

      -- The connection that makes the round against any other one.
      new_name :
          (q : ℕ) (r' : Reader)
          → s.readers q ≡ some r'
          → p ≢ q
          → is_connected (t.heap p).state ≡ true
          → is_connected (t.heap q).state ≡ true
          → (t.heap p).participant.username ≢ (t.heap q).participant.username
      new_name q r' h ne cp cq same =
          let facts = unchanged_for q [] in
          ground (
            arith,
            v.numbered p r at,
            v.numbered q r' h,
            facts,
            v.keeps q r' h,
            v.distinct p q r r' at h,
          )

      on_distinct :
          (q q' : ℕ) (r1 r2 : Reader)
          → (goes_on s p t).readers q ≡ some r1
          → (goes_on s p t).readers q' ≡ some r2
          → is_connected (t.heap q).state ≡ true
          → is_connected (t.heap q').state ≡ true
          → (t.heap q).participant.username ≡ (t.heap q').participant.username
          → q ≡ q'
      on_distinct q q' r1 r2 h1 h2 c1 c2 same = ground (
        arith,
        ==_iff p q,
        ==_iff p q',
        new_name q r1,
        new_name q' r2,
        v.distinct q q' r1 r2,
        v.numbered p r at,
        (unchanged_for q []).same_other,
        (unchanged_for q' []).same_other,
      )

      pub on-ServerInv : ServerInv (goes_on s p t)
      on-ServerInv = record { numbered = on_numbered; keeps = on_keeps; distinct = on_distinct }

    module _ (off : round rt (thread r s.world) e ≡ done (t, true)) where
      pub free_for : (q : ℕ) (u a : Bytes) → Leaves rt k q u a (thread r s.world) t
      free_for q u a = round-Leaves rt k q u a (thread r s.world) t e (v.keeps p r at) off

      off_keeps : (q : ℕ) (r' : Reader) → (ends s p t).readers q ≡ some r' → Inv (thread r' t.world)
      off_keeps q r' h = elim (update-cases s.readers p q none (some r') h) [
        | inl (same, is_none) ↦ cc
        | inr (ne, h') ↦
            let c = s.world.heap r'.conn in
            let facts = free_for r'.conn c.participant.username c.ip_addr in
            moved-Inv r' s.world t.world
              (facts.same_other (ground (arith, v.numbered p r at, v.numbered q r' h')))
              (ground (
                arith,
                facts.is_gone,
                other_address q r' h' ne,
                equal_iff (s.world.heap r.conn).ip_addr c.ip_addr,
              ))
              facts.stays_known (v.keeps q r' h')
      ]

      pub off-ServerInv : ServerInv (ends s p t)
      off-ServerInv = record {
        numbered = λ q r' h. ground (arith, ==_iff p q, v.numbered q r');
        keeps = off_keeps;
        distinct = λ q q' r1 r2 h1 h2 c1 c2 same. ground (
          arith,
          ==_iff p q,
          ==_iff p q',
          v.distinct q q' r1 r2,
          v.numbered p r at,
          (free_for q [] []).same_other,
          (free_for q' [] []).same_other,
        );
      }
