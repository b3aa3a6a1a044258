-- ===== src/Session/Server/Members.antt =====
-- The map of connections of a session: it has the connections that have a reader, each once.
use mchat.Base.{
  ℕ, ◌≡◌, inl, inr, [], Option-cases, refl, sym, Bool, true, false, none, some, arith, Bytes,
  ==_iff, ==_refl, equal, equal_iff, Bool-cases, subst,
}
use mchat.Dict.{lookup, insert}
use mchat.Dict.Laws.{lookup-insert, Unique, Unique-insert, Unique-delete}
use mchat.Runtime.{Runtime}
use mchat.Backend.Defs.{Backend}
use mchat.Backend.Contract.{KeepsNames}
use mchat.Session.State.{Reader, Thread, done}
use mchat.Session.Input.{ReadEvent}
use mchat.Session.Loop.{round}
use mchat.Session.Server.{
  Server, thread, accept, goes_on, ends, expire, Step, accepts, rounds_on, rounds_off, expires,
  Reach, start, later,
}
use mchat.Session.Server.Invariant.{ServerInv, unchanged_for, free_for}
use mchat.Session.Server.Names.{Reach-ServerInv}

abbrev pub has_reader : {b : Backend} → Server b → ℕ → Bool
has_reader s p = elim (s.readers p) [ none ↦ false | some r ↦ true ]

pub record MapInv {b : Backend} (s : Server b) : Type 0 where
  pub entries :
      (ip : Bytes) (p : ℕ)
      → lookup s.world.connections ip ≡ some p
      → (has_reader s p ≡ true) × ((s.world.heap p).ip_addr ≡ ip)
  pub unique : Unique s.world.connections

-- A reader behind the test.
pub reader_of :
    {b : Backend} (s : Server b) (p : ℕ)
    → has_reader s p ≡ true
    → (r : Reader) × (s.readers p ≡ some r)
reader_of s p h = elim (Option-cases (s.readers p)) [
  | inl missing ↦ absurd (ground (arith, missing))
  | inr there ↦ there
]

module _ (rt : Runtime) {b : Backend} (k : KeepsNames b) (s : Server b) (v : ServerInv s)
    (m : MapInv s) where
  accept_entries :
      (ip a : Bytes) (q : ℕ)
      → lookup (accept s ip).world.connections a ≡ some q
      → (has_reader (accept s ip) q ≡ true) × (((accept s ip).world.heap q).ip_addr ≡ a)
  unfolding accept
  accept_entries ip a q h = elim (Bool-cases (equal ip a)) [
    | inl same ↦ ground (
      arith,
      lookup-insert s.world.connections ip a s.next,
      ==_iff s.next q,
      ==_refl s.next,
      equal_iff ip a,
    )
    | inr other ↦
        let before : lookup s.world.connections a ≡ some q =
          ground (arith, lookup-insert s.world.connections ip a s.next) in
        let (r, at) = reader_of s q (m.entries a q before).0 in
        ground (arith, m.entries a q before, v.numbered q r at, ==_iff s.next q)
  ]

  accept-MapInv : (ip : Bytes) → MapInv (accept s ip)
  accept-MapInv ip = record {
    entries = accept_entries ip;
    unique =
        unfold accept in
        subst (λ a. Unique (insert s.world.connections a s.next)) (rw (==_refl s.next) refl)
          (Unique-insert s.world.connections ip s.next m.unique);
  }

  module _ (p : ℕ) (r : Reader) (e : ReadEvent) (t : Thread b) (at : s.readers p ≡ some r) where
    on-MapInv : round rt (thread r s.world) e ≡ done (t, false) → MapInv (goes_on s p t)
    on-MapInv on = record {
      entries = λ a q h.
          let facts = unchanged_for rt k s v p r e t at on q [] in
          ground (arith, m.entries a q, v.numbered p r at, facts, ==_iff p q);
      unique =
          subst Unique (sym (unchanged_for rt k s v p r e t at on p []).same_connections) m.unique;
    }

    off-MapInv : round rt (thread r s.world) e ≡ done (t, true) → MapInv (ends s p t)
    off-MapInv off = record {
      entries = λ a q h.
          let facts = free_for rt k s v p r e t at off q [] a in
          ground (
            arith,
            m.entries a q,
            v.numbered p r at,
            facts,
            ==_iff p q,
            equal_iff (s.world.heap r.conn).ip_addr a,
          );
      unique =
          subst Unique (sym (free_for rt k s v p r e t at off p [] []).is_deleted)
            (Unique-delete s.world.connections (s.world.heap r.conn).ip_addr m.unique);
    }

expire-MapInv :
    {b : Backend} (s : Server b) (p : ℕ) → MapInv s → MapInv (record s { world = expire s.world p })
unfolding expire
expire-MapInv s p m = record {
  entries = λ a q h. ground (arith, m.entries a q, ==_iff p q);
  unique = m.unique;
}

module _ {rt : Runtime} {b : Backend} (k : KeepsNames b) where
  Step-MapInv : {s s' : Server b} → Step rt s s' → ServerInv s → MapInv s → MapInv s'
  Step-MapInv {s} (accepts ip free) v m = accept-MapInv rt k s v m ip
  Step-MapInv {s} (rounds_on p r e t at on) v m = on-MapInv rt k s v m p r e t at on
  Step-MapInv {s} (rounds_off p r e t at off) v m = off-MapInv rt k s v m p r e t at off
  Step-MapInv {s} (expires p watched) v m = expire-MapInv s p m

  pub Reach-MapInv : {storage : b.Store} {s : Server b} → Reach rt storage s → MapInv s
  Reach-MapInv start = record { entries = λ a p h. unfold lookup in cc; unique = tt }
  Reach-MapInv (later r step) = Step-MapInv step (Reach-ServerInv k r) (Reach-MapInv r)
