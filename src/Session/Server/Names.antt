-- ===== src/Session/Server/Names.antt =====
-- Who is connected to a session, after any steps of all its connections.
use mchat.Base.{ℕ, ◌≡◌, ◌≢◌, true, some, arith, ==_iff}
use mchat.Dict.{lookup}
use mchat.Runtime.{Runtime}
use mchat.Validation.{validate_name}
use mchat.Backend.Defs.{Backend}
use mchat.Backend.Contract.{KeepsNames}
use mchat.Session.State.{Reader, is_connected}
use mchat.Session.Server.{
  Server, expire, Step, accepts, rounds_on, rounds_off, expires, Reach, start, later,
}
use mchat.Session.Server.Invariant.{
  ServerInv, create-ServerInv, accept-ServerInv, on-ServerInv, off-ServerInv,
}

expire-ServerInv :
    {b : Backend} (s : Server b) (p : ℕ)
    → ServerInv s
    → ServerInv (record s { world = expire s.world p })
unfolding expire
expire-ServerInv s p v = record {
  numbered = v.numbered;
  keeps = λ q r h. ground (arith, v.keeps q r, ==_iff p r.conn);
  distinct =
      λ q q' r r' h h' c c' same. ground (arith, v.distinct q q' r r', ==_iff p q, ==_iff p q');
}

module _ {rt : Runtime} {b : Backend} (k : KeepsNames b) where
  Step-ServerInv : {s s' : Server b} → Step rt s s' → ServerInv s → ServerInv s'
  Step-ServerInv {s} (accepts ip free) v = accept-ServerInv rt k s v ip free
  Step-ServerInv {s} (rounds_on p r e t at on) v = on-ServerInv rt k s v p r e t at on
  Step-ServerInv {s} (rounds_off p r e t at off) v = off-ServerInv rt k s v p r e t at off
  Step-ServerInv {s} (expires p watched) v = expire-ServerInv s p v

  pub Reach-ServerInv : {storage : b.Store} {s : Server b} → Reach rt storage s → ServerInv s
  Reach-ServerInv {storage} start = create-ServerInv storage
  Reach-ServerInv (later r step) = Step-ServerInv step (Reach-ServerInv r)

  -- Over any storage that keeps its participants, after any steps of all the connections, rounds in any
  -- order, new connections, ends and timers included: two different connections that have a reader
  -- and are connected are so under different names.
  pub distinct_names :
      {storage : b.Store} {s : Server b}
      → Reach rt storage s
      → (p q : ℕ) → p ≢ q
      → (r r' : Reader) → s.readers p ≡ some r
      → s.readers q ≡ some r'
      → is_connected (s.world.heap p).state ≡ true
      → is_connected (s.world.heap q).state ≡ true
      → (s.world.heap p).participant.username ≢ (s.world.heap q).participant.username
  distinct_names reach p q other r r' h h' c c' same =
      other ((Reach-ServerInv reach).distinct p q r r' h h' c c' same)

  -- Over any storage that keeps its participants, after any steps of all the connections, a connection
  -- that has a reader and is connected stands in the map under its address, and the name of its
  -- participant is valid and registered.
  pub registered_names :
      {storage : b.Store} {s : Server b}
      → Reach rt storage s
      → (p : ℕ) (r : Reader) → s.readers p ≡ some r
      → is_connected (s.world.heap p).state ≡ true
      → (lookup s.world.connections (s.world.heap p).ip_addr ≡ some p)
        × (validate_name (s.world.heap p).participant.username ≡ true)
        × (b.has_participant s.world.storage (s.world.heap p).participant.username ≡ true)
  registered_names {s} reach p r h c =
      let v = Reach-ServerInv reach in ground (arith, v.numbered p r h, v.keeps p r h)
