-- ===== src/Session/Server.antt =====
-- All connections of pkg/session/session.go at once: the goroutines of `handleConnection`, the loop
-- of `Run` that starts them, and `disconnectIfIdle` where a timer fires. Each round of a loop is one
-- step, and the steps come in any order; Overlap has rounds that overlap at a chat message or a
-- registration.
pub mod Invariant
pub mod Names
pub mod Members
pub mod Delivery
pub mod Log
pub mod Overlap
pub mod Authors
pub mod Panics
pub mod History
pub mod Pump
use mchat.Base.{ℕ, ◌+◌, ◌≡◌, true, false, Option, none, some, [], Bytes}
use mchat.Dict.{lookup}
use mchat.Runtime.{Runtime}
use mchat.Backend.Defs.{Backend}
use mchat.Session.State.{Reader, Thread, World, done}
use mchat.Session.ConnectionMap.{new_conn, update, add_conn}
use mchat.Session.Input.{ReadEvent}
use mchat.Session.Loop.{new_reader, round}

-- The goroutines by the numbers of their connections, of which `next` is the first free one.
pub record Server (b : Backend) : Type 0 where
  pub world : World b
  pub readers : ℕ → Option Reader
  pub next : ℕ

module _ {b : Backend} where
  abbrev pub thread : Reader → World b → Thread b
  thread r w = record { reader = r; world = w }

  -- a session with nobody in it
  abbrev pub create : b.Store → Server b
  create storage = record {
    world = record {
      heap = λ p. new_conn [];
      connections = [];
      storage = storage;
      sent = [];
      readings = 0;
    };
    readers = λ p. none;
    next = 0;
  }

  -- the end of the loop of `Run`: `newConn`, `addConn` and `go s.handleConnection(connection)`
  unfoldable pub accept : Server b → Bytes → Server b
  unfolding add_conn
  accept s ip =
      let w = record (s.world) { heap = update s.world.heap s.next (new_conn ip) } in
      record {
        world = add_conn w s.next;
        readers = update s.readers s.next (some (new_reader s.next));
        next = s.next + 1;
      }

  -- after a round of the p-th connection's loop, and after its last one
  abbrev pub goes_on : Server b → ℕ → Thread b → Server b
  goes_on s p t = record s { world = t.world; readers = update s.readers p (some t.reader) }

  abbrev pub ends : Server b → ℕ → Thread b → Server b
  ends s p t = record s { world = t.world; readers = update s.readers p none }

  -- the branch of `disconnectIfIdle` for a timer that has fired
  unfoldable pub expire : World b → ℕ → World b
  expire w p =
      let c = record (w.heap p) { is_closed = true; is_cancelled = true; is_watched = false } in
      record w { heap = update w.heap p c }

  -- No two open connections have the same remote address.
  pub data Step (rt : Runtime) (s : Server b) : Server b → Type 0 where
    accepts : (ip : Bytes) → lookup s.world.connections ip ≡ none → Step rt s (accept s ip)
    rounds_on :
        (p : ℕ) (r : Reader) (e : ReadEvent) (t : Thread b)
        → s.readers p ≡ some r
        → round rt (thread r s.world) e ≡ done (t, false)
        → Step rt s (goes_on s p t)
    rounds_off :
        (p : ℕ) (r : Reader) (e : ReadEvent) (t : Thread b)
        → s.readers p ≡ some r
        → round rt (thread r s.world) e ≡ done (t, true)
        → Step rt s (ends s p t)
    expires :
        (p : ℕ)
        → (s.world.heap p).is_watched ≡ true
        → Step rt s (record s { world = expire s.world p })

  pub data Reach (rt : Runtime) (storage : b.Store) : Server b → Type 0 where
    start : Reach rt storage (create storage)
    later : {s s' : Server b} → Reach rt storage s → Step rt s s' → Reach rt storage s'
