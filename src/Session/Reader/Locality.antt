-- ===== src/Session/Reader/Locality.antt =====
-- What a procedure of a reader leaves alone of what the other connections see, and how a connection
-- comes to be connected.
pub mod Entering
pub mod Steps
pub mod Rounds
use mchat.Base.{ℕ, ◌≡◌, ◌≢◌, true, false, arith, Bytes}
use mchat.Backend.Defs.{Backend}
use mchat.Session.State.{is_connected, Thread}
use mchat.Session.Actions.{conn_of}

-- Read at another connection q and at a name u.
pub record Local {b : Backend} (q : ℕ) (u : Bytes) (t t' : Thread b) : Type 0 where
  pub same_conn : t'.conn ≡ t.conn
  pub same_address : (conn_of t').ip_addr ≡ (conn_of t).ip_addr
  pub same_connections : t'.connections ≡ t.connections
  pub same_other : q ≢ t.conn → t'.heap q ≡ t.heap q
  pub stays_known : b.has_participant t.storage u ≡ true → b.has_participant t'.storage u ≡ true
  -- who is connected stays so, under the same name
  pub stays_connected :
      is_connected (conn_of t).state ≡ true → is_connected (conn_of t').state ≡ true
  pub stays_named :
      is_connected (conn_of t).state ≡ true
      → (conn_of t').participant.username ≡ (conn_of t).participant.username
  -- who gets connected does so under a name that was not registered
  pub is_new :
      is_connected (conn_of t).state ≡ false
      → is_connected (conn_of t').state ≡ true
      → b.has_participant t.storage (conn_of t').participant.username ≡ false

module _ {b : Backend} (q : ℕ) (u : Bytes) where
  pub Local-refl : (t : Thread b) → Local q u t t
  Local-refl t = ground arith

  -- The name after the second step is one at which the first is read, too.
  pub Local-trans :
      (t1 t2 t3 : Thread b)
      → Local q u t1 t2
      → Local q (conn_of t3).participant.username t1 t2
      → Local q u t2 t3
      → Local q u t1 t3
  Local-trans t1 t2 t3 first also second = ground arith
