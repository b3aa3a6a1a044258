-- ===== src/Session/Reader/Registration.antt =====
-- A whole registration, by the handlers of pkg/session/reader.go for its three lines.
use mchat.Base.{◌≡◌, ◌∙◌, ap, refl, true, false, some, arith, ==_refl, Bytes, codes}
use mchat.Dict.{lookup}
use mchat.Runtime.{Runtime}
use mchat.Types.{Participant}
use mchat.Validation.{validate_name, validate_password, validate_email}
use mchat.Backend.Defs.{Backend}
use mchat.Backend.Contract.{IsBackend}
use mchat.Session.State.{
  match_state, ReaderSubstate, state_registration, state_accepting_messages, is_connected,
  substate_reading_name, substate_reading_password, substate_reading_email_address, Thread, Outcome,
  done, ◌>>=◌,
}
use mchat.Session.Actions.{conn_of, update_state, notice, reply}
use mchat.Session.Submission.{set_username, set_email, register_step, on_register_participant_state}
use mchat.Session.Loop.{transition}
use mchat.Session.Reader.Authentication.{password_line}

-- A line was taken for a field of the participant, and the next one is waited for.
record Takes {b : Backend} (t : Thread b) (p : Participant) (sub : ReaderSubstate) (t' : Thread b)
    : Type 0 where
  registers : t'.state ≡ state_registration
  waits : t'.substate ≡ sub
  same_conn : t'.conn ≡ t.conn
  same_storage : t'.storage ≡ t.storage
  same_connections : t'.connections ≡ t.connections
  same_address : (conn_of t').ip_addr ≡ (conn_of t).ip_addr
  field : (conn_of t').participant ≡ p

module _ (rt : Runtime) {b : Backend} where
  -- what a handler sees of a line
  abbrev pub with_line : Thread b → Bytes → Thread b
  with_line t line = record t { reader = record (t.reader) { buffer = line } }

  -- the handlers of three lines, each for the state that the one before left
  abbrev pub three_lines : Thread b → (name email password : Bytes) → Outcome (Thread b)
  three_lines t name email password = do
    named ← transition rt t.state (with_line t name)
    mailed ← transition rt named.state (with_line named email)
    transition rt mailed.state (with_line mailed password)

  name_line :
      (t : Thread b) (line : Bytes)
      → t.state ≡ state_registration
      → t.substate ≡ substate_reading_name
      → (t' : Thread b) × (transition rt t.state (with_line t line) ≡ done t')
        × Takes t
            (record ((conn_of t).participant) { username = line })
            substate_reading_email_address
            t'
  unfolding transition on_register_participant_state register_step notice reply
  name_line t line e sub =
      let t' =
        update_state (notice rt (set_username (with_line t line)) (codes "enter email: "))
          state_registration substate_reading_email_address in
      (
        t',
        unfold match_state in rw (e, sub) refl,
        record {
          registers = refl;
          waits = refl;
          same_conn = refl;
          same_storage = refl;
          same_connections = refl;
          same_address = ground (arith, ==_refl t.conn);
          field = ground (arith, ==_refl t.conn);
        },
      )

  email_line :
      (t : Thread b) (line : Bytes)
      → t.state ≡ state_registration
      → t.substate ≡ substate_reading_email_address
      → (t' : Thread b) × (transition rt t.state (with_line t line) ≡ done t')
        × Takes t (record ((conn_of t).participant) { email = line }) substate_reading_password t'
  unfolding transition on_register_participant_state register_step notice reply
  email_line t line e sub =
      let t' =
        update_state (notice rt (set_email (with_line t line)) (codes "enter password: "))
          state_registration substate_reading_password in
      (
        t',
        unfold match_state in rw (e, sub) refl,
        record {
          registers = refl;
          waits = refl;
          same_conn = refl;
          same_storage = refl;
          same_connections = refl;
          same_address = ground (arith, ==_refl t.conn);
          field = ground (arith, ==_refl t.conn);
        },
      )

  -- Over any storage that meets the contract, where no other goroutine steps in between: a
  -- registration that waits for the name, of a connection that stands in the map, and that gets three
  -- lines with a valid name that is free, a valid email and a valid password, neither panics nor
  -- blocks. After it the connection is connected and has a watcher, the reader accepts messages, and
  -- the name of the first line is registered.
  pub three_lines_connect :
      IsBackend b
      → (t : Thread b) (name email password : Bytes) → t.state ≡ state_registration
      → t.substate ≡ substate_reading_name
      → lookup t.connections (conn_of t).ip_addr ≡ some t.conn
      → validate_name name ≡ true
      → validate_email email ≡ true
      → validate_password password ≡ true
      → b.has_participant t.storage name ≡ false
      → (t' : Thread b) × (three_lines t name email password ≡ done t')
        × (is_connected (conn_of t').state ≡ true)
        × (t'.state ≡ state_accepting_messages)
        × (b.has_participant t'.storage name ≡ true)
        × ((conn_of t').is_watched ≡ true)
  three_lines_connect k t name email password e sub m n v p f =
      let (t1, first, a) = name_line t name e sub in
      let (t2, second, c) = email_line t1 email a.registers a.waits in
      let named : (conn_of t2).participant.username ≡ name = cc (c.field, a.field) in
      let mailed : (conn_of t2).participant.email ≡ email = cc (c.field) in
      let (t', third, connected, accepting, has, watched) =
        password_line rt k (with_line t2 password) c.registers c.waits
          (cc (
            a.same_connections, c.same_connections, a.same_address, c.same_address, a.same_conn,
            c.same_conn, m,
          ))
          (rw named n) p (rw mailed v) (cc (named, a.same_storage, c.same_storage, f)) in
      (
        t',
        rw (first, second) (ap (λ x. transition rt x (with_line t2 password)) c.registers ∙ third),
        connected,
        accepting,
        cc (named, has),
        watched,
      )
