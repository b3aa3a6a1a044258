-- ===== src/Session/Reader/Authentication.antt =====
-- Who gets into the chat: the loop of pkg/session/session.go from its start, and the end of a
-- registration.
use mchat.Base.{◌≡◌, ◌∙◌, refl, ap, true, false, List, some, arith, ==_refl}
use mchat.Dict.{lookup}
use mchat.Runtime.{Runtime}
use mchat.Validation.{validate_name, validate_password, validate_email}
use mchat.Backend.Defs.{Backend}
use mchat.Backend.Contract.{KeepsNames, IsBackend}
use mchat.Session.State.{
  state_joining, state_registration, state_authentication, state_accepting_messages, is_connected,
  substate_reading_name, substate_reading_password, Thread, done, done_of,
}
use mchat.Session.Actions.{conn_of, display_chat_history}
use mchat.Session.ConnectionMap.{mark_as_connected}
use mchat.Session.Submission.{
  set_password, admit, register, mark_connected, enter_chat, validate_registration,
  validate_participant, validate, register_step, on_register_participant_state,
}
use mchat.Session.Input.{ReadEvent}
use mchat.Session.Loop.{rounds, transition}
use mchat.Session.Reader.Invariant.{Inv, is_outside, register_cases}
use mchat.Session.Reader.Rounds.{rounds-Inv}

-- A connection at the start of its loop.
pub record IsFresh {b : Backend} (t : Thread b) : Type 0 where
  pub is_mapped : lookup t.connections (conn_of t).ip_addr ≡ some t.conn
  pub is_pending : is_connected (conn_of t).state ≡ false
  pub is_unwatched : (conn_of t).is_watched ≡ false
  pub is_joining : t.state ≡ state_joining

module _ (rt : Runtime) {b : Backend} (k : KeepsNames b) where
  fresh-Inv : (t : Thread b) → IsFresh t → Inv t
  fresh-Inv t f = record {
    is_mapped = f.is_mapped;
    is_inside = ground arith;
    no_password = ground arith;
    is_named = ground arith;
    is_active = ground (arith, f.is_unwatched);
    is_registered = ground arith;
  }

  -- Over any storage that keeps its participants, and after any reads that do not leave the loop of a
  -- fresh connection: if it is marked as connected, then the name of its participant is valid and
  -- registered, and its reader is past the menu of the start, registration and log in.
  pub rounds_connected :
      (t t' : Thread b) (es : List ReadEvent)
      → IsFresh t
      → rounds rt t es ≡ done (t', false)
      → is_connected (conn_of t').state ≡ true
      → (validate_name (conn_of t').participant.username ≡ true)
        × (b.has_participant t'.storage (conn_of t').participant.username ≡ true)
        × (is_outside t'.state ≡ false)
  rounds_connected t t' es f h c =
      let v = rounds-Inv rt k t t' es (fresh-Inv t f) h in
      (v.is_named c, v.is_registered c, v.is_inside c)

  -- Over any storage that keeps its participants, and after any reads that do not leave the loop of a
  -- fresh connection: a reader in the state of a log in waits for the name, so that it never waits
  -- for the password, and the connection is not connected.
  pub rounds_log_in :
      (t t' : Thread b) (es : List ReadEvent)
      → IsFresh t
      → rounds rt t es ≡ done (t', false)
      → t'.state ≡ state_authentication
      → (t'.substate ≡ substate_reading_name) × (is_connected (conn_of t').state ≡ false)
  rounds_log_in t t' es f h a =
      let v = rounds-Inv rt k t t' es (fresh-Inv t f) h in
      (v.no_password a, ground (arith, v.is_inside))

module _ (rt : Runtime) {b : Backend} (k : IsBackend b) where
  enter_chat_total :
      (t : Thread b)
      → lookup t.connections (conn_of t).ip_addr ≡ some t.conn
      → (t' : Thread b) × (enter_chat rt t ≡ done t')
        × (is_connected (conn_of t').state ≡ true)
        × (t'.state ≡ state_accepting_messages)
        × (t'.storage ≡ t.storage)
        × ((conn_of t').is_watched ≡ (conn_of t).is_watched)
  unfolding enter_chat display_chat_history mark_connected mark_as_connected
  enter_chat_total t m =
      let (history, found, other) = k.general_history t.storage in
      let (t', entered) = done_of (enter_chat rt t) (ground arith) (ground arith) in
      (
        t',
        entered,
        ground (arith, ==_refl t.conn),
        ground arith,
        ground arith,
        ground (arith, ==_refl t.conn),
      )

  register_total :
      (t : Thread b)
      → b.has_participant t.storage (conn_of t).participant.username ≡ false
      → (r : Thread b) × (register rt t ≡ done r) × ((conn_of r).is_watched ≡ true)
  unfolding register admit
  register_total t n =
      let (s, stored) =
        k.register_fresh t.storage (conn_of (admit rt t)).participant
          (ground (arith, ==_refl t.conn)) in
      let (r, ends) =
        done_of (register rt t) (ground (arith, ==_refl t.conn)) (ground (arith, ==_refl t.conn)) in
      (r, ends, ground (arith, ==_refl t.conn))

  registration_enters :
      (t r t' : Thread b)
      → validate_email (conn_of t).participant.email ≡ true
      → b.has_participant t.storage (conn_of t).participant.username ≡ false
      → register rt t ≡ done r
      → enter_chat rt r ≡ done t'
      → validate_registration rt t ≡ done t'
  unfolding validate_registration
  registration_enters t r t' e n registered entered = rw (e, n, registered, entered) refl

  registration_total :
      (t : Thread b)
      → lookup t.connections (conn_of t).ip_addr ≡ some t.conn
      → validate_email (conn_of t).participant.email ≡ true
      → b.has_participant t.storage (conn_of t).participant.username ≡ false
      → (t' : Thread b) × (validate_registration rt t ≡ done t')
        × (is_connected (conn_of t').state ≡ true)
        × (t'.state ≡ state_accepting_messages)
        × (b.has_participant t'.storage (conn_of t).participant.username ≡ true)
        × ((conn_of t').is_watched ≡ true)
  registration_total t m e n =
      let (r, registered, watched) = register_total t n in
      let (reader, connections, ip, name, has) = register_cases rt t r k.keeps_names registered in
      let (t', entered, inside, accepting, kept, same) =
        enter_chat_total r (rw (connections, ip, ap (λ x. x.conn) reader) m) in
      (
        t',
        registration_enters t r t' e n registered entered,
        inside,
        accepting,
        rw (kept) has,
        same ∙ watched,
      )

  -- The last line of a registration.
  pub password_line :
      (t : Thread b)
      → t.state ≡ state_registration
      → t.substate ≡ substate_reading_password
      → lookup t.connections (conn_of t).ip_addr ≡ some t.conn
      → validate_name (conn_of t).participant.username ≡ true
      → validate_password t.buffer ≡ true
      → validate_email (conn_of t).participant.email ≡ true
      → b.has_participant t.storage (conn_of t).participant.username ≡ false
      → (t' : Thread b) × (transition rt state_registration t ≡ done t')
        × (is_connected (conn_of t').state ≡ true)
        × (t'.state ≡ state_accepting_messages)
        × (b.has_participant t'.storage (conn_of t).participant.username ≡ true)
        × ((conn_of t').is_watched ≡ true)
  unfolding transition on_register_participant_state register_step validate validate_participant
  password_line t e sub m n p v f =
      let before = set_password t in
      let (t', ends, inside, accepting, has, watched) =
        registration_total before (ground (arith, ==_refl t.conn)) (ground (arith, ==_refl t.conn))
          (ground (arith, ==_refl t.conn)) in
      (
        t',
        ground (arith, ==_refl t.conn),
        inside,
        accepting,
        ground (arith, ==_refl t.conn),
        watched,
      )
