-- ===== src/Session/Reader/Invariant.antt =====
-- What holds of a connection between two rounds of its loop.
use mchat.Base.{◌≡◌, ◌⊎◌, inl, inr, Bool, true, false, some, arith, equal_refl, ==_refl, Bool-cases}
use mchat.Dict.{lookup}
use mchat.Runtime.{Runtime}
use mchat.Validation.{validate_name, validate_email}
use mchat.Backend.Defs.{Backend}
use mchat.Backend.Contract.{KeepsNames}
use mchat.Session.State.{
  ReaderState, state_joining, state_registration, state_authentication, state_accepting_messages,
  state_processing_menu, is_connected, substate_reading_name, substate_reading_email_address,
  Thread, done, bind-eq-done,
}
use mchat.Session.Actions.{conn_of}
use mchat.Session.Menu.{
  MenuOption, op_register, op_authenticate, op_create_channel, op_select_channel, op_list_members,
  op_display_chat, op_exit, no_option, choose,
}
use mchat.Session.Submission.{
  register_step, auth_step, enter_chat, admit, register, validate_registration,
  validate_participant,
}

-- Before the authentication.
abbrev pub is_outside : ReaderState → Bool
is_outside state_joining = true
is_outside state_registration = true
is_outside state_authentication = true
is_outside _ = false

pub record Inv {b : Backend} (t : Thread b) : Type 0 where
  -- the connection stands in the map under its own address
  pub is_mapped : lookup t.connections (conn_of t).ip_addr ≡ some t.conn
  -- who is connected has been let in, once
  pub is_inside : is_connected (conn_of t).state ≡ true → is_outside t.state ≡ false
  -- a log in never gets to the password
  pub no_password : t.state ≡ state_authentication → t.substate ≡ substate_reading_name
  -- who is connected has a valid name, which is registered
  pub is_named :
      is_connected (conn_of t).state ≡ true → validate_name (conn_of t).participant.username ≡ true
  -- the watcher, which takes the signal of each message, runs for nobody else
  pub is_active : (conn_of t).is_watched ≡ true → is_connected (conn_of t).state ≡ true
  pub is_registered :
      is_connected (conn_of t).state ≡ true
      → b.has_participant t.storage (conn_of t).participant.username ≡ true

module _ (rt : Runtime) {b : Backend} where
  pub choose-Inv :
      (o : MenuOption) (t t' : Thread b)
      → (t.state ≡ state_joining) ⊎ (t.state ≡ state_processing_menu)
      → Inv t
      → choose rt o t ≡ done t'
      → Inv t'
  unfolding choose
  choose-Inv op_register t t' e v h = ground arith
  choose-Inv op_authenticate t t' e v h = ground arith
  choose-Inv op_create_channel t t' e v h = ground arith
  choose-Inv op_select_channel t t' e v h = ground arith
  choose-Inv op_list_members t t' e v h = ground arith
  choose-Inv op_exit t t' e v h = ground arith
  choose-Inv op_display_chat t t' e v h = ground arith
  choose-Inv no_option t t' e v h = ground arith

  pub register_name-Inv :
      (t t' : Thread b)
      → t.state ≡ state_registration
      → Inv t
      → register_step rt substate_reading_name t ≡ done t'
      → Inv t'
  unfolding register_step
  register_name-Inv t t' e v h = ground (arith, ==_refl t.conn)

  pub register_email-Inv :
      (t t' : Thread b)
      → t.state ≡ state_registration
      → Inv t
      → register_step rt substate_reading_email_address t ≡ done t'
      → Inv t'
  unfolding register_step
  register_email-Inv t t' e v h = ground (arith, ==_refl t.conn)

  pub auth_name-Inv :
      (t t' : Thread b)
      → t.state ≡ state_authentication
      → Inv t
      → auth_step rt substate_reading_name t ≡ done t'
      → Inv t'
  unfolding auth_step
  auth_name-Inv t t' e v h = ground (arith, ==_refl t.conn)

  -- The way into the chat, for a participant with a valid name that is registered.
  enter_chat-Inv :
      (t t' : Thread b)
      → lookup t.connections (conn_of t).ip_addr ≡ some t.conn
      → validate_name (conn_of t).participant.username ≡ true
      → b.has_participant t.storage (conn_of t).participant.username ≡ true
      → enter_chat rt t ≡ done t'
      → Inv t' × (t'.state ≡ state_accepting_messages)
  unfolding enter_chat
  enter_chat-Inv t t' m n r h = ground (arith, ==_refl t.conn)

  -- A registration changes the storage and, of the connection, what `admit` writes.
  pub register_cases :
      (t t' : Thread b)
      → KeepsNames b
      → register rt t ≡ done t'
      → (t'.reader ≡ t.reader)
        × (t'.connections ≡ t.connections)
        × ((conn_of t').ip_addr ≡ (conn_of t).ip_addr)
        × ((conn_of t').participant.username ≡ (conn_of t).participant.username)
        × (b.has_participant t'.storage (conn_of t).participant.username ≡ true)
  unfolding register
  register_cases t t' k h = ground (
    arith,
    ==_refl t.conn,
    equal_refl (conn_of t).participant.username,
    k.has-register t.storage t'.storage (conn_of (admit rt t)).participant
        (conn_of t).participant.username,
  )

  registered-Inv :
      (t r t' : Thread b)
      → KeepsNames b
      → Inv t
      → validate_name (conn_of t).participant.username ≡ true
      → register rt t ≡ done r
      → enter_chat rt r ≡ done t'
      → Inv t' × (t'.state ≡ state_accepting_messages)
  registered-Inv t r t' k v n registered entered =
      let cases = register_cases t r k registered in
      enter_chat-Inv r t' (ground (arith, cases)) (ground (arith, cases)) (ground (arith, cases))
        entered

  validate_registration-Inv :
      (t t' : Thread b)
      → KeepsNames b
      → Inv t
      → is_connected (conn_of t).state ≡ false
      → validate_name (conn_of t).participant.username ≡ true
      → validate_registration rt t ≡ done t'
      → Inv t'
  unfolding validate_registration
  validate_registration-Inv t t' k v c n h =
      let p = (conn_of t).participant in
      let chain = bind-eq-done (register rt t) (enter_chat rt) {c = t'} in
      elim (Bool-cases (validate_email p.email)) [
        | inr bad ↦ ground arith
        | inl good ↦ elim (Bool-cases (b.has_participant t.storage p.username)) [
          | inl taken ↦ ground arith
          | inr free ↦
              let (r, registered, entered) = chain (ground arith) in
              (registered-Inv t r t' k v n registered entered).0
        ]
      ]

  -- `validate` in the state of a registration, which is the only way into the chat.
  pub register_password-Inv :
      (t t' : Thread b)
      → KeepsNames b
      → t.state ≡ state_registration
      → Inv t
      → validate_participant rt t ≡ done t'
      → Inv t'
  unfolding validate_participant
  register_password-Inv t t' k e v h = ground (arith, validate_registration-Inv t t' k v)
