-- ===== src/Session/Reader/Locality/Entering.antt =====
-- The menu, and the way of a participant into the chat.
use mchat.Base.{ℕ, ◌≡◌, ◌≢◌, inl, inr, true, some, false, arith, Bytes, ==_refl, ==_iff, Bool-cases}
use mchat.Dict.{lookup}
use mchat.Runtime.{Runtime}
use mchat.Text.Atoi.{NumError, success, err_syntax, err_range}
use mchat.Validation.{validate_email}
use mchat.Backend.Defs.{Backend}
use mchat.Backend.Contract.{KeepsNames}
use mchat.Session.State.{
  state_registration, state_authentication, substate_reading_name, substate_reading_email_address,
  Thread, done, bind-eq-done, is_connected,
}
use mchat.Session.Actions.{conn_of}
use mchat.Session.Menu.{
  MenuOption, op_register, op_authenticate, op_create_channel, op_select_channel, op_list_members,
  op_display_chat, op_exit, no_option, choose, report_option,
}
use mchat.Session.Submission.{
  register_step, auth_step, set_password, enter_chat, admit, register, validate_registration,
  validate_participant,
}
use mchat.Session.Reader.Invariant.{Inv, register_cases}
use mchat.Session.Reader.Locality.{Local}

module _ (rt : Runtime) {b : Backend} (q : ℕ) (u : Bytes) where
  pub choose-Local : (o : MenuOption) (t t' : Thread b) → choose rt o t ≡ done t' → Local q u t t'
  unfolding choose
  choose-Local op_register t t' h = ground arith
  choose-Local op_authenticate t t' h = ground arith
  choose-Local op_create_channel t t' h = ground arith
  choose-Local op_select_channel t t' h = ground arith
  choose-Local op_list_members t t' h = ground arith
  choose-Local op_exit t t' h = ground arith
  choose-Local op_display_chat t t' h = ground arith
  choose-Local no_option t t' h = ground arith

  pub report_option-Local : (e : NumError) (t : Thread b) → Local q u t (report_option rt e t)
  unfolding report_option
  report_option-Local success t = ground arith
  report_option-Local err_syntax t = ground arith
  report_option-Local err_range t = ground arith

  pub set_password-Local : (t : Thread b) → Local q u t (set_password t)
  set_password-Local t = ground (arith, ==_refl t.conn, ==_iff t.conn q)

  pub register_name-Local :
      (t t' : Thread b)
      → t.state ≡ state_registration
      → Inv t
      → register_step rt substate_reading_name t ≡ done t'
      → Local q u t t'
  unfolding register_step
  register_name-Local t t' e v h = ground (arith, ==_refl t.conn, ==_iff t.conn q)

  pub register_email-Local :
      (t t' : Thread b)
      → t.state ≡ state_registration
      → Inv t
      → register_step rt substate_reading_email_address t ≡ done t'
      → Local q u t t'
  unfolding register_step
  register_email-Local t t' e v h = ground (arith, ==_refl t.conn, ==_iff t.conn q)

  pub auth_name-Local :
      (t t' : Thread b)
      → t.state ≡ state_authentication
      → Inv t
      → auth_step rt substate_reading_name t ≡ done t'
      → Local q u t t'
  unfolding auth_step
  auth_name-Local t t' e v h = ground (arith, ==_refl t.conn, ==_iff t.conn q)

  -- What the two halves of a registration leave alone, the name of the own participant included.
  record Frame (t t' : Thread b) : Type 0 where
    same_conn : t'.conn ≡ t.conn
    same_address : (conn_of t').ip_addr ≡ (conn_of t).ip_addr
    same_connections : t'.connections ≡ t.connections
    same_other : q ≢ t.conn → t'.heap q ≡ t.heap q
    stays_known : b.has_participant t.storage u ≡ true → b.has_participant t'.storage u ≡ true
    same_name : (conn_of t').participant.username ≡ (conn_of t).participant.username

  enter_chat-Frame :
      (t t' : Thread b)
      → lookup t.connections (conn_of t).ip_addr ≡ some t.conn
      → enter_chat rt t ≡ done t'
      → Frame t t'
  unfolding enter_chat
  enter_chat-Frame t t' m h = ground (arith, ==_refl t.conn, ==_iff t.conn q)

  register-Frame : (t t' : Thread b) → KeepsNames b → register rt t ≡ done t' → Frame t t'
  unfolding register
  register-Frame t t' k h = ground (
    arith,
    ==_refl t.conn,
    ==_iff t.conn q,
    k.has-register t.storage t'.storage (conn_of (admit rt t)).participant u,
  )

  pub registered-Local :
      (t r t' : Thread b)
      → KeepsNames b
      → Inv t
      → is_connected (conn_of t).state ≡ false
      → b.has_participant t.storage (conn_of t).participant.username ≡ false
      → register rt t ≡ done r
      → enter_chat rt r ≡ done t'
      → Local q u t t'
  registered-Local t r t' k v c free registered entered =
      let cases = register_cases rt t r k registered in
      let first = register-Frame t r k registered in
      let second = enter_chat-Frame r t' (ground (arith, cases)) entered in
      ground (arith, first, second)

  pub validate_registration-Local :
      (t t' : Thread b)
      → KeepsNames b
      → Inv t
      → is_connected (conn_of t).state ≡ false
      → validate_registration rt t ≡ done t'
      → Local q u t t'
  unfolding validate_registration
  validate_registration-Local t t' k v c h =
      let p = (conn_of t).participant in
      let chain = bind-eq-done (register rt t) (enter_chat rt) {c = t'} in
      elim (Bool-cases (validate_email p.email)) [
        | inr bad ↦ ground arith
        | inl good ↦ elim (Bool-cases (b.has_participant t.storage p.username)) [
          | inl taken ↦ ground arith
          | inr free ↦
              let (r, registered, entered) = chain (ground arith) in
              registered-Local t r t' k v c free registered entered
        ]
      ]

  pub register_password-Local :
      (t t' : Thread b)
      → KeepsNames b
      → t.state ≡ state_registration
      → Inv t
      → validate_participant rt t ≡ done t'
      → Local q u t t'
  unfolding validate_participant
  register_password-Local t t' k e v h = ground (arith, validate_registration-Local t t' k v)
