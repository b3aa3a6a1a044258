-- ===== src/Session/Reader/Locality/Steps.antt =====
-- The handlers of the reader's states.
use mchat.Base.{ℕ, ◌≡◌, arith, Bytes, [], ◌∷◌, ==_refl, ==_iff}
use mchat.Runtime.{Runtime}
use mchat.Text.Atoi.{ℤ, atoi, NumError, success, err_syntax, err_range}
use mchat.Types.{Channel, build_chat_msg}
use mchat.Backend.Defs.{Backend, ChannelRef, own, stored}
use mchat.Backend.Contract.{KeepsNames}
use mchat.Session.State.{
  ReaderState, ReaderSubstate, state_null, state_joining, state_registration, state_authentication,
  state_accepting_messages, state_creating_channel, state_selecting_channel, state_processing_menu,
  state_disconnecting, substate_null, substate_reading_name, substate_reading_password,
  substate_reading_email_address, substate_reading_channel_desc, Thread, done,
}
use mchat.Session.Actions.{conn_of, write_channel}
use mchat.Session.Menu.{menu_option, report_option, on_joining_state}
use mchat.Session.Submission.{
  register_step, channel_step, validate, validate_channel, set_channel_desc, set_password,
  current_channel, on_register_participant_state, on_auth_participant_state,
  on_create_channel_state,
}
use mchat.Session.Chat.{
  show_channel, choose_channel, select_channel, on_select_channel_state, on_accept_messages_state,
}
use mchat.Session.Loop.{transition}
use mchat.Session.Reader.Invariant.{Inv}
use mchat.Session.Reader.Steps.{set_password-Inv, write_channel_same}
use mchat.Session.Reader.Locality.{Local, Local-trans}
use mchat.Session.Reader.Locality.Entering.{
  choose-Local, report_option-Local, set_password-Local, register_name-Local, register_email-Local,
  auth_name-Local, register_password-Local,
}

module _ (rt : Runtime) {b : Backend} (k : KeepsNames b) (q : ℕ) (u : Bytes) where
  joining-Local : (t t' : Thread b) → on_joining_state rt t ≡ done t' → Local q u t t'
  unfolding on_joining_state
  joining-Local t t' h =
      let (op, err) = atoi t.buffer in
      let reported = report_option rt err t in
      Local-trans q u t reported t' (report_option-Local rt q u err t)
        (report_option-Local rt q (conn_of t').participant.username err t)
        (choose-Local rt q u (menu_option op) reported t' (ground arith))

  register_step-Local :
      (sub : ReaderSubstate) (t t' : Thread b)
      → t.state ≡ state_registration
      → Inv t
      → register_step rt sub t ≡ done t'
      → Local q u t t'
  register_step-Local substate_reading_name t t' e v h = register_name-Local rt q u t t' e v h
  register_step-Local substate_reading_email_address t t' e v h =
      register_email-Local rt q u t t' e v h
  register_step-Local substate_reading_password t t' e v h =
      Local-trans q u t (set_password t) t' (set_password-Local rt q u t)
        (set_password-Local rt q (conn_of t').participant.username t)
        (register_password-Local rt q u (set_password t) t' k e (set_password-Inv t v)
          (unfold register_step validate in ground arith))
  register_step-Local substate_null t t' e v h = unfold register_step in ground arith
  register_step-Local substate_reading_channel_desc t t' e v h =
      unfold register_step in ground arith

  auth_step-Local :
      (t t' : Thread b)
      → t.state ≡ state_authentication
      → Inv t
      → on_auth_participant_state rt t ≡ done t'
      → Local q u t t'
  unfolding on_auth_participant_state
  auth_step-Local t t' e v h = auth_name-Local rt q u t t' e v (ground arith)

  write_channel-Local :
      (t : Thread b) (c : Channel) (ref : ChannelRef) → Local q u t (write_channel t c ref)
  unfolding write_channel
  write_channel-Local t c (own d) = ground (arith, ==_refl t.conn, ==_iff t.conn q)
  write_channel-Local t c (stored key) = ground (arith, k.has-save t.storage key c u)

  validate_channel-Local : (t t' : Thread b) → validate_channel rt t ≡ done t' → Local q u t t'
  unfolding validate_channel
  validate_channel-Local t t' h =
      ground (arith, k.has-register_channel t.storage t'.storage (current_channel t) u)

  channel_name-Local :
      (t t' : Thread b) → channel_step rt substate_reading_name t ≡ done t' → Local q u t t'
  unfolding channel_step
  channel_name-Local t t' h = ground (
    arith,
    write_channel-Local t (record (current_channel t) { name = t.buffer }) (conn_of t).channel,
  )

module _ (rt : Runtime) {b : Backend} (k : KeepsNames b) (q : ℕ) (u : Bytes) where
  channel_desc-Local :
      (t t' : Thread b)
      → t.state ≡ state_creating_channel
      → channel_step rt substate_reading_channel_desc t ≡ done t'
      → Local q u t t'
  unfolding channel_step validate
  channel_desc-Local t t' e h =
      let c = record (current_channel t) { desc = t.buffer } in
      let described = λ (n : Bytes). write_channel-Local rt k q n t c (conn_of t).channel in
      Local-trans q u t (set_channel_desc t) t' (described u)
        (described (conn_of t').participant.username)
        (validate_channel-Local rt k q u (set_channel_desc t) t'
          (ground (arith, write_channel_same k t c (conn_of t).channel)))

  channel_step-Local :
      (sub : ReaderSubstate) (t t' : Thread b)
      → t.state ≡ state_creating_channel
      → channel_step rt sub t ≡ done t'
      → Local q u t t'
  channel_step-Local substate_reading_name t t' e h = channel_name-Local rt k q u t t' h
  channel_step-Local substate_reading_channel_desc t t' e h = channel_desc-Local t t' e h
  channel_step-Local substate_reading_email_address t t' e h = unfold channel_step in ground arith
  channel_step-Local substate_reading_password t t' e h = unfold channel_step in ground arith
  channel_step-Local substate_null t t' e h = unfold channel_step in ground arith

  select_channel-Local :
      (t t' : Thread b) (id : ℤ × NumError) → select_channel rt t id ≡ done t' → Local q u t t'
  unfolding select_channel show_channel choose_channel
  select_channel-Local t t' (id, success) h = ground (arith, ==_refl t.conn, ==_iff t.conn q)
  select_channel-Local t t' (id, err_syntax) h = ground (arith, ==_refl t.conn, ==_iff t.conn q)
  select_channel-Local t t' (id, err_range) h = ground (arith, ==_refl t.conn, ==_iff t.conn q)

  accept-Local : (t t' : Thread b) → on_accept_messages_state rt t ≡ done t' → Local q u t t'
  unfolding on_accept_messages_state
  accept-Local t t' h =
      let msg =
        build_chat_msg t.buffer (conn_of t).participant.username ((current_channel t).name ∷ [])
          (rt.time_now_str t.readings) in
      ground (arith, k.has-store t.storage t'.storage msg u)

  pub transition-Local :
      (s : ReaderState) (t t' : Thread b)
      → t.state ≡ s
      → Inv t
      → transition rt s t ≡ done t'
      → Local q u t t'
  unfolding transition on_register_participant_state on_create_channel_state on_select_channel_state
  transition-Local state_joining t t' e v h = joining-Local rt k q u t t' h
  transition-Local state_processing_menu t t' e v h = joining-Local rt k q u t t' h
  transition-Local state_registration t t' e v h =
      register_step-Local rt k q u t.substate t t' e v (ground arith)
  transition-Local state_authentication t t' e v h = auth_step-Local rt k q u t t' e v h
  transition-Local state_creating_channel t t' e v h =
      channel_step-Local t.substate t t' e (ground arith)
  transition-Local state_selecting_channel t t' e v h =
      select_channel-Local t t' (atoi t.buffer) (ground arith)
  transition-Local state_accepting_messages t t' e v h = accept-Local t t' h
  transition-Local state_disconnecting t t' e v h = ground arith
  transition-Local state_null t t' e v h = ground arith
