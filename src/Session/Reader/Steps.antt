-- ===== src/Session/Reader/Steps.antt =====
-- Each procedure of the reader keeps the invariant of a connection.
use mchat.Base.{◌≡◌, ◌⊎◌, refl, false, [], ◌∷◌, arith, ==_refl}
use mchat.Runtime.{Runtime}
use mchat.Text.Atoi.{ℤ, atoi, NumError, success, err_syntax, err_range}
use mchat.Types.{Channel, build_chat_msg}
use mchat.Backend.Defs.{Backend, ChannelRef, own, stored}
use mchat.Backend.Contract.{KeepsNames}
use mchat.Session.State.{
  ReaderSubstate, state_joining, state_registration, state_authentication, state_accepting_messages,
  state_creating_channel, state_selecting_channel, state_processing_menu, substate_null,
  substate_reading_name, substate_reading_password, substate_reading_email_address,
  substate_reading_channel_desc, Thread, done,
}
use mchat.Session.Actions.{conn_of, write_channel}
use mchat.Session.Menu.{menu_option, report_option, on_joining_state}
use mchat.Session.Submission.{
  register_step, channel_step, validate, validate_channel, set_channel_desc, set_password,
  current_channel, on_auth_participant_state,
}
use mchat.Session.Chat.{show_channel, choose_channel, select_channel, on_accept_messages_state}
use mchat.Session.Reader.Invariant.{
  Inv, is_outside, choose-Inv, register_name-Inv, register_email-Inv, auth_name-Inv,
  register_password-Inv,
}

-- Between the threads lie only messages and what is done to channels.
pub record SameConnection {b : Backend} (t t' : Thread b) : Type 0 where
  pub same_conn : t'.conn ≡ t.conn
  pub same_state : t'.state ≡ t.state
  pub same_substate : t'.substate ≡ t.substate
  pub same_connections : t'.connections ≡ t.connections
  pub same_address : (conn_of t').ip_addr ≡ (conn_of t).ip_addr
  pub same_name : (conn_of t').participant.username ≡ (conn_of t).participant.username
  pub same_conn_state : (conn_of t').state ≡ (conn_of t).state
  pub same_watched : (conn_of t').is_watched ≡ (conn_of t).is_watched
  pub same_known :
      b.has_participant t'.storage (conn_of t).participant.username
      ≡ b.has_participant t.storage (conn_of t).participant.username

module _ {b : Backend} (k : KeepsNames b) where
  pub write_channel_same :
      (t : Thread b) (c : Channel) (ref : ChannelRef) → SameConnection t (write_channel t c ref)
  unfolding write_channel
  write_channel_same t c (own d) = ground (arith, ==_refl t.conn)
  write_channel_same t c (stored key) =
      ground (arith, k.has-save t.storage key c (conn_of t).participant.username)

  -- A thread that is inside stays so in any other state inside.
  same-Inv : (t t' : Thread b) → SameConnection t t' → is_outside t.state ≡ false → Inv t → Inv t'
  same-Inv t t' same o v = ground arith

pub set_password-Inv : {b : Backend} (t : Thread b) → Inv t → Inv (set_password t)
set_password-Inv t v = ground (arith, ==_refl t.conn)

report_option-Inv :
    (rt : Runtime) {b : Backend} (e : NumError) (t : Thread b)
    → Inv t
    → Inv (report_option rt e t) × ((report_option rt e t).state ≡ t.state)
unfolding report_option
report_option-Inv rt success t v = (v, refl)
report_option-Inv rt err_syntax t v = ground arith
report_option-Inv rt err_range t v = ground arith

module _ (rt : Runtime) {b : Backend} (k : KeepsNames b) where
  pub joining-Inv :
      (t t' : Thread b)
      → (t.state ≡ state_joining) ⊎ (t.state ≡ state_processing_menu)
      → Inv t
      → on_joining_state rt t ≡ done t'
      → Inv t'
  unfolding on_joining_state
  joining-Inv t t' e v h =
      let (op, err) = atoi t.buffer in
      let (reported, same) = report_option-Inv rt err t v in
      choose-Inv rt (menu_option op) (report_option rt err t) t' (rw same e) reported (ground arith)

  pub register_step-Inv :
      (sub : ReaderSubstate) (t t' : Thread b)
      → t.state ≡ state_registration
      → Inv t
      → register_step rt sub t ≡ done t'
      → Inv t'
  register_step-Inv substate_reading_name t t' e v h = register_name-Inv rt t t' e v h
  register_step-Inv substate_reading_email_address t t' e v h = register_email-Inv rt t t' e v h
  register_step-Inv substate_reading_password t t' e v h =
      register_password-Inv rt (set_password t) t' k e (set_password-Inv t v)
        (unfold register_step validate in ground arith)
  register_step-Inv substate_null t t' e v h = unfold register_step in ground arith
  register_step-Inv substate_reading_channel_desc t t' e v h = unfold register_step in ground arith

  pub auth_step-Inv :
      (t t' : Thread b)
      → t.state ≡ state_authentication
      → Inv t
      → on_auth_participant_state rt t ≡ done t'
      → Inv t'
  unfolding on_auth_participant_state
  auth_step-Inv t t' e v h = auth_name-Inv rt t t' e v (ground arith)

  channel_name-Inv :
      (t t' : Thread b)
      → t.state ≡ state_creating_channel
      → Inv t
      → channel_step rt substate_reading_name t ≡ done t'
      → Inv t'
  unfolding channel_step
  channel_name-Inv t t' e v h = ground (
    arith,
    write_channel_same k t (record (current_channel t) { name = t.buffer }) (conn_of t).channel,
  )

  validate_channel-Inv :
      (t t' : Thread b)
      → t.state ≡ state_creating_channel
      → Inv t
      → validate_channel rt t ≡ done t'
      → Inv t'
  unfolding validate_channel
  validate_channel-Inv t t' e v h = ground (
    arith,
    k.has-register_channel t.storage t'.storage (current_channel t)
        (conn_of t).participant.username,
  )

  channel_desc-Inv :
      (t t' : Thread b)
      → t.state ≡ state_creating_channel
      → Inv t
      → channel_step rt substate_reading_channel_desc t ≡ done t'
      → Inv t'
  unfolding channel_step validate
  channel_desc-Inv t t' e v h =
      let c = record (current_channel t) { desc = t.buffer } in
      let same = write_channel_same k t c (conn_of t).channel in
      let kept = same-Inv k t (set_channel_desc t) same (ground arith) v in
      validate_channel-Inv (set_channel_desc t) t' (ground (arith, same)) kept
        (ground (arith, same))

  pub channel_step-Inv :
      (sub : ReaderSubstate) (t t' : Thread b)
      → t.state ≡ state_creating_channel
      → Inv t
      → channel_step rt sub t ≡ done t'
      → Inv t'
  channel_step-Inv substate_reading_name t t' e v h = channel_name-Inv t t' e v h
  channel_step-Inv substate_reading_channel_desc t t' e v h = channel_desc-Inv t t' e v h
  channel_step-Inv substate_reading_email_address t t' e v h = unfold channel_step in ground arith
  channel_step-Inv substate_reading_password t t' e v h = unfold channel_step in ground arith
  channel_step-Inv substate_null t t' e v h = unfold channel_step in ground arith

  pub select_channel-Inv :
      (t t' : Thread b) (id : ℤ × NumError)
      → t.state ≡ state_selecting_channel
      → Inv t
      → select_channel rt t id ≡ done t'
      → Inv t'
  unfolding select_channel show_channel choose_channel
  select_channel-Inv t t' (id, success) e v h = ground (arith, ==_refl t.conn)
  select_channel-Inv t t' (id, err_syntax) e v h = ground (arith, ==_refl t.conn)
  select_channel-Inv t t' (id, err_range) e v h = ground (arith, ==_refl t.conn)

  pub accept-Inv :
      (t t' : Thread b)
      → t.state ≡ state_accepting_messages
      → Inv t
      → on_accept_messages_state rt t ≡ done t'
      → Inv t'
  unfolding on_accept_messages_state
  accept-Inv t t' e v h =
      let msg =
        build_chat_msg t.buffer (conn_of t).participant.username ((current_channel t).name ∷ [])
          (rt.time_now_str t.readings) in
      ground (arith, k.has-store t.storage t'.storage msg (conn_of t).participant.username)
