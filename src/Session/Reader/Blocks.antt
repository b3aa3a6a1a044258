-- ===== src/Session/Reader/Blocks.antt =====
-- When a round of a connection's loop waits for ever.
use mchat.Base.{◌≡◌, ◌↔◌, ◌≢◌, ◌⊎◌, none, refl, Bool-cases, inl, inr, false, arith, Bytes}
use mchat.Runtime.{Runtime}
use mchat.Text.Atoi.{ℤ, atoi, NumError, success, err_syntax, err_range}
use mchat.Commands.{
  CommandType, command_null, command_display_menu, command_display_history, command_list_members,
  command_list_channels, command_list_commands, command_sentinel, parse_command,
}
use mchat.Backend.Defs.{Backend}
use mchat.Session.State.{
  ReaderState, ReaderSubstate, state_null, state_joining, state_registration, state_authentication,
  state_accepting_messages, state_creating_channel, state_selecting_channel, state_processing_menu,
  state_disconnecting, substate_null, substate_reading_name, substate_reading_password,
  substate_reading_email_address, substate_reading_channel_desc, Thread, Outcome, panics, blocks,
  ◌>>=◌, done,
}
use mchat.Session.Actions.{conn_of}
use mchat.Session.Menu.{
  MenuOption, op_register, op_authenticate, op_create_channel, op_select_channel, op_list_members,
  op_display_chat, op_exit, no_option, choose, menu_option, report_option, on_joining_state,
}
use mchat.Session.Submission.{
  register_step, auth_step, channel_step, validate, validate_participant, validate_registration,
  validate_authentication, validate_channel, set_password, set_channel_desc, enter_chat, admit,
  register, on_register_participant_state, on_auth_participant_state, on_create_channel_state,
}
use mchat.Session.Chat.{
  show_channel, choose_channel, select_channel, on_select_channel_state, on_accept_messages_state,
  on_disconnect_state,
}
use mchat.Session.Input.{
  ReadEvent, read, show_history, show_members, show_channels, run_command, run_parsed,
  process_command,
}
use mchat.Session.Loop.{transition, offer_options, handle_line, finish_round, round}
use mchat.Session.Reader.Panics.{process_command_same}

bind-eq-blocks {ℓ κ} :
    {A : Type ℓ} {B : Type κ} (m : Outcome A) (f : A → Outcome B)
    → (m >>= f) ≡ blocks
    → (m ≡ blocks) ⊎ ((a : A) × (m ≡ done a) × (f a ≡ blocks))
bind-eq-blocks (done a) f h = inr (a, refl, h)
bind-eq-blocks panics f h = ground arith
bind-eq-blocks blocks f h = inl refl

-- The line is a message, and nobody takes the signal to the watcher.
pub record Unwatched {b : Backend} (t : Thread b) : Type 0 where
  pub is_accepting : t.state ≡ state_accepting_messages
  pub is_parsed : (parse_command t.buffer).error ≡ none
  pub is_unmatched : (parse_command t.buffer).is_matched ≡ false
  pub is_unwatched : (conn_of t).is_watched ≡ false

module _ (rt : Runtime) {b : Backend} where
  choose_ends : (o : MenuOption) (t : Thread b) → choose rt o t ≢ blocks
  unfolding choose
  choose_ends op_register t h = ground arith
  choose_ends op_authenticate t h = ground arith
  choose_ends op_create_channel t h = ground arith
  choose_ends op_select_channel t h = ground arith
  choose_ends op_list_members t h = ground arith
  choose_ends op_exit t h = ground arith
  choose_ends op_display_chat t h = ground arith
  choose_ends no_option t h = ground arith

  joining_ends : (t : Thread b) → on_joining_state rt t ≢ blocks
  unfolding on_joining_state
  joining_ends t h =
      let (op, err) = atoi t.buffer in
      ground (arith, choose_ends (menu_option op) (report_option rt err t))

  enter_chat_ends : (t : Thread b) → enter_chat rt t ≢ blocks
  unfolding enter_chat
  enter_chat_ends t h = ground arith

  register_ends : (t : Thread b) → register rt t ≢ blocks
  unfolding register
  register_ends t h = ground arith

  entered_ends : (t : Thread b) → (register rt t >>= enter_chat rt) ≢ blocks
  entered_ends t h = elim (bind-eq-blocks (register rt t) (enter_chat rt) h) [
    | inl first ↦ register_ends t first
    | inr (r, registered, second) ↦ enter_chat_ends r second
  ]

  validate_ends : (t : Thread b) → validate rt t ≢ blocks
  unfolding validate validate_participant validate_registration validate_authentication
      validate_channel
  validate_ends t h = ground (arith, entered_ends t, enter_chat_ends (admit rt t))

  register_step_ends : (sub : ReaderSubstate) (t : Thread b) → register_step rt sub t ≢ blocks
  unfolding register_step
  register_step_ends substate_reading_name t h = ground arith
  register_step_ends substate_reading_email_address t h = ground arith
  register_step_ends substate_reading_password t h = validate_ends (set_password t) h
  register_step_ends substate_null t h = ground arith
  register_step_ends substate_reading_channel_desc t h = ground arith

  auth_step_ends : (sub : ReaderSubstate) (t : Thread b) → auth_step rt sub t ≢ blocks
  unfolding auth_step
  auth_step_ends substate_reading_name t h = ground arith
  auth_step_ends substate_reading_email_address t h = ground arith
  auth_step_ends substate_reading_password t h = validate_ends (set_password t) h
  auth_step_ends substate_null t h = ground arith
  auth_step_ends substate_reading_channel_desc t h = ground arith

  channel_step_ends : (sub : ReaderSubstate) (t : Thread b) → channel_step rt sub t ≢ blocks
  unfolding channel_step
  channel_step_ends substate_reading_name t h = ground arith
  channel_step_ends substate_reading_channel_desc t h = validate_ends (set_channel_desc t) h
  channel_step_ends substate_reading_email_address t h = ground arith
  channel_step_ends substate_reading_password t h = ground arith
  channel_step_ends substate_null t h = ground arith

  select_channel_ends : (t : Thread b) (id : ℤ × NumError) → select_channel rt t id ≢ blocks
  unfolding select_channel choose_channel show_channel
  select_channel_ends t (id, success) h = ground arith
  select_channel_ends t (id, err_syntax) h = ground arith
  select_channel_ends t (id, err_range) h = ground arith

  accept_blocks :
      (t : Thread b)
      → on_accept_messages_state rt t ≡ blocks
      → (t.state ≡ state_accepting_messages) × ((conn_of t).is_watched ≡ false)
  unfolding on_accept_messages_state
  accept_blocks t h = ground arith

  transition_blocks :
      (s : ReaderState) (t : Thread b)
      → transition rt s t ≡ blocks
      → (t.state ≡ state_accepting_messages) × ((conn_of t).is_watched ≡ false)
  unfolding transition on_register_participant_state on_auth_participant_state
      on_create_channel_state on_select_channel_state
  transition_blocks state_joining t h = absurd (joining_ends t h)
  transition_blocks state_processing_menu t h = absurd (joining_ends t h)
  transition_blocks state_registration t h = ground (arith, register_step_ends t.substate t)
  transition_blocks state_authentication t h = ground (arith, auth_step_ends t.substate t)
  transition_blocks state_creating_channel t h = ground (arith, channel_step_ends t.substate t)
  transition_blocks state_selecting_channel t h =
      ground (arith, select_channel_ends t (atoi t.buffer))
  transition_blocks state_accepting_messages t h = accept_blocks t h
  transition_blocks state_disconnecting t h = ground arith
  transition_blocks state_null t h = ground arith

  run_command_ends : (o : CommandType) (n : Bytes) (t : Thread b) → run_command rt o n t ≢ blocks
  unfolding run_command show_history show_members show_channels
  run_command_ends command_null n t h = ground arith
  run_command_ends command_display_menu n t h = ground arith
  run_command_ends command_display_history n t h = ground arith
  run_command_ends command_list_members n t h = ground arith
  run_command_ends command_list_channels n t h = ground arith
  run_command_ends command_list_commands n t h = ground arith
  run_command_ends command_sentinel n t h = ground arith

  process_command_ends : (t : Thread b) → process_command rt t ≢ blocks
  unfolding process_command run_parsed
  process_command_ends t h =
      let result = parse_command t.buffer in
      ground (arith, run_command_ends result.command_type result.channel t)

  -- Which of the reader's lines are left to the handlers of its states.
  unmatched :
      (t t1 : Thread b)
      → process_command rt t ≡ done (t1, false)
      → t.state ≡ state_accepting_messages
      → ((parse_command t.buffer).error ≡ none) × ((parse_command t.buffer).is_matched ≡ false)
  unfolding process_command run_parsed
  unmatched t t1 h e = ground arith

  handle_line_blocks : (t : Thread b) → handle_line rt t ≡ blocks → Unwatched t
  unfolding handle_line
  handle_line_blocks t h = elim (bind-eq-blocks (process_command rt t) _ h) [
    | inl first ↦ absurd (process_command_ends t first)
    | inr ((t1, r), processed, rest) ↦ elim (Bool-cases r) [
      | inl command ↦ ground (arith, rest, command)
      | inr line ↦
          let free : process_command rt t ≡ done (t1, false) = ground (arith, processed, line) in
          let stuck : transition rt t1.state t1 ≡ blocks = ground (arith, rest, line) in
          let same = process_command_same rt t t1 free in
          let (accepting, unwatched) = transition_blocks t1.state t1 stuck in
          let accepts = rw same at accepting in
          let (parsed, other) = unmatched t t1 free accepts in
          record {
            is_accepting = accepts;
            is_parsed = parsed;
            is_unmatched = other;
            is_unwatched = rw same at unwatched;
          }
    ]
  ]

  Unwatched-blocks : (t : Thread b) → Unwatched t → handle_line rt t ≡ blocks
  unfolding handle_line process_command run_parsed transition on_accept_messages_state
  Unwatched-blocks t u = ground (arith, u.is_accepting, u.is_parsed, u.is_unmatched, u.is_unwatched)

  finish_round_ends : (t : Thread b) → finish_round rt t ≢ blocks
  unfolding finish_round on_disconnect_state
  finish_round_ends t h = ground arith

  -- Over any storage, and as long as `processMessages` takes what is handed over to it and no other
  -- goroutine steps within the round: a round of a connection's loop waits for ever exactly if the
  -- reader accepts messages, the line is no command, and the connection has no watcher that would take
  -- the signal; every other round ends or panics.
  pub round_blocks :
      (t : Thread b) (e : ReadEvent)
      → (round rt t e ≡ blocks) ↔ Unwatched (read rt (offer_options rt t) e)
  unfolding round
  round_blocks t e =
      let heard = read rt (offer_options rt t) e in
      (
        λ h. elim (bind-eq-blocks (handle_line rt heard) (finish_round rt) h) [
          | inl first ↦ handle_line_blocks heard first
          | inr (t1, handled, finished) ↦ absurd (finish_round_ends t1 finished)
        ],
        λ u. rw (Unwatched-blocks heard u) refl,
      )
