-- ===== src/Session/Reader/Log/Rounds.antt =====
-- A round of a connection's loop.
use mathlib.Core.List.{append_assoc}
use mchat.Base.{
  ◌≡◌, refl, ◌⊎◌, Bool, Bool-cases, inl, inr, true, false, List, [], ◌∷◌, arith, Bytes,
  if◌then◌else◌,
}
use mchat.Runtime.{Runtime}
use mchat.Text.Atoi.{ℤ, atoi, NumError, success, err_syntax, err_range}
use mchat.Commands.{
  CommandType, command_null, command_display_menu, command_display_history, command_list_members,
  command_list_channels, command_list_commands, command_sentinel, parse_command,
}
use mchat.Types.{ChatMessage, Channel, build_chat_msg}
use mchat.Backend.Defs.{Backend, ChannelRef, own, stored}
use mchat.Backend.Contract.{KeepsHistory}
use mchat.Session.State.{
  ReaderState, ReaderSubstate, state_null, state_joining, state_registration, state_authentication,
  state_accepting_messages, state_creating_channel, state_selecting_channel, state_processing_menu,
  state_disconnecting, substate_null, substate_reading_name, substate_reading_password,
  substate_reading_email_address, substate_reading_channel_desc, Thread, done, bind-eq-done,
}
use mchat.Session.Actions.{conn_of, write_channel}
use mchat.Session.Submission.{
  register_step, auth_step, channel_step, set_password, set_channel_desc, current_channel,
  on_register_participant_state, on_auth_participant_state, on_create_channel_state,
}
use mchat.Session.Chat.{
  show_channel, choose_channel, select_channel, on_select_channel_state, on_accept_messages_state,
  on_disconnect_state,
}
use mchat.Session.Input.{
  ReadEvent, read, show_history, show_members, show_channels, run_command, run_parsed,
  process_command,
}
use mchat.Session.Loop.{transition, offer_options, handle_line, finish_round, round}
use mchat.Session.Reader.Log.{chat_log, IsLogged, Quiet, Quiet-trans, joining-Quiet, validate-Quiet}

module _ (rt : Runtime) {b : Backend} (k : KeepsHistory b) where
  write_channel-Quiet :
      (t : Thread b) (c : Channel) (ref : ChannelRef) → Quiet t (write_channel t c ref)
  unfolding write_channel
  write_channel-Quiet t c (own d) = ground arith
  write_channel-Quiet t c (stored key) = ground (arith, k.general-save t.storage key c)

  register_step-Quiet :
      (sub : ReaderSubstate) (t t' : Thread b) → register_step rt sub t ≡ done t' → Quiet t t'
  unfolding register_step chat_log
  register_step-Quiet substate_reading_name t t' h = ground arith
  register_step-Quiet substate_reading_email_address t t' h = ground arith
  register_step-Quiet substate_reading_password t t' h =
      ground (arith, validate-Quiet rt k (set_password t) t' h)
  register_step-Quiet substate_null t t' h = ground arith
  register_step-Quiet substate_reading_channel_desc t t' h = ground arith

  auth_step-Quiet :
      (sub : ReaderSubstate) (t t' : Thread b) → auth_step rt sub t ≡ done t' → Quiet t t'
  unfolding auth_step chat_log
  auth_step-Quiet substate_reading_name t t' h = ground arith
  auth_step-Quiet substate_reading_email_address t t' h = ground arith
  auth_step-Quiet substate_reading_password t t' h =
      ground (arith, validate-Quiet rt k (set_password t) t' h)
  auth_step-Quiet substate_null t t' h = ground arith
  auth_step-Quiet substate_reading_channel_desc t t' h = ground arith

  channel_step-Quiet :
      (sub : ReaderSubstate) (t t' : Thread b) → channel_step rt sub t ≡ done t' → Quiet t t'
  unfolding channel_step chat_log
  channel_step-Quiet substate_reading_name t t' h = ground (
    arith,
    write_channel-Quiet t (record (current_channel t) { name = t.buffer }) (conn_of t).channel,
  )
  channel_step-Quiet substate_reading_channel_desc t t' h =
      let described = record (current_channel t) { desc = t.buffer } in
      Quiet-trans t (set_channel_desc t) t' (write_channel-Quiet t described (conn_of t).channel)
        (validate-Quiet rt k (set_channel_desc t) t' h)
  channel_step-Quiet substate_reading_email_address t t' h = ground arith
  channel_step-Quiet substate_reading_password t t' h = ground arith
  channel_step-Quiet substate_null t t' h = ground arith

  select_channel-Quiet :
      (t t' : Thread b) (id : ℤ × NumError) → select_channel rt t id ≡ done t' → Quiet t t'
  unfolding select_channel show_channel choose_channel chat_log
  select_channel-Quiet t t' (id, success) h = ground arith
  select_channel-Quiet t t' (id, err_syntax) h = ground arith
  select_channel-Quiet t t' (id, err_range) h = ground arith

  run_command-Quiet :
      (c : CommandType) (channel : Bytes) (t t' : Thread b)
      → run_command rt c channel t ≡ done t'
      → Quiet t t'
  unfolding run_command show_history show_members show_channels chat_log
  run_command-Quiet command_null channel t t' h = ground arith
  run_command-Quiet command_display_menu channel t t' h = ground arith
  run_command-Quiet command_display_history channel t t' h = ground arith
  run_command-Quiet command_list_members channel t t' h = ground arith
  run_command-Quiet command_list_channels channel t t' h = ground arith
  run_command-Quiet command_list_commands channel t t' h = ground arith
  run_command-Quiet command_sentinel channel t t' h = ground arith

  pub process_command-Quiet :
      (t t' : Thread b) (r : Bool) → process_command rt t ≡ done (t', r) → Quiet t t'
  unfolding process_command run_parsed chat_log
  process_command-Quiet t t' r h =
      let result = parse_command t.buffer in
      ground (arith, run_command-Quiet result.command_type result.channel t t')

  pub heard-Quiet : (t : Thread b) (e : ReadEvent) → Quiet t (read rt (offer_options rt t) e)
  unfolding read offer_options chat_log
  heard-Quiet t e = ground arith

  pub finish_round-Quiet :
      (t t' : Thread b) (left : Bool) → finish_round rt t ≡ done (t', left) → Quiet t t'
  unfolding finish_round on_disconnect_state chat_log
  finish_round-Quiet t t' left h = ground arith

  Quiet-IsLogged :
      (old : List ChatMessage) (t t' : Thread b)
      → Quiet t t'
      → IsLogged old t.world
      → IsLogged old t'.world
  Quiet-IsLogged old t t' quiet logged = cc (quiet.same_log, quiet.same_history, logged)

  accept-IsLogged :
      (old : List ChatMessage) (t t' : Thread b)
      → on_accept_messages_state rt t ≡ done t'
      → IsLogged old t.world
      → IsLogged old t'.world
  unfolding on_accept_messages_state chat_log
  accept-IsLogged old t t' h logged =
      let msg =
        build_chat_msg t.buffer (conn_of t).participant.username ((current_channel t).name ∷ [])
          (rt.time_now_str t.readings) in
      ground (
        arith,
        k.general-store t.storage t'.storage msg (unfold build_chat_msg in refl),
        append_assoc old (chat_log t.sent) (msg ∷ []),
      )

  -- Each handler but that of a message is quiet.
  transition_cases :
      (s : ReaderState) (t t' : Thread b)
      → transition rt s t ≡ done t'
      → Quiet t t' ⊎ (on_accept_messages_state rt t ≡ done t')
  unfolding transition on_register_participant_state on_auth_participant_state
      on_create_channel_state on_select_channel_state
  transition_cases state_joining t t' h = inl (joining-Quiet rt k t t' h)
  transition_cases state_processing_menu t t' h = inl (joining-Quiet rt k t t' h)
  transition_cases state_registration t t' h =
      inl (register_step-Quiet t.substate t t' (ground arith))
  transition_cases state_authentication t t' h =
      inl (auth_step-Quiet t.substate t t' (ground arith))
  transition_cases state_creating_channel t t' h =
      inl (channel_step-Quiet t.substate t t' (ground arith))
  transition_cases state_selecting_channel t t' h =
      inl (select_channel-Quiet t t' (atoi t.buffer) (ground arith))
  transition_cases state_accepting_messages t t' h = inr h
  transition_cases state_disconnecting t t' h = inl (ground arith)
  transition_cases state_null t t' h = inl (ground arith)

  handled_cases :
      (r : Bool) (t t' : Thread b)
      → (if r then done t else transition rt t.state t) ≡ done t'
      → Quiet t t' ⊎ (on_accept_messages_state rt t ≡ done t')
  handled_cases true t t' h = inl (ground arith)
  handled_cases false t t' h = transition_cases t.state t t' h

  -- The line is a message, or its handling is quiet.
  pub handle_line_cases :
      (t t' : Thread b)
      → handle_line rt t ≡ done t'
      → Quiet t t'
        ⊎ ((t1 : Thread b) × (r : Bool) × (process_command rt t ≡ done (t1, r))
            × Quiet t t1
            × (on_accept_messages_state rt t1 ≡ done t'))
  unfolding handle_line
  handle_line_cases t t' h =
      let ((t1, r), processed, rest) = bind-eq-done (process_command rt t) _ h in
      let first = process_command-Quiet t t1 r processed in
      elim (Bool-cases r) [
        | inl command ↦ inl (ground (arith, rest, command, first))
        | inr line ↦ elim (handled_cases r t1 t' rest) [
          | inl second ↦ inl (Quiet-trans t t1 t' first second)
          | inr accepted ↦ inr (t1, r, processed, first, accepted)
        ]
      ]

  handle_line-IsLogged :
      (old : List ChatMessage) (t t' : Thread b)
      → handle_line rt t ≡ done t'
      → IsLogged old t.world
      → IsLogged old t'.world
  handle_line-IsLogged old t t' h logged = elim (handle_line_cases t t' h) [
    | inl quiet ↦ Quiet-IsLogged old t t' quiet logged
    | inr (t1, r, processed, first, accepted) ↦
        accept-IsLogged old t1 t' accepted (Quiet-IsLogged old t t1 first logged)
  ]

  pub round-IsLogged :
      (old : List ChatMessage) (t t' : Thread b) (e : ReadEvent) (left : Bool)
      → round rt t e ≡ done (t', left)
      → IsLogged old t.world
      → IsLogged old t'.world
  unfolding round
  round-IsLogged old t t' e left h logged =
      let heard = read rt (offer_options rt t) e in
      let (t1, handled, finished) = bind-eq-done (handle_line rt heard) (finish_round rt) h in
      let first = Quiet-IsLogged old t heard (heard-Quiet t e) logged in
      let second = handle_line-IsLogged old heard t1 handled first in
      Quiet-IsLogged old t1 t' (finish_round-Quiet t1 t' left finished) second
