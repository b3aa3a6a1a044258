-- ===== src/Session/Reader/Rounds.antt =====
-- The rounds of a connection's loop keep its invariant.
use mchat.Base.{
  ◌≡◌, ◌≢◌, refl, sym, subst, inl, inr, Bool, true, false, List, [], ◌∷◌, arith, Bytes,
  if◌then◌else◌, ==_refl, Bool-cases,
}
use mchat.Runtime.{Runtime}
use mchat.Text.Atoi.{atoi}
use mchat.Commands.{
  CommandType, command_null, command_display_menu, command_display_history, command_list_members,
  command_list_channels, command_list_commands, command_sentinel, parse_command,
}
use mchat.Backend.Defs.{Backend}
use mchat.Backend.Contract.{KeepsNames}
use mchat.Session.State.{
  ReaderState, state_null, state_joining, state_registration, state_authentication,
  state_accepting_messages, state_creating_channel, state_selecting_channel, state_processing_menu,
  state_disconnecting, match_state, Thread, Outcome, done, panics, blocks, ◌>>=◌, bind-eq-done,
}
use mchat.Session.Submission.{on_register_participant_state, on_create_channel_state}
use mchat.Session.Chat.{on_select_channel_state, on_disconnect_state}
use mchat.Session.Input.{
  ReadEvent, read, show_history, show_members, show_channels, run_command, run_parsed,
  process_command,
}
use mchat.Session.Loop.{
  transition, offer_options, handle_line, finish_round, round, rounds, after_round,
}
use mchat.Session.Reader.Invariant.{Inv}
use mchat.Session.Reader.Steps.{
  joining-Inv, register_step-Inv, auth_step-Inv, channel_step-Inv, select_channel-Inv, accept-Inv,
}

module _ (rt : Runtime) {b : Backend} where
  pub offer_options-Inv : (t : Thread b) → Inv t → Inv (offer_options rt t)
  unfolding offer_options
  offer_options-Inv t v = ground arith

  pub read-Inv : (t : Thread b) (e : ReadEvent) → Inv t → Inv (read rt t e)
  unfolding read
  read-Inv t e v = ground (arith, ==_refl t.conn)

  run_command-Inv :
      (c : CommandType) (channel : Bytes) (t t' : Thread b)
      → Inv t
      → run_command rt c channel t ≡ done t'
      → Inv t'
  unfolding run_command show_history show_members show_channels
  run_command-Inv command_null channel t t' v h = ground arith
  run_command-Inv command_display_menu channel t t' v h = ground arith
  run_command-Inv command_display_history channel t t' v h = ground arith
  run_command-Inv command_list_members channel t t' v h = ground arith
  run_command-Inv command_list_channels channel t t' v h = ground arith
  run_command-Inv command_list_commands channel t t' v h = ground arith
  run_command-Inv command_sentinel channel t t' v h = ground arith

  pub process_command-Inv :
      (t t' : Thread b) (r : Bool) → Inv t → process_command rt t ≡ done (t', r) → Inv t'
  unfolding process_command run_parsed
  process_command-Inv t t' r v h =
      let result = parse_command t.buffer in
      ground (arith, run_command-Inv result.command_type result.channel t t' v)

module _ (rt : Runtime) {b : Backend} (k : KeepsNames b) where
  transition-Inv :
      (s : ReaderState) (t t' : Thread b)
      → t.state ≡ s
      → Inv t
      → transition rt s t ≡ done t'
      → Inv t'
  unfolding transition on_register_participant_state on_create_channel_state on_select_channel_state
  transition-Inv state_joining t t' e v h = joining-Inv rt k t t' (inl e) v h
  transition-Inv state_processing_menu t t' e v h = joining-Inv rt k t t' (inr e) v h
  transition-Inv state_registration t t' e v h =
      register_step-Inv rt k t.substate t t' e v (ground arith)
  transition-Inv state_authentication t t' e v h = auth_step-Inv rt k t t' e v h
  transition-Inv state_creating_channel t t' e v h =
      channel_step-Inv rt k t.substate t t' e v (ground arith)
  transition-Inv state_selecting_channel t t' e v h =
      select_channel-Inv rt k t t' (atoi t.buffer) e v (ground arith)
  transition-Inv state_accepting_messages t t' e v h = accept-Inv rt k t t' e v h
  transition-Inv state_disconnecting t t' e v h = ground arith
  transition-Inv state_null t t' e v h = ground arith

  -- The line is a command, or the handler of the state takes it.
  handled-Inv :
      (t1 t' : Thread b) (r : Bool)
      → Inv t1
      → (if r then done t1 else transition rt t1.state t1) ≡ done t'
      → Inv t'
  handled-Inv t1 t' true v h = ground arith
  handled-Inv t1 t' false v h = transition-Inv t1.state t1 t' refl v h

  pub handle_line-Inv : (t t' : Thread b) → Inv t → handle_line rt t ≡ done t' → Inv t'
  unfolding handle_line
  handle_line-Inv t t' v h =
      let ((t1, r), processed, rest) = bind-eq-done (process_command rt t) _ h in
      handled-Inv t1 t' r (process_command-Inv rt t t1 r v processed) rest

  leaves :
      (t' : Thread b) (m : Outcome (Thread b))
      → ◌>>=◌ {B = Thread b × Bool} m (λ gone. done (gone, true)) ≢ done (t', false)
  leaves t' (done gone) h = ground arith
  leaves t' panics h = ground arith
  leaves t' blocks h = ground arith

  -- Where the loop goes on, the end of the round changed nothing.
  pub finish_round_stays : (t t' : Thread b) → finish_round rt t ≡ done (t', false) → t' ≡ t
  unfolding finish_round
  finish_round_stays t t' h = elim (Bool-cases (match_state t.state state_disconnecting)) [
    | inl leaving ↦ ground (arith, leaves t' (on_disconnect_state rt t))
    | inr staying ↦ ground arith
  ]

  -- A round that does not leave the loop keeps the invariant of the connection.
  pub round-Inv :
      (t t' : Thread b) (e : ReadEvent) → Inv t → round rt t e ≡ done (t', false) → Inv t'
  unfolding round
  round-Inv t t' e v h =
      let before = read rt (offer_options rt t) e in
      let (t1, handled, finished) = bind-eq-done (handle_line rt before) (finish_round rt) h in
      let v1 =
        handle_line-Inv before t1 (read-Inv rt (offer_options rt t) e (offer_options-Inv rt t v))
          handled in
      subst Inv (sym (finish_round_stays t1 t' finished)) v1

  next-Inv :
      (t t' : Thread b) (e : ReadEvent) (again : Thread b → Outcome (Thread b × Bool))
      → ((t1 : Thread b) → Inv t1 → again t1 ≡ done (t', false) → Inv t')
      → (o : Outcome (Thread b × Bool)) → round rt t e ≡ o
      → Inv t
      → after_round rt again o ≡ done (t', false)
      → Inv t'
  next-Inv t t' e again later (done (t1, true)) first v h = ground arith
  next-Inv t t' e again later (done (t1, false)) first v h = later t1 (round-Inv t t1 e v first) h
  next-Inv t t' e again later panics first v h = ground arith
  next-Inv t t' e again later blocks first v h = ground arith

  pub rounds-Inv :
      (t t' : Thread b) (es : List ReadEvent) → Inv t → rounds rt t es ≡ done (t', false) → Inv t'
  unfolding rounds
  rounds-Inv t t' [] v h = ground arith
  rounds-Inv t t' (e ∷ es) v h =
      next-Inv t t' e (λ t1. rounds rt t1 es) (λ t1 v1. rounds-Inv t1 t' es v1) (round rt t e) refl
        v h
