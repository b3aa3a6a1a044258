-- ===== src/Session/Loop.antt =====
-- `handleConnection` of pkg/session/session.go: the loop of a connection's goroutine.
use mchat.Base.{ℕ, Bool, true, false, ◌||◌, List, [], ◌∷◌, if◌then◌else◌}
use mchat.Runtime.{Runtime}
use mchat.Backend.Defs.{Backend}
use mchat.Session.State.{
  Reader, ReaderState, state_null, state_joining, state_registration, state_authentication,
  state_accepting_messages, state_creating_channel, state_selecting_channel, state_processing_menu,
  state_disconnecting, match_state, substate_null, Thread, Outcome, done, panics, blocks, ◌>>=◌,
}
use mchat.Session.Actions.{reply}
use mchat.Session.Chat.{on_select_channel_state, on_accept_messages_state, on_disconnect_state}
use mchat.Session.Input.{ReadEvent, read, process_command}
use mchat.Session.Menu.{on_joining_state}
use mchat.Session.Submission.{
  on_register_participant_state, on_auth_participant_state, on_create_channel_state,
}
use mchat.Session.Texts.{options_str}

-- `newReader`, with an empty buffer until the first read
abbrev pub new_reader : ℕ → Reader
new_reader p = record { conn = p; state = state_joining; substate = substate_null; buffer = [] }

module _ (rt : Runtime) {b : Backend} where
  -- the switch over `transitionTable`, which has no case for the other two states
  unfoldable pub transition : ReaderState → Thread b → Outcome (Thread b)
  transition state_joining t = on_joining_state rt t
  transition state_processing_menu t = on_joining_state rt t
  transition state_registration t = on_register_participant_state rt t
  transition state_authentication t = on_auth_participant_state rt t
  transition state_creating_channel t = on_create_channel_state rt t
  transition state_selecting_channel t = on_select_channel_state rt t
  transition state_accepting_messages t = on_accept_messages_state rt t
  transition state_disconnecting t = done t
  transition state_null t = done t

  -- the options, which are sent before each read of a menu
  unfoldable pub offer_options : Thread b → Thread b
  unfolding match_state reply
  offer_options t =
      if match_state t.state state_joining || match_state t.state state_processing_menu
      then reply rt t options_str
      else t

  unfoldable pub handle_line : Thread b → Outcome (Thread b)
  handle_line t = do
    processed ← process_command rt t
    if processed.1 then done processed.0 else transition processed.0.state processed.0

  -- the end of a round: whether the loop is left
  unfoldable pub finish_round : Thread b → Outcome (Thread b × Bool)
  unfolding match_state
  finish_round t =
      if match_state t.state state_disconnecting
      then (do t' ← on_disconnect_state rt t; done (t', true))
      else done (t, false)

  -- one round of the loop
  unfoldable pub round : Thread b → ReadEvent → Outcome (Thread b × Bool)
  round t e = do handled ← handle_line (read rt (offer_options t) e); finish_round handled

  -- whether a round is followed by another one
  abbrev pub after_round :
      (Thread b → Outcome (Thread b × Bool)) → Outcome (Thread b × Bool) → Outcome (Thread b × Bool)
  after_round again (done (t, true)) = done (t, true)
  after_round again (done (t, false)) = again t
  after_round again panics = panics
  after_round again blocks = blocks

  -- the rounds that a list of reads gives, up to the one that leaves the loop
  unfoldable pub rounds : Thread b → List ReadEvent → Outcome (Thread b × Bool)
  rounds t [] = done (t, false)
  rounds t (e ∷ es) = after_round (λ t'. rounds t' es) (round t e)
