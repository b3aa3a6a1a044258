-- ===== src/Session/Reader/Panics/Commands.antt =====
-- Which of the commands may panic.
use mchat.Base.{
  ◌≡◌, Option-cases, none, refl, Bool-cases, inl, inr, true, false, ◌||◌, arith, Bytes,
}
use mchat.Runtime.{Runtime}
use mchat.Commands.{
  CommandType, command_null, command_display_menu, command_display_history, command_list_members,
  command_list_channels, command_list_commands, command_sentinel, parse_command,
}
use mchat.Backend.Defs.{Backend}
use mchat.Backend.Contract.{KeepsNames}
use mchat.Session.State.{
  state_joining, state_processing_menu, Thread, panics, match_state, is_connected,
}
use mchat.Session.Actions.{conn_of}
use mchat.Session.Input.{
  show_history, show_members, show_channels, run_command, run_parsed, process_command,
}
use mchat.Commands.Errors.{error_message-parse_command}
use mchat.Session.Reader.Panics.{Serves}
use mchat.Session.Reader.Panics.Handlers.{IsMissing}

module _ {b : Backend} (t : Thread b) where
  -- The line is a history command of a participant in the chat, for a channel that does not exist.
  pub record AsksMissing : Type 0 where
    pub is_no_menu :
        (match_state t.state state_joining || match_state t.state state_processing_menu) ≡ false
    pub is_parsed : (parse_command t.buffer).error ≡ none
    pub is_history : (parse_command t.buffer).command_type ≡ command_display_history
    pub is_matched : (parse_command t.buffer).is_matched ≡ true
    pub is_connected : is_connected (conn_of t).state ≡ true
    pub is_missing : IsMissing t (parse_command t.buffer).channel

module _ (rt : Runtime) {b : Backend} (k : KeepsNames b) (c : Serves b) where
  show_history_cases : (t : Thread b) (n : Bytes) → show_history rt t n ≡ panics → IsMissing t n
  unfolding show_history
  show_history_cases t n h = (
    λ e. ground (arith, c.history_there t.storage n (inl e)),
    elim (Bool-cases (b.has_channel t.storage n)) [
      | inl has ↦ absurd (ground (arith, c.history_there t.storage n (inr has)))
      | inr missing ↦ missing
    ],
  )

  run_command_cases :
      (o : CommandType) (n : Bytes) (t : Thread b)
      → run_command rt o n t ≡ panics
      → (o ≡ command_display_history) × (is_connected (conn_of t).state ≡ true) × IsMissing t n
  unfolding run_command show_members show_channels
  run_command_cases command_null n t h = ground arith
  run_command_cases command_display_menu n t h = ground arith
  run_command_cases command_display_history n t h =
      elim (Bool-cases (is_connected (conn_of t).state)) [
        | inl on ↦ (refl, on, show_history_cases t n (ground (arith, h, on)))
        | inr off ↦ ground (arith, h, off)
      ]
  run_command_cases command_list_members n t h =
      ground (arith, c.participants_there t.readings t.storage)
  run_command_cases command_list_channels n t h =
      ground (arith, c.channels_there t.readings t.storage)
  run_command_cases command_list_commands n t h = ground arith
  run_command_cases command_sentinel n t h = ground arith

  pub process_command_cases : (t : Thread b) → process_command rt t ≡ panics → AsksMissing t
  unfolding process_command run_parsed
  process_command_cases t h =
      let r = parse_command t.buffer in
      let no_menu : (match_state t.state state_joining || match_state t.state state_processing_menu)
          ≡ false =
        ground (arith, h) in
      elim (Option-cases r.error) [
        | inr (e, is) ↦
            let (text, has) = error_message-parse_command t.buffer e is in
            ground (arith, h, is, has, no_menu)
        | inl fine ↦ elim (Bool-cases r.is_matched) [
          | inr other ↦ ground (arith, h, fine, other, no_menu)
          | inl matched ↦
              let (is, on, missing) =
                run_command_cases r.command_type r.channel t
                  (ground (arith, h, fine, matched, no_menu)) in
              record {
                is_no_menu = no_menu;
                is_parsed = fine;
                is_history = is;
                is_matched = matched;
                is_connected = on;
                is_missing = missing;
              }
        ]
      ]
