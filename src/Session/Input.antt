-- ===== src/Session/Input.antt =====
-- `read` and `processCommand` of pkg/session/reader.go.
use mchat.Base.{Bool, true, false, ◌||◌, [], ◌∷◌, none, some, Bytes, codes, is_empty, if◌then◌else◌}
use mchat.Runtime.{Runtime}
use mchat.Util.{fmtln, trim_whitespaces}
use mchat.Commands.{
  CommandType, command_display_menu, command_display_history, command_list_members,
  command_list_channels, command_list_commands, ParseResult, parse_command, error_message,
  commands_text,
}
use mchat.Backend.Defs.{Backend}
use mchat.Session.State.{
  state_joining, state_processing_menu, state_disconnecting, match_state, is_connected,
  substate_null, Thread, Outcome, done, or_panic, ◌>>=◌,
}
use mchat.Session.Actions.{
  conn_of, with_conn, update_state, tick, reply, channel_names, build_members_list,
}
use mchat.Session.Texts.{build_chat_history, build_channel_list}

pub data ReadError : Type 0 where
  no_error eof failed : ReadError

-- What `netConn.Read` returns: at most 1024 bytes, and an error.
pub record ReadEvent : Type 0 where
  pub bytes : Bytes
  pub err : ReadError

module _ (rt : Runtime) {b : Backend} where
  -- the branches of the `select` over the context
  abbrev pub on_read_error : Thread b → Thread b
  on_read_error t =
      if (conn_of t).is_cancelled
      then reply rt t (rt.sprintf (codes "You were idle for too long, disconnecting..."))
      else with_conn t (record (conn_of t) { is_cancelled = true; is_watched = false })

  -- the last test, on the count of bytes
  abbrev pub end_of_stream : Thread b → Bytes → Thread b
  end_of_stream t bytes =
      if is_empty bytes then update_state t state_disconnecting substate_null else t

  abbrev pub received : Thread b → ReadEvent → Thread b
  received t e = record t { reader = record (t.reader) { buffer = trim_whitespaces e.bytes } }

  unfoldable pub after_read : Thread b → Bytes → ReadError → Thread b
  unfolding reply
  after_read t bytes failed = update_state (on_read_error t) state_disconnecting substate_null
  after_read t bytes no_error = end_of_stream t bytes
  after_read t bytes eof = end_of_stream t bytes

  unfoldable pub read : Thread b → ReadEvent → Thread b
  unfolding after_read
  read t e = after_read (received t e) e.bytes e.err

  abbrev pub need_authentication : Thread b → Outcome (Thread b)
  need_authentication t = done (reply rt t (fmtln (codes "Authentication required")))

  unfoldable pub show_history : Thread b → Bytes → Outcome (Thread b)
  unfolding reply
  show_history t channel = do
    history ← or_panic (b.get_chat_history t.storage (channel ∷ []))
    done (
        if is_empty history
        then reply rt t (fmtln (codes "Empty chat history"))
        else reply rt t (rt.sprintf (build_chat_history history)))

  unfoldable pub show_members : Thread b → Outcome (Thread b)
  unfolding reply build_members_list
  show_members t = do
    members ← or_panic (b.get_participants t.readings t.storage)
    done (
        if is_empty members
        then reply rt (tick t) (fmtln (codes "Empty members list"))
        else reply rt (tick t) (build_members_list rt t.world members))

  unfoldable pub show_channels : Thread b → Outcome (Thread b)
  unfolding reply
  show_channels t = do
    channels ← or_panic (b.get_channels t.readings t.storage)
    done (
        if is_empty channels
        then reply rt (tick t) (fmtln (codes "Empty channel list"))
        else reply rt (tick t) (build_channel_list (channel_names rt t channels)))

  -- the switch over a matched command
  unfoldable pub run_command : CommandType → Bytes → Thread b → Outcome (Thread b)
  unfolding reply
  run_command command_display_menu channel t =
      done (update_state t state_processing_menu substate_null)
  run_command command_display_history channel t =
      if is_connected (conn_of t).state then show_history t channel else need_authentication t
  run_command command_list_members channel t =
      if is_connected (conn_of t).state then show_members t else need_authentication t
  run_command command_list_channels channel t =
      if is_connected (conn_of t).state then show_channels t else need_authentication t
  run_command command_list_commands channel t = done (reply rt t commands_text)
  run_command _ channel t = done t

  unfoldable pub run_parsed : Thread b → ParseResult → Outcome (Thread b × Bool)
  unfolding reply
  run_parsed t result = elim result.error [
    | some e ↦ (do text ← or_panic (error_message e); done (reply rt t text, true))
    | none ↦
        (if result.is_matched
          then (do t' ← run_command result.command_type result.channel t; done (t', true))
          else done (t, false))
  ]

  -- `processCommand`: whether the line was a command
  unfoldable pub process_command : Thread b → Outcome (Thread b × Bool)
  unfolding match_state
  process_command t =
      if match_state t.state state_joining || match_state t.state state_processing_menu
      then done (t, false)
      else run_parsed t (parse_command t.buffer)
