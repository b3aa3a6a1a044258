-- ===== src/Session/Submission.antt =====
-- The procedures of pkg/session/reader.go that read a participant's or a channel's data, and
-- `validate`.
use mchat.Base.{true, not, ◌&&◌, Bytes, codes, if◌then◌else◌}
use mchat.Runtime.{Runtime}
use mchat.Types.{Participant, Channel}
use mchat.Validation.{validate_name, validate_password, validate_email}
use mchat.Backend.Defs.{Backend}
use mchat.Session.State.{
  ReaderState, ReaderSubstate, state_joining, state_registration, state_authentication,
  state_accepting_messages, state_creating_channel, state_processing_menu, match_state,
  substate_null, substate_reading_name, substate_reading_password, substate_reading_email_address,
  substate_reading_channel_desc, Thread, Outcome, done, panics, or_panic, ◌>>=◌,
}
use mchat.Session.Actions.{
  conn_of, with_world, with_storage, with_conn, update_state, tick, channel_of, write_channel,
  notice, notice_line, display_chat_history,
}
use mchat.Session.ConnectionMap.{mark_as_connected}
use mchat.Session.Texts.{around}

module _ {b : Backend} where
  -- writes to `reader.conn.participant`
  abbrev pub with_participant : Thread b → Participant → Thread b
  with_participant t p = with_conn t (record (conn_of t) { participant = p })

  abbrev pub set_username : Thread b → Thread b
  set_username t = with_participant t (record ((conn_of t).participant) { username = t.buffer })

  abbrev pub set_password : Thread b → Thread b
  set_password t = with_participant t (record ((conn_of t).participant) { password = t.buffer })

  abbrev pub set_email : Thread b → Thread b
  set_email t = with_participant t (record ((conn_of t).participant) { email = t.buffer })

  abbrev pub set_join_time : Thread b → Bytes → Thread b
  set_join_time t now = with_participant t (record ((conn_of t).participant) { join_time = now })

  -- `go reader.conn.disconnectIfIdle()`
  abbrev pub watch : Thread b → Thread b
  watch t = with_conn t (record (conn_of t) { is_watched = true })

  abbrev pub current_channel : Thread b → Channel
  current_channel t = channel_of t (conn_of t).channel

  abbrev pub set_channel_name : Thread b → Thread b
  set_channel_name t =
      write_channel t (record (current_channel t) { name = t.buffer }) (conn_of t).channel

  abbrev pub set_channel_desc : Thread b → Thread b
  set_channel_desc t =
      write_channel t (record (current_channel t) { desc = t.buffer }) (conn_of t).channel

  -- `session.connMap.markAsConnected(reader.conn.ipAddr)`
  unfoldable pub mark_connected : Thread b → Outcome (Thread b)
  unfolding mark_as_connected
  mark_connected t = do
    w ← or_panic (mark_as_connected t.world (conn_of t).ip_addr)
    done (with_world t w)

module _ (rt : Runtime) {b : Backend} where
  -- a refusal sends a line and goes back to a state
  abbrev pub refuse : Thread b → Bytes → ReaderState → Outcome (Thread b)
  refuse t text s = done (update_state (notice_line rt t text) s substate_null)

  -- the join time, the watcher, and what follows a registration or an authentication
  unfoldable pub admit : Thread b → Thread b
  admit t = watch (set_join_time (tick t) (rt.time_now_str t.readings))

  unfoldable pub register : Thread b → Outcome (Thread b)
  unfolding admit
  register t =
      let t' = admit t in
      do
        s ← or_panic (b.register_participant t'.storage (conn_of t').participant)
        done (with_storage t' s)

  -- the end of both branches
  unfoldable pub enter_chat : Thread b → Outcome (Thread b)
  unfolding mark_connected display_chat_history
  enter_chat t = do
    shown ← display_chat_history rt t
    marked ← mark_connected shown
    done (update_state marked state_accepting_messages substate_null)

  unfoldable pub validate_registration : Thread b → Outcome (Thread b)
  unfolding notice_line
  validate_registration t =
      let p = (conn_of t).participant in
      if not (validate_email p.email)
      then refuse t (around (codes "Email {") p.email (codes "} not valid")) state_joining
      else if b.has_participant t.storage p.username
      then refuse t (around (codes "Participant ") p.username (codes " already exists"))
          state_joining
      else (do registered ← register t; enter_chat registered)

  unfoldable pub validate_authentication : Thread b → Outcome (Thread b)
  unfolding notice_line
  validate_authentication t =
      let p = (conn_of t).participant in
      if not (b.auth_participant t.storage p)
      then refuse t
          (around (codes "Failed to authenticate participant ") p.username
            (codes ". Username or password is incorrect."))
          state_joining
      else enter_chat (admit t)

  unfoldable pub validate_participant : Thread b → Outcome (Thread b)
  unfolding match_state notice_line
  validate_participant t =
      let p = (conn_of t).participant in
      if not (validate_name p.username)
      then refuse t (around (codes "Username ") p.username (codes " not valid")) state_joining
      else if not (validate_password p.password)
      then refuse t (around (codes "Password {") p.password (codes "} not valid")) state_joining
      else if match_state t.state state_registration
      then validate_registration t
      else validate_authentication t

  unfoldable pub validate_channel : Thread b → Outcome (Thread b)
  unfolding notice_line
  validate_channel t =
      let name = (current_channel t).name in
      if not (validate_name name)
      then refuse t (around (codes "Channel name {") name (codes "} is invalid"))
          state_processing_menu
      else if b.has_channel t.storage name
      then refuse t (around (codes "Channel {") name (codes "} already exist"))
          state_processing_menu
      else (do
        s ← or_panic (b.register_channel t.storage (current_channel t))
        done (update_state (with_storage t s) state_accepting_messages substate_null))

  unfoldable pub validate : Thread b → Outcome (Thread b)
  unfolding match_state
  validate t =
      if not (match_state t.state state_registration)
        && not (match_state t.state state_authentication)
        && not (match_state t.state state_creating_channel)
      then panics
      else if not (match_state t.state state_creating_channel)
      then validate_participant t
      else validate_channel t

  -- the switches over the substate, whose other values have no case
  unfoldable pub register_step : ReaderSubstate → Thread b → Outcome (Thread b)
  unfolding notice
  register_step substate_reading_name t = done (
      update_state (notice rt (set_username t) (codes "enter email: ")) t.state
        substate_reading_email_address)
  register_step substate_reading_email_address t = done (
      update_state (notice rt (set_email t) (codes "enter password: ")) t.state
        substate_reading_password)
  register_step substate_reading_password t = validate (set_password t)
  register_step _ t = done t

  unfoldable pub on_register_participant_state : Thread b → Outcome (Thread b)
  unfolding match_state
  on_register_participant_state t =
      if not (match_state t.state state_registration) then panics else register_step t.substate t

  -- the name is followed by the name again: the new substate is `substateReadingName`
  unfoldable pub auth_step : ReaderSubstate → Thread b → Outcome (Thread b)
  unfolding notice
  auth_step substate_reading_name t = done (
      update_state (notice rt (set_username t) (codes "enter password: ")) t.state
        substate_reading_name)
  auth_step substate_reading_password t = validate (set_password t)
  auth_step _ t = done t

  unfoldable pub on_auth_participant_state : Thread b → Outcome (Thread b)
  unfolding match_state
  on_auth_participant_state t =
      if not (match_state t.state state_authentication) then panics else auth_step t.substate t

  unfoldable pub channel_step : ReaderSubstate → Thread b → Outcome (Thread b)
  unfolding notice
  channel_step substate_reading_name t = done (
      update_state (notice rt (set_channel_name t) (codes "enter description: ")) t.state
        substate_reading_channel_desc)
  channel_step substate_reading_channel_desc t = validate (set_channel_desc t)
  channel_step _ t = done t

  unfoldable pub on_create_channel_state : Thread b → Outcome (Thread b)
  unfolding match_state
  on_create_channel_state t =
      if not (match_state t.state state_creating_channel) then panics else channel_step t.substate t
