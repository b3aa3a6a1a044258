-- ===== src/Session/Chat.antt =====
-- The procedures of pkg/session/reader.go for the chat itself: a channel's selection, a message,
-- and the end of a connection.
use mchat.Base.{
  ◌+◌, true, false, not, List, [], ◌∷◌, Option, none, some, Bytes, codes, ltb, get_elem?, is_empty,
  if◌then◌else◌,
}
use mchat.Runtime.{Runtime}
use mchat.Text.Atoi.{ℤ, pos, negsuc, NumError, success, atoi}
use mchat.Types.{build_chat_msg, build_sys_msg}
use mchat.Backend.Defs.{Backend, ChannelRef}
use mchat.Session.State.{
  state_accepting_messages, state_selecting_channel, state_processing_menu, state_disconnecting,
  match_state, substate_null, sys, chat, Thread, Outcome, done, panics, blocks, or_panic, ◌>>=◌,
}
use mchat.Session.Actions.{
  conn_of, with_world, with_storage, with_conn, update_state, send_msg, tick, reply, notice_line,
}
use mchat.Session.ConnectionMap.{remove_conn}
use mchat.Session.Texts.{around, server, decimal, build_chat_history}
use mchat.Session.Submission.{current_channel}
use mchat.Util.{fmtln}

-- `channels[id]` behind the test `id > 0 && id < len(channels)`
abbrev pub pick : List ChannelRef → ℤ → Option ChannelRef
pick channels (negsuc n) = none
pick channels (pos n) = if ltb 0 n then get_elem? channels n else none

module _ (rt : Runtime) {b : Backend} where
  -- the history of the chosen channel
  unfoldable pub show_channel : Thread b → Outcome (Thread b)
  unfolding reply notice_line
  show_channel t = do
    history ← or_panic (b.get_chat_history t.storage ((current_channel t).name ∷ []))
    done (
        update_state
          (if is_empty history
            then notice_line rt t (codes "Empty channel history")
            else reply rt t (build_chat_history history))
          state_accepting_messages substate_null)

  -- what is picked from the list, if the number is in it
  unfoldable pub choose_channel : Thread b → ℤ → Option ChannelRef → Outcome (Thread b)
  unfolding notice_line show_channel
  choose_channel t id (some channel) =
      show_channel (with_conn t (record (conn_of t) { channel = channel }))
  choose_channel t id none = done (
      update_state (notice_line rt t (around (codes "Id ") (decimal id) (codes " is out of range")))
        state_processing_menu substate_null)

  unfoldable pub select_channel : Thread b → ℤ × NumError → Outcome (Thread b)
  unfolding notice_line choose_channel
  select_channel t (id, success) = do
    channels ← or_panic (b.get_channels t.readings t.storage)
    choose_channel (tick t) id (pick channels id)
  select_channel t (id, _) = done (
      update_state (notice_line rt t (around (codes "Invalid channel id ") t.buffer (codes "")))
        state_processing_menu substate_null)

  unfoldable pub on_select_channel_state : Thread b → Outcome (Thread b)
  unfolding match_state
  on_select_channel_state t =
      if not (match_state t.state state_selecting_channel)
      then panics
      else select_channel t (atoi t.buffer)

  -- The signal to the watcher blocks where there is none to receive it.
  unfoldable pub on_accept_messages_state : Thread b → Outcome (Thread b)
  unfolding match_state
  on_accept_messages_state t =
      if not (match_state t.state state_accepting_messages)
      then panics
      else if not (conn_of t).is_watched
      then blocks
      else (let msg =
            build_chat_msg t.buffer (conn_of t).participant.username ((current_channel t).name ∷ [])
              (rt.time_now_str t.readings) in
          let t' = tick t in
          do
            s ← or_panic (b.store_message t'.storage msg)
            done (send_msg (with_storage t' s) (chat msg)))

  -- `cancel` ends the watcher
  abbrev pub hang_up : Thread b → Thread b
  hang_up t =
      with_conn t (record (conn_of t) { is_cancelled = true; is_watched = false; is_closed = true })

  -- to everyone: the message has no recipient
  abbrev pub announce : Thread b → Bytes → Thread b
  announce t username =
      let text =
        server (rt.time_now_str t.readings)
          (fmtln (around (codes "Participant ") username (codes " disconnected"))) in
      send_msg (tick (tick t)) (sys (build_sys_msg text [] (rt.time_now_str (t.readings + 1))))

  unfoldable pub on_disconnect_state : Thread b → Outcome (Thread b)
  unfolding match_state remove_conn
  on_disconnect_state t =
      if not (match_state t.state state_disconnecting)
      then panics
      else (let username = (conn_of t).participant.username in
          let t' = hang_up t in
          do
            w ← or_panic (remove_conn t'.world (conn_of t').ip_addr)
            done (announce (with_world t' w) username))
