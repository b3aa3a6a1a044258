-- ===== src/Session/Actions.antt =====
-- What the procedures of the reader are made of: messages, writes to the connection's fields, and
-- changes of the reader's state.
use mchat.Base.{
  ◌+◌, Bool, true, false, List, [], ◌∷◌, ◌++◌, map, Bytes, is_empty, codes, if◌then◌else◌,
}
use mchat.Runtime.{Runtime}
use mchat.Types.{Participant, Channel, build_sys_msg}
use mchat.Util.{fmtln}
use mchat.Backend.Defs.{Backend, ChannelRef, own, stored}
use mchat.Session.State.{
  Connection, ReaderState, ReaderSubstate, Message, sys, World, Thread, Outcome, done, or_panic,
  ◌>>=◌,
}
use mchat.Session.ConnectionMap.{update, has_connected_participant}
use mchat.Session.Texts.{server, build_chat_history, build_channel_list, member_line}

module _ {b : Backend} where
  -- the connection that the reader points to
  abbrev pub conn_of : Thread b → Connection
  conn_of t = t.heap t.conn

  abbrev pub with_world : Thread b → World b → Thread b
  with_world t w = record t { world = w }

  abbrev pub with_storage : Thread b → b.Store → Thread b
  with_storage t s = with_world t (record (t.world) { storage = s })

  -- a write through `reader.conn`
  abbrev pub with_conn : Thread b → Connection → Thread b
  with_conn t c = with_world t (record (t.world) { heap = update t.heap t.conn c })

  -- `updateState` with a substate; without one it sets `substateNull`
  abbrev pub update_state : Thread b → ReaderState → ReaderSubstate → Thread b
  update_state t s sub = record t { reader = record (t.reader) { state = s; substate = sub } }

  -- `sendMsg` of either kind of message, as long as `processMessages` runs, and so takes it
  abbrev pub send_msg : Thread b → Message → Thread b
  send_msg t m = with_world t (record (t.world) { sent = m ∷ t.sent })

  -- one reading of the clock, or one range over a map
  abbrev pub tick : Thread b → Thread b
  tick t = with_world t (record (t.world) { readings = t.readings + 1 })

  -- the channel that `conn.channel` points to
  abbrev pub channel_of : Thread b → ChannelRef → Channel
  channel_of t (own c) = c
  channel_of t (stored key) = b.load t.storage key

  -- a write to the channel that `conn.channel` points to, which may be the storage's own
  unfoldable pub write_channel : Thread b → Channel → ChannelRef → Thread b
  write_channel t c (own _) = with_conn t (record (conn_of t) { channel = own c })
  write_channel t c (stored key) = with_storage t (b.save t.storage key c)

module _ (rt : Runtime) {b : Backend} where
  -- `session.sendMsg(types.BuildSysMsg(text, reader.conn.ipAddr))`
  unfoldable pub reply : Thread b → Bytes → Thread b
  reply t text =
      send_msg (tick t)
        (sys (build_sys_msg text ((conn_of t).ip_addr ∷ []) (rt.time_now_str t.readings)))

  -- the same with "{server: %s} " and the time in front of the text
  unfoldable pub notice : Thread b → Bytes → Thread b
  unfolding reply
  notice t text = reply (tick t) (server (rt.time_now_str t.readings) text)

  -- the same with an end of line behind it
  unfoldable pub notice_line : Thread b → Bytes → Thread b
  unfolding notice
  notice_line t text = notice t (fmtln text)

  -- `displayChatHistory`
  unfoldable pub display_chat_history : Thread b → Outcome (Thread b)
  unfolding reply notice_line
  display_chat_history t = do
    history ← or_panic (b.get_chat_history t.storage [])
    done (
        if is_empty history
        then notice_line t (codes "Empty chat history")
        else reply t (build_chat_history history))

  -- the names that a list of channel pointers leads to
  abbrev pub channel_names : Thread b → List ChannelRef → List Bytes
  channel_names t = map (λ c. (channel_of t c).name)

  -- `buildMembersList`
  unfoldable pub build_members_list : World b → List Participant → Bytes
  unfolding member_line has_connected_participant
  build_members_list w members = codes "members:\n" ++ lines members
    where
      lines : List Participant → Bytes
      lines = elim [
        | [] ↦ []
        | m ∷ (ms → rest) ↦ member_line m.username (has_connected_participant w m.username) ++ rest
      ]

  -- `displayChannels`: whether there are channels
  unfoldable pub display_channels : Thread b → Outcome (Thread b × Bool)
  unfolding reply notice_line
  display_channels t = do
    channels ← or_panic (b.get_channels t.readings t.storage)
    done (
        if is_empty channels then (notice_line (tick t) (codes "Empty channel list"), false) else (
          reply (tick t) (rt.sprintf (fmtln (build_channel_list (channel_names t channels)))),
          true,
        ))

  -- `displayMembers`
  unfoldable pub display_members : Thread b → Outcome (Thread b)
  unfolding reply notice_line build_members_list
  display_members t = do
    members ← or_panic (b.get_participants t.readings t.storage)
    done (
        if is_empty members
        then notice_line (tick t) (codes "Empty member list")
        else reply (tick t) (rt.sprintf (fmtln (build_members_list t.world members))))
