-- ===== src/Session/Reader/Chatting.antt =====
-- What a connection in the chat does: its messages, histories, channels and its end.
use mchat.Base.{
  equal, if◌then◌else◌, is_empty, ℕ, ◌≡◌, ◌≢◌, ◌≤◌, ◌↔◌, refl, inl, inr, true, false, List, [], ◌∷◌,
  ◌++◌, none, some, arith, Bytes, equal_iff, equal_refl, ==_refl, get_elem?, Bool-cases,
}
use mchat.Dict.{lookup}
use mchat.Dict.Laws.{lookup-delete}
use mchat.Runtime.{Runtime}
use mchat.Text.Atoi.{ℤ, pos, negsuc}
use mchat.Types.{ChatMessage, build_chat_msg}
use mchat.Commands.{command_display_history}
use mchat.Backend.Defs.{Backend, ChannelRef}
use mchat.Backend.Contract.{IsBackend}
use mchat.Session.State.{
  state_accepting_messages, state_disconnecting, is_connected, Thread, done, panics, done_of, chat,
}
use mchat.Session.Actions.{conn_of, send_msg, with_storage, tick}
use mchat.Session.Submission.{current_channel}
use mchat.Session.ConnectionMap.{remove_conn}
use mchat.Session.Chat.{pick, on_accept_messages_state, on_disconnect_state}
use mchat.Session.Input.{show_history, run_command}

module _ (rt : Runtime) {b : Backend} (k : IsBackend b) where
  store_message_general :
      (s s' : b.Store) (m : ChatMessage) (h : List ChatMessage)
      → m.channel ≡ []
      → b.store_message s m ≡ some s'
      → b.get_chat_history s ([] ∷ []) ≡ some h
      → (n : Bytes)
      → b.get_chat_history s' (n ∷ [])
        ≡ (if is_empty n then some (h ++ (m ∷ [])) else b.get_chat_history s (n ∷ []))
  store_message_general s s' m h general stored found [] =
      rw (k.history-store s s' m [] stored, general, equal_refl [], found) refl
  store_message_general s s' m h general stored found (c ∷ cs) =
      ground (arith, k.history-store s s' m (c ∷ cs) stored, equal_iff [] (c ∷ cs))

  -- Over any storage that meets the contract, a watched connection whose reader accepts messages
  -- stores the line read: the step neither panics nor blocks, a message of the participant with the
  -- line as its contents is added at the end of the general history, which is that of the empty
  -- name, and the history of every other name stays as it was, whichever channel the connection has
  -- selected.
  pub on_accept_messages_state_general :
      (t : Thread b)
      → t.state ≡ state_accepting_messages
      → (conn_of t).is_watched ≡ true
      → (h : List ChatMessage) → b.get_chat_history t.storage ([] ∷ []) ≡ some h
      → (t' : Thread b) × (m : ChatMessage) × (on_accept_messages_state rt t ≡ done t')
        × (m.contents ≡ t.buffer)
        × (m.sender ≡ (conn_of t).participant.username)
        × ((n : Bytes)
            → b.get_chat_history t'.storage (n ∷ []) ≡ (
                if is_empty n then some (h ++ (m ∷ [])) else b.get_chat_history t.storage (n ∷ [])))
  unfolding on_accept_messages_state
  on_accept_messages_state_general t e w h found =
      let m =
        build_chat_msg t.buffer (conn_of t).participant.username ((current_channel t).name ∷ [])
          (rt.time_now_str t.readings) in
      let (s, stored) = k.store_total t.storage m (inl (unfold build_chat_msg in refl)) in
      let t' = send_msg (with_storage (tick t) s) (chat m) in
      let histories =
        store_message_general t.storage s m h (unfold build_chat_msg in refl) stored found in
      (
        t',
        m,
        ground (arith, stored),
        unfold build_chat_msg in refl,
        unfold build_chat_msg in refl,
        histories,
      )

  -- Over any storage that meets the contract: of a connection that is connected, the command for
  -- the history of a named channel panics, and with it the server, exactly if there is no channel
  -- of that name.
  pub run_command_history :
      (t : Thread b) (n : Bytes)
      → is_connected (conn_of t).state ≡ true
      → n ≢ []
      → (run_command rt command_display_history n t ≡ panics) ↔ (b.has_channel t.storage n ≡ false)
  unfolding run_command show_history
  run_command_history t n c ne = (
    λ h. elim (Bool-cases (b.has_channel t.storage n)) [
      | inl there ↦ ground (arith, k.channel_history t.storage n there)
      | inr missing ↦ missing
    ],
    λ missing. ground (arith, k.history_missing t.storage n ne missing),
  )

-- A channel is picked under a number exactly if the number is at least 1 and the channel stands at
-- that place of the list, which is counted from 0: the first channel is never picked.
pub pick_iff :
    (cs : List ChannelRef) (id : ℤ) (c : ChannelRef)
    → (pick cs id ≡ some c) ↔ ((n : ℕ) × (id ≡ pos n) × (1 ≤ n) × (get_elem? cs n ≡ some c))
pick_iff cs (pos n) c = (λ h. (n, refl, ground arith, ground arith), λ (m, e, l, h). ground arith)
pick_iff cs (negsuc n) c = (λ h. ground arith, λ (m, e, l, h). ground arith)

-- The end of a connection that stands in the map under its address: the step neither panics nor
-- blocks, the connection is closed and cancelled, the map has no entry for its address, and the
-- entries for all other addresses stay.
pub on_disconnect_state_removes :
    (rt : Runtime) {b : Backend} (t : Thread b)
    → t.state ≡ state_disconnecting
    → lookup t.connections (conn_of t).ip_addr ≡ some t.conn
    → (t' : Thread b) × (on_disconnect_state rt t ≡ done t')
      × ((conn_of t').is_closed ≡ true)
      × ((conn_of t').is_cancelled ≡ true)
      × ((ip : Bytes)
          → lookup t'.connections ip
            ≡ (if equal (conn_of t).ip_addr ip then none else lookup t.connections ip))
unfolding on_disconnect_state remove_conn
on_disconnect_state_removes rt t e m =
    let ip = (conn_of t).ip_addr in
    let (t', ends) =
      done_of (on_disconnect_state rt t) (ground (arith, ==_refl t.conn))
        (ground (arith, ==_refl t.conn)) in
    (
      t',
      ends,
      ground (arith, ==_refl t.conn),
      ground (arith, ==_refl t.conn),
      λ other. ground (arith, ==_refl t.conn, lookup-delete t.connections ip other),
    )
