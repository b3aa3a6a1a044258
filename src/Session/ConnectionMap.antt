-- ===== src/Session/ConnectionMap.antt =====
-- pkg/session/connection.go: the map of connections and the broadcast over it. The lock makes each
-- method one step.
pub mod Broadcast
pub mod Recipients
use mchat.Base.{
  ℕ, ◌+◌, ◌-◌, Bool, true, false, not, ◌&&◌, ◌||◌, List, [], ◌∷◌, ◌++◌, map, Option, none, some,
  Bytes, length, any, is_empty, equal, ◌==◌, if◌then◌else◌,
}
use mchat.Dict.{Dict, lookup, insert, delete, has, values}
use mchat.Runtime.{Runtime}
use mchat.Text.{equal_fold}
use mchat.Types.{Participant, ChatMessage, SysMessage, no_participant, no_channel}
use mchat.Backend.Defs.{Backend, own}
use mchat.Session.State.{
  Connection, ConnectionState, pending_state, connected_state, is_connected, Message, sys, chat,
  World,
}
use mchat.Session.Texts.{chat_line}

-- `newConn`
abbrev pub new_conn : Bytes → Connection
new_conn ip_addr = record {
  ip_addr = ip_addr;
  participant = no_participant;
  channel = own no_channel;
  is_cancelled = false;
  is_closed = false;
  is_watched = false;
  state = pending_state;
}

-- a write through a pointer
abbrev pub update {ℓ} : {A : Type ℓ} → (ℕ → A) → ℕ → A → ℕ → A
update heap p a q = if p == q then a else heap q

module _ {b : Backend} where
  unfoldable pub add_conn : World b → ℕ → World b
  add_conn w p = record w { connections = insert w.connections (w.heap p).ip_addr p }

  -- `none` is the panic
  unfoldable pub remove_conn : World b → Bytes → Option (World b)
  remove_conn w ip =
      if not (has w.connections ip)
      then none
      else some (record w { connections = delete w.connections ip })

  unfoldable pub has_connected_participant : World b → Bytes → Bool
  has_connected_participant w username =
      any (λ p. is_connected (w.heap p).state && equal (w.heap p).participant.username username)
        (values w.connections)

  unfoldable pub is_empty_map : World b → Bool
  is_empty_map w = is_empty w.connections

  -- `none` is the panic
  unfoldable pub mark_as_connected : World b → Bytes → Option (World b)
  mark_as_connected w ip = elim (lookup w.connections ip) [
    | none ↦ none
    | some p ↦
        some (record w { heap = update w.heap p (record (w.heap p) { state = connected_state }) })
  ]

-- What `WriteBytes` returns for each connection and buffer: a count, and whether it failed.
abbrev pub Network : Type 0
Network = ℕ → Bytes → ℕ × Bool

-- The value of `broadcastMessage`, and the writes that it makes.
pub record Delivery : Type 0 where
  pub sent_count : ℕ
  pub writes : List (ℕ × Bytes)

abbrev pub no_delivery : Delivery
no_delivery = record { sent_count = 0; writes = [] }

-- one write, counted if it returns no error and the length of the message's contents
abbrev pub write_to : Network → ℕ → Bytes → ℕ → Delivery → Delivery
write_to net p buffer contents_length rest =
    let (n, failed) = net p buffer in
    record {
      sent_count =
          if failed || not (n == contents_length) then rest.sent_count else rest.sent_count + 1;
      writes = (p, buffer) ∷ rest.writes;
    }

-- the loop over the connections for a chat message; the flag is `senderWasSkipped`
unfoldable pub broadcast_chat : Network → (ℕ → Connection) → ChatMessage → Bool → List ℕ → Delivery
broadcast_chat net heap msg skipped [] = no_delivery
broadcast_chat net heap msg skipped (p ∷ ps) =
    let is_sender = not skipped && equal_fold (heap p).participant.username msg.sender in
    let after_sender = broadcast_chat net heap msg true ps in
    let rest = broadcast_chat net heap msg skipped ps in
    if is_connected (heap p).state
    then (if is_sender
        then after_sender
        else write_to net p (chat_line msg) (length msg.contents) rest)
    else rest

-- the loop for a system message with no recipient
unfoldable pub broadcast_sys : Network → (ℕ → Connection) → SysMessage → List ℕ → Delivery
broadcast_sys net heap msg [] = no_delivery
broadcast_sys net heap msg (p ∷ ps) =
    let rest = broadcast_sys net heap msg ps in
    if is_connected (heap p).state
    then write_to net p msg.contents (length msg.contents) rest
    else rest

unfoldable pub broadcast_message :
    {b : Backend} → Runtime → Network → ℕ → World b → Message → Delivery
unfolding broadcast_chat broadcast_sys
broadcast_message rt net n w (chat msg) =
    broadcast_chat net w.heap msg false (rt.arrange ℕ n (values w.connections))
broadcast_message rt net n w (sys msg) =
    if not (is_empty msg.recipient)
    then (elim (lookup w.connections msg.recipient) [
      | none ↦ no_delivery
      | some p ↦ write_to net p msg.contents (length msg.contents) no_delivery
    ])
    else broadcast_sys net w.heap msg (rt.arrange ℕ n (values w.connections))
