-- ===== src/Session/ConnectionMap/Broadcast.antt =====
-- Who gets a message of `broadcastMessage` of pkg/session/connection.go, and what it counts.
use mchat.Base.{
  ℕ, ◌≡◌, ◌⊎◌, ◌<◌, refl, Bool, true, false, List, [], ◌∷◌, ◌++◌, Option, none, some, arith, Bytes,
  codes, if◌then◌else◌, is_empty, length, length-append, ==_iff, map,
}
use mchat.Text.{equal_fold}
use mchat.Util.{fmtln}
use mchat.Dict.{lookup, values}
use mchat.Types.{ChatMessage, SysMessage}
use mchat.Runtime.{Runtime}
use mchat.Backend.Defs.{Backend}
use mchat.Session.State.{Connection, is_connected, World, sys, chat}
use mchat.Session.Texts.{chat_line}
use mchat.Session.ConnectionMap.{Network, broadcast_chat, broadcast_sys, broadcast_message}

-- the connected ones
unfoldable pub online : (ℕ → Connection) → List ℕ → List ℕ
online heap [] = []
online heap (p ∷ ps) =
    let rest = online heap ps in if is_connected (heap p).state then p ∷ rest else rest

-- a list without its first element of a kind
unfoldable pub without_first : (ℕ → Bool) → List ℕ → List ℕ
without_first is_kind [] = []
without_first is_kind (p ∷ ps) =
    let rest = without_first is_kind ps in if is_kind p then ps else p ∷ rest

abbrev pub is_from : (ℕ → Connection) → ChatMessage → ℕ → Bool
is_from heap msg p = equal_fold (heap p).participant.username msg.sender

abbrev pub addressed : Option ℕ → Bytes → List (ℕ × Bytes)
addressed none contents = []
addressed (some p) contents = (p, contents) ∷ []

-- Each write fails or returns the length of its buffer.
abbrev pub IsNetwork : Network → Type 0
IsNetwork net =
    (p : ℕ) (buffer : Bytes) → ((net p buffer).1 ≡ true) ⊎ ((net p buffer).0 ≡ length buffer)

module _ (net : Network) (heap : ℕ → Connection) where
  broadcast_chat-skipped :
      (msg : ChatMessage) (ps : List ℕ)
      → (broadcast_chat net heap msg true ps).writes
        ≡ map (λ p. (p, chat_line msg)) (online heap ps)
  unfolding broadcast_chat online
  broadcast_chat-skipped msg [] = refl
  broadcast_chat-skipped msg (p ∷ ps) = ground (arith, broadcast_chat-skipped msg ps)

  broadcast_chat-writes :
      (msg : ChatMessage) (ps : List ℕ)
      → (broadcast_chat net heap msg false ps).writes
        ≡ map (λ p. (p, chat_line msg)) (without_first (is_from heap msg) (online heap ps))
  unfolding broadcast_chat online without_first
  broadcast_chat-writes msg [] = refl
  broadcast_chat-writes msg (p ∷ ps) =
      ground (arith, broadcast_chat-writes msg ps, broadcast_chat-skipped msg ps)

  -- the line is longer than the contents
  chat_line_longer : (msg : ChatMessage) → length msg.contents < length (chat_line msg)
  unfolding chat_line fmtln
  chat_line_longer msg =
      let crlf : Bytes = 13 ∷ 10 ∷ [] in
      let said = codes "} " ++ msg.contents in
      let timed = b':' ∷ (msg.sent_time ++ said) in
      omega (
        arith,
        length-append (b'{' ∷ (msg.sender ++ timed)) crlf,
        length-append msg.sender timed,
        length-append msg.sent_time said,
      )

  broadcast_chat_uncounted :
      (msg : ChatMessage) (skipped : Bool) (ps : List ℕ)
      → IsNetwork net
      → (broadcast_chat net heap msg skipped ps).sent_count ≡ 0
  unfolding broadcast_chat
  broadcast_chat_uncounted msg skipped [] k = refl
  broadcast_chat_uncounted msg skipped (p ∷ ps) k = ground (
    arith,
    k p (chat_line msg),
    chat_line_longer msg,
    broadcast_chat_uncounted msg true ps k,
    broadcast_chat_uncounted msg skipped ps k,
    ==_iff (net p (chat_line msg)).0 (length msg.contents),
  )

  broadcast_sys-writes :
      (msg : SysMessage) (ps : List ℕ)
      → (broadcast_sys net heap msg ps).writes ≡ map (λ p. (p, msg.contents)) (online heap ps)
  unfolding broadcast_sys online
  broadcast_sys-writes msg [] = refl
  broadcast_sys-writes msg (p ∷ ps) = ground (arith, broadcast_sys-writes msg ps)

module _ (rt : Runtime) (net : Network) (n : ℕ) {b : Backend} (w : World b) where
  -- A chat message is written, as a line with its sender and its time, to the connected members of
  -- the map in the order of the range, except to the first one of them whose name is the sender's
  -- up to case.
  pub broadcast_message-chat :
      (msg : ChatMessage)
      → (broadcast_message rt net n w (chat msg)).writes
        ≡ map
            (λ p. (p, chat_line msg))
            (without_first
              (is_from w.heap msg)
              (online w.heap (rt.arrange ℕ n (values w.connections))))
  unfolding broadcast_message
  broadcast_message-chat msg =
      broadcast_chat-writes net w.heap msg (rt.arrange ℕ n (values w.connections))

  -- Over connections whose writes fail or return the length of their buffer, a chat message counts
  -- as sent to nobody, whoever gets it.
  pub broadcast_message_uncounted :
      (msg : ChatMessage) → IsNetwork net → (broadcast_message rt net n w (chat msg)).sent_count ≡ 0
  unfolding broadcast_message
  broadcast_message_uncounted msg k =
      broadcast_chat_uncounted net w.heap msg false (rt.arrange ℕ n (values w.connections)) k

  -- A system message is written once, to the connection under the recipient's address, and to
  -- nobody if the map has none; without a recipient it is written to all that are connected.
  pub broadcast_message-sys :
      (msg : SysMessage)
      → (broadcast_message rt net n w (sys msg)).writes ≡ (
          if is_empty msg.recipient
          then map (λ p. (p, msg.contents)) (online w.heap (rt.arrange ℕ n (values w.connections)))
          else addressed (lookup w.connections msg.recipient) msg.contents)
  unfolding broadcast_message
  broadcast_message-sys msg =
      ground (arith, broadcast_sys-writes net w.heap msg (rt.arrange ℕ n (values w.connections)))
