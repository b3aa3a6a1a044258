-- ===== src/Session/Server/Pump/Integrity.antt =====
-- What `processMessages` writes to the clients of a session.
use mathlib.Core.List.{Mem, mem-append_left, mem-append_right, mem-cons_self, not-mem-nil}
use mathlib.Core.Option.{some-injective}
use mchat.Base.{
  ℕ, ◌≡◌, refl, sym, inl, inr, Bool, Bool-cases, ◌∙◌, true, false, List, [], ◌∷◌, ◌++◌, map, some,
  Bytes, All, is_empty, Option, none,
}
use mchat.Dict.{lookup}
use mchat.Runtime.{Runtime}
use mchat.Types.{ChatMessage, SysMessage}
use mchat.Backend.Defs.{Backend}
use mchat.Backend.Contract.{KeepsNames, KeepsHistory}
use mchat.Session.State.{Thread, Message, sys, chat}
use mchat.Session.Texts.{chat_line}
use mchat.Session.ConnectionMap.{Network, broadcast_message}
use mchat.Session.ConnectionMap.Broadcast.{broadcast_message-chat, broadcast_message-sys, addressed}
use mchat.Session.Reader.Log.{chat_log}
use mchat.Session.Reader.Log.Authors.{Authored, round-Authored}
use mchat.Session.Server.{
  Server, accept, expire, thread, Step, accepts, rounds_on, rounds_off, expires, Reach, start,
  later,
}
use mchat.Session.Server.Invariant.{ServerInv, unchanged_for, free_for}
use mchat.Session.Server.Names.{Reach-ServerInv}
use mchat.Session.Server.Log.{history-sent}
use mchat.Session.Server.Authors.{Reach-AllFrom}
use mchat.Session.Server.Pump.{Writes, Pumped, for_message, PumpReach, opened, moved, serves, pumps}

-- A write for a chat message is its line, and the message is in a log and has a sender of a kind; one
-- for a system message is its text.
abbrev pub IsShown : (Bytes → Bool) → List ChatMessage → Message × ℕ × Bytes → Type 0
IsShown known log (sys msg, q, text) = text ≡ msg.contents
IsShown known log (chat msg, q, text) =
    (text ≡ chat_line msg) × Mem msg log × (known msg.sender ≡ true)

IsShown-mono :
    (known known' : Bytes → Bool) (log log' : List ChatMessage)
    → ((u : Bytes) → known u ≡ true → known' u ≡ true)
    → ((m : ChatMessage) → Mem m log → Mem m log')
    → (ws : Writes) → All (IsShown known log) ws
    → All (IsShown known' log') ws
IsShown-mono known known' log log' k l [] all = tt
IsShown-mono known known' log log' k l ((sys msg, q, text) ∷ ws) all =
    (all.0, IsShown-mono known known' log log' k l ws all.1)
IsShown-mono known known' log log' k l ((chat msg, q, text) ∷ ws) all =
    let (is_line, logged, by) = all.0 in
    ((is_line, l msg logged, k msg.sender by), IsShown-mono known known' log log' k l ws all.1)

All-append :
    (P : Message × ℕ × Bytes → Type 0) (xs ys : Writes) → All P xs → All P ys → All P (xs ++ ys)
All-append P [] ys h h' = h'
All-append P (x ∷ xs) ys h h' = (h.0, All-append P xs ys h.1 h')

module _ (known : Bytes → Bool) (log : List ChatMessage) where
  chat_writes :
      (msg : ChatMessage) (ps : List ℕ)
      → Mem msg log
      → known msg.sender ≡ true
      → All (IsShown known log) (map (for_message (chat msg)) (map (λ p. (p, chat_line msg)) ps))
  chat_writes msg [] logged by = tt
  chat_writes msg (p ∷ ps) logged by = ((refl, logged, by), chat_writes msg ps logged by)

  sys_writes :
      (msg : SysMessage) (ps : List ℕ)
      → All (IsShown known log) (map (for_message (sys msg)) (map (λ p. (p, msg.contents)) ps))
  sys_writes msg [] = tt
  sys_writes msg (p ∷ ps) = (refl, sys_writes msg ps)

  addressed_writes :
      (msg : SysMessage) (to : Option ℕ)
      → All (IsShown known log) (map (for_message (sys msg)) (addressed to msg.contents))
  addressed_writes msg none = tt
  addressed_writes msg (some p) = (refl, tt)

mem-chat_log :
    (pending handled : List Message) (msg : ChatMessage)
    → Mem msg (chat_log (pending ++ (chat msg ∷ handled)))
unfolding chat_log
mem-chat_log [] handled msg = mem-append_right (chat_log handled) mem-cons_self
mem-chat_log (sys x ∷ pending) handled msg = mem-chat_log pending handled msg
mem-chat_log (chat x ∷ pending) handled msg =
    mem-append_left (x ∷ []) (mem-chat_log pending handled msg)

-- What a step leaves in the log and in the storage.
record Grows {b : Backend} (s s' : Server b) : Type 0 where
  stays_logged : (m : ChatMessage) → Mem m (chat_log s.world.sent) → Mem m (chat_log s'.world.sent)
  stays_known :
      (u : Bytes)
      → b.has_participant s.world.storage u ≡ true
      → b.has_participant s'.world.storage u ≡ true

Authored-mem :
    {b : Backend} (t t' : Thread b)
    → Authored t t'
    → (m : ChatMessage) → Mem m (chat_log t.sent)
    → Mem m (chat_log t'.sent)
Authored-mem t t' (inl same) m h = rw same h
Authored-mem t t' (inr added) m h = rw added.one_more (mem-append_left (added.msg ∷ []) h)

module _ {rt : Runtime} {b : Backend} (k : KeepsNames b) (kh : KeepsHistory b) where
  Step-Grows : {s s' : Server b} → Step rt s s' → ServerInv s → Grows s s'
  unfolding accept expire
  Step-Grows (accepts ip free) v = record { stays_logged = λ m h. h; stays_known = λ u h. h }
  Step-Grows {s} (rounds_on p r e t at on) v = record {
    stays_logged =
        Authored-mem (thread r s.world) t
          (round-Authored rt k kh (thread r s.world) t e false (v.keeps p r at) on);
    stays_known = λ u. (unchanged_for rt k s v p r e t at on p u).stays_known;
  }
  Step-Grows {s} (rounds_off p r e t at off) v = record {
    stays_logged =
        Authored-mem (thread r s.world) t
          (round-Authored rt k kh (thread r s.world) t e true (v.keeps p r at) off);
    stays_known = λ u. (free_for rt k s v p r e t at off p u []).stays_known;
  }
  Step-Grows (expires p watched) v = record { stays_logged = λ m h. h; stays_known = λ u h. h }

pub PumpReach-Reach :
    {rt : Runtime} {b : Backend} {storage : b.Store} {s : Pumped b}
    → PumpReach rt storage s
    → Reach rt storage s.server
PumpReach-Reach opened = start
PumpReach-Reach (moved reach (serves next step)) = later (PumpReach-Reach reach) step
PumpReach-Reach (moved reach (pumps net n pending m e)) = PumpReach-Reach reach

abbrev AllShown : {b : Backend} → Pumped b → Type 0
AllShown {b} s =
    All (IsShown (b.has_participant s.server.world.storage) (chat_log s.server.world.sent))
      s.written

module _ (rt : Runtime) (net : Network) (n : ℕ) {b : Backend} (s : Server b)
    (known : Bytes → Bool) where
  abbrev BroadcastShown : Message → Type 0
  BroadcastShown m =
      All (IsShown known (chat_log s.world.sent))
        (map (for_message m) (broadcast_message rt net n s.world m).writes)

  broadcast_chat_writes :
      (msg : ChatMessage)
      → Mem msg (chat_log s.world.sent)
      → known msg.sender ≡ true
      → BroadcastShown (chat msg)
  broadcast_chat_writes msg logged by =
      rw (broadcast_message-chat rt net n s.world msg)
        (chat_writes known (chat_log s.world.sent) msg _ logged by)

  broadcast_sys_writes : (msg : SysMessage) → BroadcastShown (sys msg)
  broadcast_sys_writes msg =
      let log = chat_log s.world.sent in
      elim (Bool-cases (is_empty msg.recipient)) [
        | inl to_all ↦
            rw (broadcast_message-sys rt net n s.world msg, to_all) (sys_writes known log msg _)
        | inr to_one ↦
            rw (broadcast_message-sys rt net n s.world msg, to_one)
              (addressed_writes known log msg (lookup s.world.connections msg.recipient))
      ]

module _ {rt : Runtime} {b : Backend} (k : KeepsNames b) (kh : KeepsHistory b) where
  pumped_writes :
      {storage : b.Store} {s : Pumped b}
      → PumpReach rt storage s
      → b.get_chat_history storage ([] ∷ []) ≡ some []
      → (net : Network) (n : ℕ) (pending : List Message) (m : Message)
      → s.server.world.sent ≡ pending ++ (m ∷ s.handled)
      → BroadcastShown rt net n s.server (b.has_participant s.server.world.storage) m
  pumped_writes {s = s} reach h net n pending (sys msg) e =
      broadcast_sys_writes rt net n s.server (b.has_participant s.server.world.storage) msg
  pumped_writes {s = s} reach h net n pending (chat msg) e =
      let logged : Mem msg (chat_log s.server.world.sent) =
        rw e (mem-chat_log pending s.handled msg) in
      let all =
        Reach-AllFrom k kh [] (λ m none. absurd (not-mem-nil none)) (PumpReach-Reach reach) in
      broadcast_chat_writes rt net n s.server (b.has_participant s.server.world.storage) msg logged
        (all msg logged)

  PumpReach-AllShown :
      {storage : b.Store} {s : Pumped b}
      → PumpReach rt storage s
      → b.get_chat_history storage ([] ∷ []) ≡ some []
      → AllShown s
  PumpReach-AllShown opened h = tt
  PumpReach-AllShown (moved {s} reach (serves next step)) h =
      let grows = Step-Grows k kh step (Reach-ServerInv k (PumpReach-Reach reach)) in
      IsShown-mono (b.has_participant s.server.world.storage) (b.has_participant next.world.storage)
        (chat_log s.server.world.sent) (chat_log next.world.sent) grows.stays_known
        grows.stays_logged s.written (PumpReach-AllShown reach h)
  PumpReach-AllShown (moved {s} reach (pumps net n pending m e)) h =
      All-append (IsShown (b.has_participant s.server.world.storage) (chat_log s.server.world.sent))
        (map (for_message m) (broadcast_message rt net n s.server.world m).writes) s.written
        (pumped_writes reach h net n pending m e) (PumpReach-AllShown reach h)

  -- Over a storage that keeps its participants and its general history, which is empty at the start,
  -- after any rounds of all the connections and of `processMessages`, in any order: every write for
  -- a chat message is the line of the message, which stands in the general history and whose sender
  -- is registered, and every write for a system message is its text.
  pub written-IsShown :
      {storage : b.Store} {s : Pumped b}
      → b.get_chat_history storage ([] ∷ []) ≡ some []
      → PumpReach rt storage s
      → (history : List ChatMessage)
      → b.get_chat_history s.server.world.storage ([] ∷ []) ≡ some history
      → All (IsShown (b.has_participant s.server.world.storage) history) s.written
  written-IsShown {s = s} h reach history now =
      let same : history ≡ chat_log s.server.world.sent =
        some-injective _ _ (sym now ∙ history-sent kh [] h (PumpReach-Reach reach)) in
      rw same (PumpReach-AllShown reach h)
