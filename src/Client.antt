-- ===== src/Client.antt =====
-- pkg/client/client.go: the attempts to connect, and the three goroutines of a client, which hand
-- messages over to one another. A send and its receive are one step.
pub mod Dialing
pub mod Streams
mod Examples
use mchat.Base.{
  ℕ, zero, suc, ◌+◌, ◌≡◌, Bool, true, false, not, List, [], ◌∷◌, ◌++◌, Option, none, some, leb,
  Bytes, codes, is_empty, if◌then◌else◌,
}
use mchat.Text.Atoi.{ℤ, pos, negsuc}
use mchat.Types.{ChatMessage, build_chat_msg}
use mchat.Util.{trim_whitespaces}
use mchat.Session.Input.{ReadEvent, ReadError, no_error, eof, failed}

-- `retries >= c.config.RetriesCount`
abbrev pub is_last : ℕ → ℤ → Bool
is_last retries (pos retries_count) = leb retries_count retries
is_last retries (negsuc n) = true

-- Whether each `Dial` connects is given; the result is the last attempt, counted from 0, and whether
-- it connected, or `none` where the fuel ran out.
unfoldable pub try_connect : ℕ → ℤ → (ℕ → Bool) → ℕ → Option (ℕ × Bool)
try_connect zero retries_count dial retries = none
try_connect (suc fuel) retries_count dial retries =
    let rest = try_connect fuel retries_count dial (retries + 1) in
    if dial retries
    then some (retries, true)
    else if is_last retries retries_count
    then some (retries, false)
    else rest

pub data MainState : Type 0 where
  in_select main_returned : MainState

-- `handleRemoteConnection` reads, or waits for its message to be taken.
pub data ReceiverState : Type 0 where
  receiving receiver_returned : ReceiverState
  incoming : ChatMessage → ReceiverState

-- `processInput` is at its `select`, reads the input, or waits for its message to be taken.
pub data InputState : Type 0 where
  checking typing input_returned : InputState
  outgoing : ChatMessage → InputState

-- `received` and `typed` are what the reads have returned so far, `printed` and `written` what was
-- printed and given to `WriteBytes`.
pub record Client : Type 0 where
  pub main : MainState
  pub receiver : ReceiverState
  pub input : InputState
  pub is_cancelled : Bool
  pub is_closed : Bool
  pub received : List ReadEvent
  pub typed : List ReadEvent
  pub printed : List Bytes
  pub written : List Bytes

-- `Run` with its goroutines started
abbrev pub run : Client
run = record {
  main = in_select;
  receiver = receiving;
  input = checking;
  is_cancelled = false;
  is_closed = false;
  received = [];
  typed = [];
  printed = [];
  written = [];
}

abbrev pub is_failed : ReadError → Bool
is_failed failed = true
is_failed _ = false

-- `types.BuildChatMsg(bytes, "none")`
abbrev pub message : Bytes → Bytes → ChatMessage
message bytes now = build_chat_msg bytes (codes "none") [] now

-- a read of the connection
unfoldable pub handle_remote : Client → ReadEvent → Bytes → Client
handle_remote c e now =
    let c = record c { received = c.received ++ (e ∷ []) } in
    if is_failed e.err
    then record c { is_cancelled = true; receiver = receiver_returned }
    else if is_empty e.bytes
    then record c { is_cancelled = true; receiver = receiver_returned }
    else record c { receiver = incoming (message e.bytes now) }

-- a read of the input
unfoldable pub process_input : Client → ReadEvent → Bytes → Client
process_input c e now =
    let c = record c { typed = c.typed ++ (e ∷ []) } in
    if is_failed e.err
    then record c { input = input_returned }
    else record c { input = outgoing (message (trim_whitespaces e.bytes) now) }

pub data Step (c : Client) : Client → Type 0 where
  receives : (e : ReadEvent) (now : Bytes) → c.receiver ≡ receiving → Step c (handle_remote c e now)
  prints :
      (m : ChatMessage)
      → c.main ≡ in_select
      → c.receiver ≡ incoming m
      → Step c (record c { receiver = receiving; printed = c.printed ++ (m.contents ∷ []) })
  checks :
      c.input ≡ checking
      → Step c (record c { input = if c.is_cancelled then input_returned else typing })
  types : (e : ReadEvent) (now : Bytes) → c.input ≡ typing → Step c (process_input c e now)
  writes :
      (m : ChatMessage)
      → c.main ≡ in_select
      → c.input ≡ outgoing m
      → Step c (record c { input = checking; written = c.written ++ (m.contents ∷ []) })
  quits :
      c.main ≡ in_select
      → c.is_cancelled ≡ true
      → Step c (record c { main = main_returned; is_closed = true })

pub data Reach : Client → Type 0 where
  starts : Reach run
  later : {c c' : Client} → Reach c → Step c c' → Reach c'
