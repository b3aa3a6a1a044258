-- ===== src/Session/Examples/Overlaps.antt =====
-- Two messages of two connections that are handed over in the other order than they are stored.
use Prim.Native.String.{String}
use mathlib.Core.List.{Perm, flatten}
use mchat.Base.{
  ℕ, ◌≡◌, refl, Bool, true, List, [], ◌∷◌, ◌++◌, some, codes, false, Bytes, all, not, ◌==◌, equal,
}
use mchat.TestRuntime.{test_runtime}
use mchat.Types.{ChatMessage, build_sys_msg}
use mchat.Backend.Memory.{new_memory_backend, memory_backend, get_chat_history}
use mchat.Backend.Memory.Laws.{memory_backend-KeepsHistory}
use mchat.Session.State.{
  is_connected, sys, Reader, Outcome, done, panics, blocks, state_accepting_messages,
}
use mchat.Session.Input.{no_error, read, process_command}
use mchat.Session.Loop.{offer_options, round}
use mchat.Session.Server.{start, later, thread, ends, accept}
use mchat.Session.Server.Overlap.{
  Held, Overlapping, OverlapStep, OverlapReach, alone, further, serves, stores, sends, store_part,
  hand_over,
}
use mchat.Session.Server.Overlap.Shuffled.{stored_sent}
use mchat.Session.Reader.Log.{chat_log}
use mchat.Session.Texts.{chat_line}
use mchat.Session.Server.History.{all_lines, history_line, history_shown}
use mchat.Text.{trim_left, trim_right}
use mchat.Util.{trim_whitespaces}
use mchat.Session.Examples.{TestThread, thread_of, run, typed}
use mchat.Session.Examples.Sessions.{
  TestServer, TestReach, both_in, both_in_reached, the_reader, goes_on?, turn_goes_on,
}
use mchat.Session.Examples.Logs.{nobody_said, message_of}

abbrev TestOverlap : Type 0
TestOverlap = Overlapping (memory_backend test_runtime)

abbrev TestOverlapReach : TestOverlap → Type 0
TestOverlapReach = OverlapReach test_runtime new_memory_backend

abbrev nothing_held : TestServer → TestOverlap
nothing_held s = record { server = s; held = []; checked = [] }

nothing_held_reached : {s : TestServer} → TestReach s → TestOverlapReach (nothing_held s)
nothing_held_reached start = alone
nothing_held_reached (later {s' = s'} reach step) =
    further (nothing_held_reached reach) (serves s' step)

abbrev no_message : ChatMessage
no_message = record { contents = []; sender = []; channel = []; sent_time = [] }

-- what a line of the p-th connection leaves behind once its message is stored
abbrev processed : TestServer → ℕ → String → Outcome (TestThread × Bool)
processed s p text = process_command test_runtime (
    read test_runtime (offer_options test_runtime (thread (the_reader (s.readers p)) s.world))
      (typed text))

abbrev parsed : TestServer → ℕ → String → TestThread
parsed s p text = thread_of (processed s p text)

abbrev part_of : TestThread → Outcome (TestThread × ChatMessage) → TestThread × ChatMessage
part_of t (done r) = r
part_of t panics = (t, no_message)
part_of t blocks = (t, no_message)

abbrev part : TestServer → ℕ → String → TestThread × ChatMessage
part s p text = part_of (parsed s p text) (store_part test_runtime (parsed s p text))

abbrev is_stored : Outcome (TestThread × ChatMessage) → Bool
is_stored (done r) = true
is_stored _ = false

part_of_lem :
    (t : TestThread) (o : Outcome (TestThread × ChatMessage))
    → is_stored o ≡ true
    → o ≡ done (part_of t o)
part_of_lem t (done r) h = refl
part_of_lem t panics h = cc
part_of_lem t blocks h = cc

abbrev held_of : ℕ → TestThread × ChatMessage → Held
held_of p (t, m) = record { number = p; reader = t.reader; msg = m }

abbrev first_part : TestThread × ChatMessage
first_part = part both_in 0 "hello"

abbrev one_stored : TestOverlap
one_stored = record {
  server = ends both_in 0 first_part.0;
  held = held_of 0 first_part ∷ [];
  checked = [];
}

abbrev second_part : TestThread × ChatMessage
second_part = part one_stored.server 1 "is anybody there?"

abbrev both_stored : TestOverlap
both_stored = record {
  server = ends one_stored.server 1 second_part.0;
  held = held_of 1 second_part ∷ held_of 0 first_part ∷ [];
  checked = [];
}

-- the second message is handed over, the first one is not
abbrev one_sent : TestOverlap
one_sent = record {
  server = hand_over both_stored.server (held_of 1 second_part);
  held = held_of 0 first_part ∷ [];
  checked = [];
}

abbrev both_sent : TestOverlap
both_sent = record {
  server = hand_over one_sent.server (held_of 0 first_part);
  held = [];
  checked = [];
}

stores_line :
    (s : TestOverlap) (p : ℕ) (text : String)
    → s.server.readers p ≡ some (the_reader (s.server.readers p))
    → goes_on? (processed s.server p text) ≡ true
    → (parsed s.server p text).state ≡ state_accepting_messages
    → is_stored (store_part test_runtime (parsed s.server p text)) ≡ true
    → OverlapStep test_runtime s (record s {
      server = ends s.server p (part s.server p text).0;
      held = held_of p (part s.server p text) ∷ s.held;
    })
stores_line s p text at on accepting stored =
    stores p (the_reader (s.server.readers p)) (typed text) (parsed s.server p text)
      (part s.server p text).0 (part s.server p text).1 at
      (turn_goes_on (processed s.server p text) on) accepting
      (part_of_lem (parsed s.server p text) (store_part test_runtime (parsed s.server p text))
        stored)

first_stored_reached : TestOverlapReach one_stored
unfolding run accept store_part
first_stored_reached =
    further (nothing_held_reached both_in_reached)
      (stores_line (nothing_held both_in) 0 "hello" refl refl refl refl)

both_stored_reached : TestOverlapReach both_stored
unfolding run accept store_part
both_stored_reached =
    further first_stored_reached (stores_line one_stored 1 "is anybody there?" refl refl refl refl)

both_sent_reached : TestOverlapReach both_sent
both_sent_reached =
    further
      (further both_stored_reached
        (sends [] (held_of 0 first_part ∷ []) (held_of 1 second_part) refl))
      (sends [] [] (held_of 0 first_part) refl)

stored_sent_example :
    (h : List ChatMessage) × (get_chat_history both_sent.server.world.storage ([] ∷ [])
      ≡ some ([] ++ h))
    × Perm h (chat_log both_sent.server.world.sent ++ [])
stored_sent_example =
    stored_sent test_runtime (memory_backend-KeepsHistory test_runtime)
      {storage = new_memory_backend} [] nobody_said both_sent_reached

abbrev last_reader : Reader
last_reader = the_reader (both_sent.server.readers 0)

in_chat :
    (both_sent.server.readers 0 ≡ some last_reader)
    × (last_reader.state ≡ state_accepting_messages)
    × (is_connected (both_sent.server.world.heap last_reader.conn).state ≡ true)
unfolding run accept store_part
in_chat = (refl, refl, refl)

abbrev both_said : List ChatMessage
both_said =
    message_of "hello"
    ∷ record (message_of "is anybody there?") { sender = codes "somebody_else" }
    ∷ []

both_said_history : get_chat_history both_sent.server.world.storage ([] ∷ []) ≡ some both_said
unfolding run accept store_part get_chat_history equal
both_said_history = refl

both_plain : all (λ c. not (c == b'%')) (all_lines both_said) ≡ true
unfolding run accept store_part flatten chat_line
both_plain = refl

abbrev asked : Bytes
asked = codes ":history\r\n"

asked_trimmed : trim_whitespaces asked ≡ history_line
unfolding trim_whitespaces trim_left trim_right
asked_trimmed = refl

history_shown_example :
    Perm both_said (chat_log both_sent.server.world.sent ++ [])
    × (t' : TestThread) × (round test_runtime
          (thread last_reader both_sent.server.world)
          (record { bytes = asked; err = no_error })
        ≡ done (t', false))
    × (t'.sent
        ≡ sys (
            build_sys_msg
              (all_lines both_said)
              ((both_sent.server.world.heap last_reader.conn).ip_addr ∷ [])
              (codes "10:00:00"))
          ∷ both_sent.server.world.sent)
history_shown_example =
    history_shown (memory_backend-KeepsHistory test_runtime) {storage = new_memory_backend}
      nobody_said both_sent_reached both_said both_said_history refl both_plain 0 last_reader
      in_chat.0 in_chat.1 in_chat.2 asked asked_trimmed refl
