-- ===== src/Session/Examples/Logs.antt =====
-- A chat message of the first of two registered connections, and where it ends up.
use Prim.Native.String.{String}
use mathlib.Core.List.{Mem, mem-cons_self, not-mem-nil}
use mchat.Base.{true, codes, ◌≡◌, refl, List, [], ◌∷◌, some, length, equal}
use mchat.TestRuntime.{test_runtime}
use mchat.Types.{ChatMessage}
use mchat.Backend.Memory.{has_participant, new_memory_backend, get_chat_history}
use mchat.Backend.Memory.Laws.{memory_backend-KeepsHistory, memory_backend-KeepsNames}
use mchat.Session.Input.{ReadEvent}
use mchat.Session.Server.{accept}
use mchat.Session.Reader.Log.{chat_log}
use mchat.Session.Server.Authors.{registered_senders}
use mchat.Session.Examples.{run, typed}
use mchat.Session.Examples.Sessions.{
  TestServer, TestReach, play, both_in, both_in_reached, both_read, the_reader, play_reached,
  first_conn,
}

abbrev pub said_lines : List ReadEvent
said_lines = typed "hello" ∷ typed "is anybody there?" ∷ []

abbrev pub said : TestServer
said = play both_in first_conn (the_reader (both_in.readers first_conn)) said_lines

pub said_reached : TestReach said
unfolding run accept
said_reached =
    play_reached both_in first_conn (the_reader (both_in.readers first_conn)) said_lines both_read.0
      refl both_in_reached

pub nobody_said : get_chat_history new_memory_backend ([] ∷ []) ≡ some []
unfolding get_chat_history equal
nobody_said = refl

-- The log has both messages.
two_logged : length (chat_log said.world.sent) ≡ 2
unfolding run accept chat_log
two_logged = refl

abbrev pub message_of : String → ChatMessage
message_of text = record {
  contents = codes text;
  sender = codes "nasayer_777";
  channel = [];
  sent_time = codes "10:00:00";
}

abbrev first_said : ChatMessage
first_said = message_of "hello"

abbrev pub all_said : List ChatMessage
all_said = first_said ∷ message_of "is anybody there?" ∷ []

pub said_history : get_chat_history said.world.storage ([] ∷ []) ≡ some all_said
unfolding run accept get_chat_history equal
said_history = refl

nobody_unregistered :
    (m : ChatMessage) → Mem m [] → has_participant new_memory_backend m.sender ≡ true
nobody_unregistered m h = absurd (not-mem-nil h)

registered_senders_example : has_participant said.world.storage (codes "nasayer_777") ≡ true
registered_senders_example =
    registered_senders (memory_backend-KeepsNames test_runtime)
      (memory_backend-KeepsHistory test_runtime) {storage = new_memory_backend} [] nobody_said
      nobody_unregistered said_reached all_said said_history first_said mem-cons_self
