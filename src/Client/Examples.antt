-- ===== src/Client/Examples.antt =====
-- A client that connects at its third attempt, prints a message and sends a line.
use Prim.Native.String.{String}
use mchat.Base.{
  ℕ, ◌≡◌, ◌≤◌, refl, Bool, true, not, ◌||◌, ◌++◌, any, some, arith, Bytes, codes, ◌==◌, [], ◌∷◌,
}
use mchat.Text.Atoi.{pos}
use mchat.Session.Input.{ReadEvent, no_error}
use mchat.Types.{build_chat_msg}
use mchat.Util.{trim_whitespaces}
use mchat.Client.{
  Client, run, message, handle_remote, process_input, checking, receiving, typing, try_connect,
  Reach, starts, later, receives, prints, checks, types, writes,
}
use mchat.Client.Dialing.{last_attempt, all_fail, try_connect_total}
use mchat.Client.Streams.{unprinted, unwritten, relays_reached}
use mchat.Client.Streams.Chunks.{chunks, lines, is_last_read}

abbrev third_connects : ℕ → Bool
third_connects k = k == 2

try_connect_total_example :
    (k : ℕ) × (try_connect 6 (pos 5) third_connects 0 ≡ some (k, third_connects k))
    × (k ≤ last_attempt (pos 5))
    × (all_fail third_connects k ≡ true)
    × ((third_connects k || k == last_attempt (pos 5)) ≡ true)
try_connect_total_example = try_connect_total 6 (pos 5) third_connects (omega arith)

abbrev event : String → ReadEvent
event s = record { bytes = codes s; err = no_error }

abbrev now : Bytes
now = codes "10:00:00"

abbrev greeted : Client
greeted = handle_remote run (event "welcome") now

abbrev greeting_printed : Client
greeting_printed = record greeted {
  receiver = receiving;
  printed = greeted.printed ++ ((message (codes "welcome") now).contents ∷ []);
}

abbrev ready : Client
ready = record greeting_printed { input = typing }

abbrev answered : Client
answered = process_input ready (event " hello\n") now

abbrev answer_sent : Client
answer_sent = record answered {
  input = checking;
  written = answered.written ++ ((message (codes "hello") now).contents ∷ []);
}

answer_sent_reached : Reach answer_sent
unfolding handle_remote process_input build_chat_msg trim_whitespaces
answer_sent_reached =
    later
      (later
        (later
          (later (later starts (receives (event "welcome") now refl))
            (prints (message (codes "welcome") now) refl refl))
          (checks refl))
        (types (event " hello\n") now refl))
      (writes (message (codes "hello") now) refl refl)

relays_reached_example :
    (answer_sent.printed ++ unprinted answer_sent.receiver ≡ chunks answer_sent.received)
    × (answer_sent.written ++ unwritten answer_sent.input ≡ lines answer_sent.typed)
    × ((not answer_sent.is_closed || any is_last_read answer_sent.received) ≡ true)
relays_reached_example = relays_reached answer_sent_reached
