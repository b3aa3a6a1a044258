-- ===== src/Session/StepExamples.antt =====
-- Single steps of a connection over the memory storage, as inputs of the theorems.
mod Broadcasts
use Prim.Native.String.{String}
use mchat.Base.{
  is_empty, if◌then◌else◌, length, inr, ℕ, ◌≡◌, ◌≢◌, ◌≤◌, ◌↔◌, ◌%◌, refl, true, false, List, [],
  ◌∷◌, none, some, Bytes, codes, map, get_elem?, equal,
}
use mchat.TestRuntime.{test_runtime}
use mchat.Types.{ChatMessage, SysMessage, no_channel, no_participant}
use mchat.Text.Atoi.{pos}
use mchat.Dict.{lookup}
use mchat.Backend.Defs.{ChannelRef, own, stored}
use mchat.Backend.Memory.{
  new_memory_backend, memory_backend, does_channel_exist, does_participant_exist, get_chat_history,
  has_channel, has_participant,
}
use mchat.Backend.Memory.Laws.{memory_backend-IsBackend}
use mchat.Commands.{command_display_history}
use mchat.Session.State.{
  Connection, ReaderState, state_registration, state_accepting_messages, state_creating_channel,
  state_disconnecting, connected_state, is_connected, ReaderSubstate, substate_null,
  substate_reading_name, substate_reading_channel_desc, sys, chat, Thread, done, panics, blocks,
}
use mchat.Session.Texts.{chat_line}
use mchat.Session.Actions.{conn_of, with_conn, write_channel}
use mchat.Session.ConnectionMap.{new_conn, Network, broadcast_message}
use mchat.Session.ConnectionMap.Broadcast.{
  online, without_first, is_from, addressed, IsNetwork, broadcast_message-chat,
  broadcast_message_uncounted, broadcast_message-sys,
}
use mchat.Session.Submission.{current_channel, set_channel_desc}
use mchat.Session.Menu.{op_register, menu_option}
use mchat.Session.Chat.{pick, on_accept_messages_state, on_disconnect_state}
use mchat.Session.Input.{read, run_command}
use mchat.Session.Loop.{offer_options, round, transition}
use mchat.Session.Reader.Registration.{three_lines, three_lines_connect}
use mchat.Session.Reader.Chatting.{
  on_accept_messages_state_general, run_command_history, pick_iff, on_disconnect_state_removes,
}
use mchat.Session.Reader.Blocks.{Unwatched, round_blocks}
use mchat.Session.Examples.{typed}
use mchat.Session.Reader.Creating.{
  menu_option-op_register, transition_create_channel, on_accept_messages_state-blocks,
}
use mchat.Validation.{
  digits_class, domain_class, local_class, lower_class, password_class, symbols_class, upper_class,
  validate_email, validate_name, validate_password, word_class,
}

abbrev pub ip : Bytes
ip = codes "127.0.0.1:5000"

abbrev TestThread : Type 0
TestThread = Thread (memory_backend test_runtime)

-- A connection in a state of its reader.
abbrev thread_at : ReaderState → ReaderSubstate → Connection → String → TestThread
thread_at s sub c buffer = record {
  reader = record { conn = 0; state = s; substate = sub; buffer = codes buffer };
  world = record {
    heap = λ p. c;
    connections = (ip, 0) ∷ [];
    storage = new_memory_backend;
    sent = [];
    readings = 0;
  };
}

abbrev applicant : Connection
applicant = record (new_conn ip) {
  participant = record no_participant {
    username = codes "nasayer_777";
    email = codes "nasayer@gmail.com";
  };
}

abbrev naming_thread : TestThread
naming_thread = thread_at state_registration substate_reading_name (new_conn ip) ""

applicant_mapped : lookup naming_thread.connections ip ≡ some 0
unfolding lookup equal
applicant_mapped = refl

applicant_named : validate_name (codes "nasayer_777") ≡ true
unfolding validate_name word_class
applicant_named = refl

applicant_secret : validate_password (codes "NeverAgain1999#") ≡ true
unfolding validate_password password_class digits_class lower_class upper_class symbols_class
applicant_secret = refl

applicant_mail : validate_email (codes "nasayer@gmail.com") ≡ true
unfolding validate_email local_class domain_class
applicant_mail = refl

applicant_free : has_participant new_memory_backend (codes "nasayer_777") ≡ false
unfolding has_participant does_participant_exist lookup
applicant_free = refl

three_lines_connect_example :
    (t' : TestThread) × (three_lines test_runtime naming_thread
        (codes "nasayer_777")
        (codes "nasayer@gmail.com")
        (codes "NeverAgain1999#")
      ≡ done t')
    × (is_connected (conn_of t').state ≡ true)
    × (t'.state ≡ state_accepting_messages)
    × (has_participant t'.storage (codes "nasayer_777") ≡ true)
    × ((conn_of t').is_watched ≡ true)
three_lines_connect_example =
    three_lines_connect test_runtime (memory_backend-IsBackend test_runtime) naming_thread
      (codes "nasayer_777") (codes "nasayer@gmail.com") (codes "NeverAgain1999#") refl refl
      applicant_mapped applicant_named applicant_mail applicant_secret applicant_free

abbrev member : Connection
member = record applicant { state = connected_state; is_watched = true }

abbrev pub chatting_thread : TestThread
chatting_thread = thread_at state_accepting_messages substate_null member "hello"

empty_history : get_chat_history new_memory_backend ([] ∷ []) ≡ some []
unfolding get_chat_history equal
empty_history = refl

on_accept_messages_state_general_example :
    (t' : TestThread) × (m : ChatMessage) × (on_accept_messages_state test_runtime chatting_thread
      ≡ done t')
    × (m.contents ≡ codes "hello")
    × (m.sender ≡ codes "nasayer_777")
    × ((n : Bytes)
        → get_chat_history t'.storage (n ∷ [])
          ≡ (if is_empty n then some (m ∷ []) else get_chat_history new_memory_backend (n ∷ [])))
on_accept_messages_state_general_example =
    on_accept_messages_state_general test_runtime (memory_backend-IsBackend test_runtime)
      chatting_thread refl refl [] empty_history

not_empty : codes "nowhere" ≢ []
not_empty h = cc

abbrev leaving_thread : TestThread
leaving_thread = thread_at state_disconnecting substate_null member ""

leaver_mapped : lookup leaving_thread.connections ip ≡ some 0
unfolding lookup equal
leaver_mapped = refl

on_disconnect_state_removes_example :
    (t' : TestThread) × (on_disconnect_state test_runtime leaving_thread ≡ done t')
    × ((conn_of t').is_closed ≡ true)
    × ((conn_of t').is_cancelled ≡ true)
    × ((other : Bytes)
        → lookup t'.connections other
          ≡ (if equal ip other then none else lookup leaving_thread.connections other))
on_disconnect_state_removes_example =
    on_disconnect_state_removes test_runtime leaving_thread refl leaver_mapped

abbrev creator : Connection
creator = record applicant { channel = own (record no_channel { name = codes "Dragonflies" }) }

abbrev creating_thread : TestThread
creating_thread =
    thread_at state_creating_channel substate_reading_channel_desc creator "about insects"

channel_named : validate_name (current_channel (set_channel_desc creating_thread)).name ≡ true
unfolding validate_name word_class write_channel
channel_named = refl

channel_free :
    has_channel
      (set_channel_desc creating_thread).storage
      (current_channel (set_channel_desc creating_thread)).name
    ≡ false
unfolding has_channel does_channel_exist write_channel lookup
channel_free = refl

transition_create_channel_example :
    (t' : TestThread) × (transition test_runtime state_creating_channel creating_thread ≡ done t')
    × (t'.state ≡ state_accepting_messages)
    × (has_channel t'.storage (current_channel (set_channel_desc creating_thread)).name ≡ true)
    × ((conn_of t').state ≡ creator.state)
    × ((conn_of t').is_watched ≡ creator.is_watched)
transition_create_channel_example =
    transition_create_channel test_runtime creating_thread (memory_backend-IsBackend test_runtime)
      refl refl channel_named channel_free

abbrev unwatched_thread : TestThread
unwatched_thread =
    with_conn chatting_thread (record (conn_of chatting_thread) { is_watched = false })

-- A connection that came past the log in by the menu, at its first message.
round_blocks_example :
    (round test_runtime unwatched_thread (typed "hello") ≡ blocks)
    ↔ Unwatched (read test_runtime (offer_options test_runtime unwatched_thread) (typed "hello"))
round_blocks_example = round_blocks test_runtime unwatched_thread (typed "hello")
