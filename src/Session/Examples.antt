-- ===== src/Session/Examples.antt =====
-- Conversations with the server over the memory storage, and the theorems at such inputs.
mod Sessions
mod Deliveries
mod Logs
mod Overlaps
mod Crashes
mod Pumping
use Prim.Native.String.{String}
use mchat.Base.{◌≡◌, refl, Bool, true, false, List, [], ◌∷◌, ◌++◌, Bytes, codes, equal}
use mchat.TestRuntime.{test_runtime}
use mchat.Types.{build_chat_msg, build_sys_msg}
use mchat.Text.Atoi.{atoi}
use mchat.Dict.{delete, insert, lookup}
use mchat.Backend.Memory.{
  new_memory_backend, memory_backend, does_channel_exist, does_participant_exist, get_chat_history,
  has_channel, has_participant, register_channel, register_participant, store_message,
}
use mchat.Backend.Memory.Laws.{memory_backend-KeepsNames}
use mchat.Commands.{
  command_table, find_command, match_options, parse_arguments, parse_command, parse_words,
  set_period,
}
use mchat.Session.State.{
  ReaderState, state_authentication, state_accepting_messages, is_connected, substate_reading_name,
  Thread, Outcome, done, panics, blocks, match_state,
}
use mchat.Session.Actions.{conn_of, display_chat_history, notice, notice_line, reply, write_channel}
use mchat.Session.ConnectionMap.{new_conn, mark_as_connected, remove_conn}
use mchat.Session.Submission.{
  admit, auth_step, channel_step, enter_chat, mark_connected, on_auth_participant_state,
  on_create_channel_state, on_register_participant_state, register, register_step, validate,
  validate_channel, validate_participant, validate_registration,
}
use mchat.Session.Menu.{choose, menu_option, on_joining_state, option_byte, report_option}
use mchat.Session.Chat.{on_accept_messages_state, on_disconnect_state}
use mchat.Session.Input.{
  ReadEvent, no_error, after_read, process_command, read, run_command, run_parsed, show_history,
}
use mchat.Session.Loop.{
  new_reader, finish_round, handle_line, offer_options, round, rounds, transition,
}
use mchat.Session.Reader.Invariant.{is_outside}
use mchat.Session.Reader.Authentication.{IsFresh, rounds_connected, rounds_log_in}
use mchat.Text.{cut, has_prefix, split, to_lower}
use mchat.Util.{sha256_checksum, trim_whitespaces}
use mchat.Validation.{
  digits_class, domain_class, hex_class, local_class, lower_class, password_class, symbols_class,
  upper_class, validate_email, validate_name, validate_password, validate_password_sha256,
  word_class,
}

abbrev pub ip : Bytes
ip = codes "127.0.0.1:5000"

abbrev pub TestThread : Type 0
TestThread = Thread (memory_backend test_runtime)

abbrev pub new_thread : TestThread
new_thread = record {
  reader = new_reader 0;
  world = record {
    heap = λ p. new_conn ip;
    connections = (ip, 0) ∷ [];
    storage = new_memory_backend;
    sent = [];
    readings = 0;
  };
}

abbrev pub typed : String → ReadEvent
typed s = record { bytes = codes s; err = no_error }

abbrev registration : List ReadEvent
registration =
    typed "1" ∷ typed "nasayer_777" ∷ typed "nasayer@gmail.com" ∷ typed "NeverAgain1999#" ∷ []

-- the loop of a connection on these lines
unfoldable pub run : List ReadEvent → Outcome (TestThread × Bool)
unfolding rounds round transition offer_options handle_line finish_round read after_read
    process_command run_command run_parsed show_history on_joining_state choose report_option
    menu_option option_byte on_register_participant_state register_step validate
    validate_participant validate_registration register admit enter_chat mark_connected
    on_auth_participant_state auth_step on_create_channel_state channel_step validate_channel
    on_accept_messages_state on_disconnect_state write_channel notice notice_line reply
    display_chat_history mark_as_connected remove_conn match_state has_channel register_channel
    has_participant register_participant get_chat_history store_message does_channel_exist
    does_participant_exist lookup insert delete parse_command parse_words command_table
    parse_arguments find_command match_options set_period has_prefix split to_lower cut atoi equal
    trim_whitespaces validate_name validate_password validate_email password_class digits_class
    lower_class upper_class symbols_class word_class local_class domain_class
    validate_password_sha256 hex_class sha256_checksum build_sys_msg build_chat_msg
run = rounds test_runtime new_thread

-- what of a run is compared: the state, whether the connection is connected, and whether it has left
abbrev summary : Outcome (TestThread × Bool) → Outcome (ReaderState × Bool × Bool)
summary (done (t, left)) = done (t.state, is_connected (conn_of t).state, left)
summary panics = panics
summary blocks = blocks

registered_run : summary (run registration) ≡ done (state_accepting_messages, true, false)
unfolding run
registered_run = refl

-- A channel is made by who has not registered, whose next line waits for ever.
abbrev bypass : List ReadEvent
bypass = typed "1" ∷ typed ":menu" ∷ typed "3" ∷ typed "Dragonflies" ∷ typed "about insects" ∷ []

unauthenticated_creator : summary (run bypass) ≡ done (state_accepting_messages, false, false)
unfolding run
unauthenticated_creator = refl

blocked_run : summary (run (bypass ++ (typed "hello" ∷ []))) ≡ blocks
unfolding run
blocked_run = refl

-- The history of a channel that is not there stops the server.
panicking_run : summary (run (registration ++ (typed ":history -channel nowhere" ∷ []))) ≡ panics
unfolding run
panicking_run = refl

abbrev pub thread_of : Outcome (TestThread × Bool) → TestThread
thread_of (done (t, left)) = t
thread_of _ = new_thread

abbrev registered_thread : TestThread
registered_thread = thread_of (rounds test_runtime new_thread registration)

new_thread-IsFresh : IsFresh new_thread
unfolding run
new_thread-IsFresh = record {
  is_mapped = refl;
  is_pending = refl;
  is_unwatched = refl;
  is_joining = refl;
}

registered : rounds test_runtime new_thread registration ≡ done (registered_thread, false)
unfolding run
registered = refl

is_in : is_connected (conn_of registered_thread).state ≡ true
unfolding run
is_in = refl

rounds_connected_example :
    (validate_name (conn_of registered_thread).participant.username ≡ true)
    × (has_participant registered_thread.storage (conn_of registered_thread).participant.username
        ≡ true)
    × (is_outside registered_thread.state ≡ false)
rounds_connected_example =
    rounds_connected test_runtime (memory_backend-KeepsNames test_runtime) new_thread
      registered_thread registration new_thread-IsFresh registered is_in

abbrev log_in : List ReadEvent
log_in = typed "2" ∷ typed "nasayer_777" ∷ typed "NeverAgain1999#" ∷ []

abbrev logging_in_thread : TestThread
logging_in_thread = thread_of (rounds test_runtime new_thread log_in)

logging_in : rounds test_runtime new_thread log_in ≡ done (logging_in_thread, false)
unfolding run
logging_in = refl

logs_in : logging_in_thread.state ≡ state_authentication
unfolding run
logs_in = refl

rounds_log_in_example :
    (logging_in_thread.substate ≡ substate_reading_name)
    × (is_connected (conn_of logging_in_thread).state ≡ false)
rounds_log_in_example =
    rounds_log_in test_runtime (memory_backend-KeepsNames test_runtime) new_thread logging_in_thread
      log_in new_thread-IsFresh logging_in logs_in
