-- ===== src/TestSetup/Examples.antt =====
-- The comparisons and the start at concrete inputs.
use mathlib.Core.List
use mathlib.Core.List.{Nodup-cons, Nodup-nil, not-mem-nil}
use mchat.Base.{◌≡◌, ◌↔◌, ◌||◌, refl, true, false, List, [], ◌∷◌, map, codes, equal, if◌then◌else◌}
use mchat.TestRuntime.{test_runtime}
use mchat.Text.{contains, has_prefix}
use mchat.Types.{ChatMessage}
use mchat.Session.Input.{no_error, eof}
use mchat.TestSetup.{
  returned, waits, Output, match, all_contained, contains_message, setup_redis_mock, await_ready,
  ready_text, contains_participant, contains_channel, client_mock, read_all,
}
use mchat.Session.State.{done, panics}
use mchat.TestSetup.Fixtures.{general_messages, participants, channels}
use mchat.TestSetup.Matching.Keys.{message_key, match_messages}
use mchat.TestSetup.Starting.{printed, setup_redis_mock_ready, setup_redis_mock_returned}

one_sided : List.Nodup (map message_key general_messages)
one_sided = Nodup-cons.1 (not-mem-nil, Nodup-nil)

match_messages_example :
    (match general_messages general_messages contains_message ≡ true)
    ↔ List.Perm (map message_key general_messages) (map message_key general_messages)
match_messages_example = match_messages general_messages general_messages one_sided

-- Two equal messages on the left hide that one on the right is another one.
abbrev twice : List ChatMessage → List ChatMessage
twice [] = []
twice (m ∷ ms) = m ∷ m ∷ []

abbrev and_another : List ChatMessage → List ChatMessage
and_another [] = []
and_another (m ∷ ms) = m ∷ record m { contents = codes "another one" } ∷ []

twice_matches :
    match (twice general_messages) (and_another general_messages) contains_message ≡ true
unfolding match all_contained equal contains_message
twice_matches = refl

participants_match :
    match (participants test_runtime) (participants test_runtime) contains_participant ≡ true
unfolding match all_contained equal contains_participant
participants_match = refl

channels_match : match channels channels contains_channel ≡ true
unfolding match all_contained equal contains_channel
channels_match = refl

-- The text comes in two reads.
abbrev two_reads : List Output
two_reads =
    record { is_late = false; stdout = record { bytes = codes "* Ready to acc"; err = no_error } }
    ∷ record {
      is_late = false;
      stdout = record { bytes = codes "ept connections tcp"; err = no_error };
    }
    ∷ []

setup_redis_mock_ready_example :
    setup_redis_mock false false two_reads
    ≡ (if contains (printed two_reads) ready_text then returned true false else waits)
setup_redis_mock_ready_example = setup_redis_mock_ready two_reads refl

two_reads_ready : setup_redis_mock false false two_reads ≡ returned true false
unfolding setup_redis_mock await_ready contains has_prefix
two_reads_ready = refl

-- The container ends before redis is ready.
abbrev cut_off : List Output
cut_off = record { is_late = false; stdout = record { bytes = []; err = eof } } ∷ []

cut_off_returned : setup_redis_mock false false cut_off ≡ returned true false
unfolding setup_redis_mock await_ready
cut_off_returned = refl

setup_redis_mock_returned_example :
    (setup_redis_mock false true cut_off ≡ returned false true)
    ↔ (((false || true) ≡ true) × (false ≡ false))
setup_redis_mock_returned_example = setup_redis_mock_returned false true false cut_off

no_callbacks : client_mock true true false [] ≡ panics
unfolding client_mock read_all
no_callbacks = refl

mock_ends : client_mock false true false (no_error ∷ eof ∷ []) ≡ done tt
unfolding client_mock read_all
mock_ends = refl
