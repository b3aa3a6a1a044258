-- ===== src/Backend/Redis/Examples.antt =====
-- Calls of the storage over the database of the examples.
use mathlib.Core.List.{Mem}
use mchat.Backend.Contract.{KeepsNames}
use mchat.Backend.Redis.Storage.{redis_backend, redis_backend-KeepsNames}
use mchat.Base.{
  ℕ, ◌≡◌, ◌↔◌, refl, true, false, [], ◌∷◌, List, Option, none, some, Bytes, codes, equal,
}
use mchat.TestRuntime.{test_runtime}
use mchat.Dict.{lookup, insert}
use mchat.Types.{Participant, ChatMessage, Channel}
use mchat.Text.{ends_with}
use mchat.Util.{sha256_checksum}
use mchat.Validation.{validate_password_sha256, hex_class}
use mchat.Backend.Redis.{
  does_participant_exist, does_channel_exist, set_fields, register_participant, delete_channel,
  auth_participant, store_message, register_channel, get_chat_history, get_channels,
  get_participants,
}
use mchat.Backend.Redis.Fields.{message_of, message_id}
use mchat.Backend.Redis.Keys.{is_time}
use mchat.Backend.Redis.Sound.{IsSound}
use mchat.Backend.Redis.Calls.{IsEmpty, Reach, begins, calls, stores, Reach-IsSound, reads_reached}
use mchat.Backend.Redis.Accounts.{get_participants-register, redis_auth_participant-register}
use mchat.Backend.Redis.Messages.{is_open, get_chat_history-store, store_message_replaces}
use mchat.Backend.Redis.Sharing.{delete_channel_shared}
use mchat.Backend.Redis.TestClient.{Database, test_client, test_client-IsRedis, contains, remove}

abbrev empty_database : Database
empty_database = record { sets = λ k. []; hashes = λ k. [] }

empty_database-IsEmpty : IsEmpty test_client empty_database
unfolding contains lookup
empty_database-IsEmpty = record { no_members = λ k m. refl; no_fields = λ k f. refl }

empty_reached : Reach test_client test_runtime empty_database
empty_reached = begins empty_database-IsEmpty

empty-IsSound : IsSound test_client test_runtime empty_database
empty-IsSound = Reach-IsSound test_client test_runtime test_client-IsRedis empty_reached

abbrev or_unchanged : Option Database → Database
or_unchanged none = empty_database
or_unchanged (some d) = d

abbrev member : Participant
member = record {
  username = codes "nasayer_777";
  password = codes "NeverAgain1999#";
  email = codes "nasayer@gmail.com";
  join_time = codes "10:00:00";
}

abbrev with_member : Database
with_member = or_unchanged (register_participant test_client test_runtime empty_database member)

member_registers :
    register_participant test_client test_runtime empty_database member ≡ some with_member
unfolding register_participant sha256_checksum validate_password_sha256 hex_class
    does_participant_exist contains set_fields insert
member_registers = refl

get_participants-register_example :
    (ps : List Participant) × (get_participants test_client test_runtime with_member ≡ some ps)
    × Mem (record member { password = sha256_checksum test_runtime member.password }) ps
get_participants-register_example =
    get_participants-register test_client test_runtime test_client-IsRedis empty_database
      with_member empty-IsSound member member_registers

redis_auth_participant-register_example :
    (auth_participant test_client test_runtime with_member member ≡ true)
    ↔ (test_runtime.sum256 member.password ≡ test_runtime.sum256 member.password)
redis_auth_participant-register_example =
    redis_auth_participant-register test_client test_runtime test_client-IsRedis empty_database
      with_member empty-IsSound member member_registers member refl

abbrev message_in : Bytes → Bytes → ChatMessage
message_in channel contents = record {
  contents = contents;
  sender = member.username;
  channel = channel;
  sent_time = codes "10:00:00";
}

abbrev hello : ChatMessage
hello = message_in [] (codes "hello")

abbrev goodbye : ChatMessage
goodbye = message_in [] (codes "goodbye")

abbrev now : Bytes
now = codes "2024-05-21 10:00:00"

now-is_time : is_time now ≡ true
unfolding ends_with
now-is_time = refl

abbrev with_hello : Database
with_hello = or_unchanged (store_message test_client test_runtime empty_database hello now)

hello_stores : store_message test_client test_runtime empty_database hello now ≡ some with_hello
unfolding store_message
hello_stores = refl

abbrev with_goodbye : Database
with_goodbye = or_unchanged (store_message test_client test_runtime with_hello goodbye now)

goodbye_stores : store_message test_client test_runtime with_hello goodbye now ≡ some with_goodbye
unfolding store_message
goodbye_stores = refl

get_chat_history-store_example :
    (history : List ChatMessage) × (get_chat_history test_client test_runtime with_hello ([] ∷ [])
      ≡ some history)
    × Mem hello history
get_chat_history-store_example =
    get_chat_history-store test_client test_runtime test_client-IsRedis empty_database with_hello
      empty-IsSound hello now now-is_time hello_stores

store_message_replaces_example :
    (history : List ChatMessage) × (get_chat_history test_client test_runtime with_goodbye ([] ∷ [])
      ≡ some history)
    × Mem goodbye history
    × (message_of (test_client.h_get_all with_goodbye (message_id hello now)) ≡ goodbye)
store_message_replaces_example =
    store_message_replaces test_client test_runtime test_client-IsRedis empty_database with_hello
      with_goodbye hello goodbye now empty-IsSound now-is_time refl hello_stores goodbye_stores

hello_reached : Reach test_client test_runtime with_hello
hello_reached = calls empty_reached (stores hello now now-is_time hello_stores)

reads_reached_example :
    ((ps : List Participant) × (get_participants test_client test_runtime with_hello ≡ some ps))
    × ((chs : List Channel) × (get_channels test_client test_runtime with_hello ≡ some chs))
    × ((n : Bytes)
        → (get_chat_history test_client test_runtime with_hello (n ∷ []) ≡ none)
          ↔ (is_open test_client test_runtime test_client-IsRedis with_hello n ≡ false))
reads_reached_example = reads_reached test_client test_runtime test_client-IsRedis hello_reached

abbrev namesake : Channel
namesake = record {
  name = member.username;
  desc = codes "about me";
  creator = member.username;
  creation_date = codes "10:00:00";
  chat_history = [];
  members = [];
}

abbrev with_both : Database
with_both = or_unchanged (register_channel test_client test_runtime with_member namesake)

both_there :
    (does_participant_exist test_client with_both member.username ≡ true)
    × (does_channel_exist test_client with_both member.username ≡ true)
unfolding register_channel register_participant sha256_checksum validate_password_sha256 hex_class
    does_participant_exist does_channel_exist contains remove set_fields insert equal
both_there = (refl, refl)

delete_channel_shared_example :
    (d' : Database) × (delete_channel test_client test_runtime with_both member.username
      ≡ (d', true))
    × (does_participant_exist test_client d' member.username ≡ true)
    × ((p : Participant)
        → auth_participant test_client test_runtime d' (record p { username = member.username })
          ≡ false)
    × (get_participants test_client test_runtime d' ≡ none)
delete_channel_shared_example =
    delete_channel_shared test_client test_runtime test_client-IsRedis with_both member.username
      both_there.0 both_there.1

abbrev clock : ℕ → Bytes
clock n = now

redis_backend-KeepsNames_example :
    KeepsNames (redis_backend test_client test_runtime test_client-IsRedis clock (λ n. now-is_time))
redis_backend-KeepsNames_example =
    redis_backend-KeepsNames test_client test_runtime test_client-IsRedis clock (λ n. now-is_time)
