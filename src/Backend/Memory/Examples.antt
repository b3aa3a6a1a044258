-- ===== src/Backend/Memory/Examples.antt =====
-- The memory storage at concrete inputs.
use mchat.Base.{◌≡◌, ◌↔◌, refl, true, [], ◌∷◌, some, Bytes, codes, equal, map}
use mchat.TestRuntime.{test_runtime}
use mchat.Dict.{insert, lookup}
use mchat.Util.{sha256_checksum}
use mchat.Util.Checksum.{sha256_checksum-validate}
use mchat.Types.{Participant, Channel, no_channel}
use mchat.Backend.Defs.{stored}
use mchat.Backend.Memory.{
  MemoryStore, new_memory_backend, has_channel, register_participant, register_channel,
  auth_participant, get_channels, does_participant_exist, does_channel_exist,
}
use mchat.Backend.Memory.Accounts.{auth_participant-register}
use mchat.Backend.Memory.Steps.{
  Reach, fresh, next, registers, registers_channel, IsWellFormed, Reach-IsWellFormed,
}
use mchat.Backend.Memory.Listing.{get_channels_lists, listed}
use mathlib.Core.List.{Mem, Nodup}

abbrev someone : Participant
someone = record {
  username = codes "nasayer_777";
  password = codes "NeverAgain1999#";
  email = codes "nasayer@gmail.com";
  join_time = codes "10:00:00";
}

abbrev intruder : Participant
intruder = record someone { password = codes "anything" }

abbrev room : Channel
room = record no_channel { name = codes "Dragonflies" }

abbrev with_room : MemoryStore
with_room = record new_memory_backend { channels = (codes "Dragonflies", room) ∷ [] }

room_is_registered : register_channel new_memory_backend room ≡ some with_room
unfolding register_channel does_channel_exist lookup insert equal
room_is_registered = refl

room_is_reached : Reach test_runtime with_room
room_is_reached = next fresh (registers_channel room room_is_registered)

get_channels_lists_example :
    (get_channels test_runtime 0 with_room ≡ map stored (listed test_runtime 0 with_room))
    × Nodup (listed test_runtime 0 with_room)
    × ((k : Bytes) → Mem k (listed test_runtime 0 with_room) ↔ (has_channel with_room k ≡ true))
get_channels_lists_example = get_channels_lists test_runtime 0 with_room room_is_reached

abbrev with_someone : MemoryStore
with_someone = record new_memory_backend {
  participants =
      (
        codes "nasayer_777",
        record someone { password = sha256_checksum test_runtime (codes "NeverAgain1999#") },
      )
      ∷ [];
}

someone_is_registered :
    register_participant test_runtime new_memory_backend someone ≡ some with_someone
unfolding register_participant does_participant_exist lookup insert equal
someone_is_registered = rw (sha256_checksum-validate test_runtime (codes "NeverAgain1999#")) refl

Reach-IsWellFormed_example : IsWellFormed test_runtime with_someone
Reach-IsWellFormed_example =
    Reach-IsWellFormed (next fresh (registers someone someone_is_registered))

auth_participant-register_example : (auth_participant test_runtime with_someone intruder ≡ true) ↔ (
    test_runtime.sum256 (codes "NeverAgain1999#")
    ≡ test_runtime.sum256 (sha256_checksum test_runtime (codes "NeverAgain1999#")))
auth_participant-register_example =
    auth_participant-register test_runtime new_memory_backend with_someone someone intruder
      someone_is_registered refl
