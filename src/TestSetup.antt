-- ===== src/TestSetup.antt =====
-- pkg/testsetup: the comparisons of the tests (testing.go), the start of the container for redis
-- (redis_testing_setup.go) and the mock of a client (session_testing_utils.go).
pub mod Fixtures
pub mod Matching
pub mod Starting
mod Examples
use mchat.Base.{
  ℕ, Bool, true, false, not, ◌&&◌, ◌||◌, List, [], ◌∷◌, ◌++◌, Bytes, codes, equal, length, ◌==◌,
  ltb, is_empty, if◌then◌else◌,
}
use mchat.Text.{contains}
use mchat.Types.{Participant, ChatMessage, Channel}
use mchat.Session.Input.{ReadEvent, ReadError, no_error, eof, failed}
use mchat.Session.State.{Outcome, done, panics, blocks}

-- `ContainsMessage`, `ContainsParticipant` and `ContainsChannel`
unfoldable pub contains_message : List ChatMessage → ChatMessage → Bool
contains_message [] message = false
contains_message (src_msg ∷ src) message =
    let rest = contains_message src message in
    if equal src_msg.channel message.channel
      && equal src_msg.sender message.sender
      && equal src_msg.sent_time message.sent_time
      && equal src_msg.contents message.contents
    then true
    else rest

unfoldable pub contains_participant : List Participant → Participant → Bool
contains_participant [] p = false
contains_participant (src_p ∷ src) p =
    let rest = contains_participant src p in
    if equal src_p.username p.username
      && equal src_p.join_time p.join_time
      && equal src_p.email p.email
    then true
    else rest

unfoldable pub contains_channel : List Channel → Channel → Bool
contains_channel [] ch = false
contains_channel (src_ch ∷ src) ch =
    let rest = contains_channel src ch in
    if equal src_ch.name ch.name
      && equal src_ch.desc ch.desc
      && equal src_ch.creation_date ch.creation_date
      && equal src_ch.creator ch.creator
    then true
    else rest

module _ {T : Type 0} where
  -- the loop of `Match`
  unfoldable pub all_contained : List T → List T → (List T → T → Bool) → Bool
  all_contained [] b callback = true
  all_contained (item ∷ a) b callback =
      let rest = all_contained a b callback in if not (callback b item) then false else rest

  -- `Match`, with the pointers of the first list as what they point to
  unfoldable pub match : List T → List T → (List T → T → Bool) → Bool
  match a b callback = if not (length a == length b) then false else all_contained a b callback

-- How `SetupRedisMock` ends: with whether the container has started and whether there is an error,
-- in `Fatal`, or not within the reads given.
pub data MockResult : Type 0 where
  returned : Bool → Bool → MockResult
  exits waits : MockResult

-- One round of its loop: whether the timer has fired, and what the read returns otherwise.
pub record Output : Type 0 where
  pub is_late : Bool
  pub stdout : ReadEvent

abbrev pub ready_text : Bytes
ready_text = codes "Ready to accept connections"

-- the loop, where `log` is what the builder has; the `err` of a read is not the one returned
unfoldable pub await_ready : Bytes → List Output → MockResult
await_ready log [] = waits
await_ready log (o ∷ outputs) =
    let log' = if ltb 0 (length o.stdout.bytes) then log ++ o.stdout.bytes else log in
    let is_ready = ltb 0 (length o.stdout.bytes) && contains log' ready_text in
    let later = await_ready log' outputs in
    if o.is_late then returned true false else elim o.stdout.err [
      | eof ↦ returned true false
      | failed ↦ exits
      | no_error ↦ (if is_ready then returned true false else later)
    ]

-- whether the pipe and the start of the command fail
unfoldable pub setup_redis_mock : Bool → Bool → List Output → MockResult
setup_redis_mock no_pipe no_start outputs =
    if no_pipe
    then returned false true
    else if no_start
    then returned false true
    else await_ready [] outputs

-- `ClientMock`, by whether its callbacks are nil and whether the dial fails: it drops what it reads,
-- and it neither calls a callback, nor writes, nor closes the connection.
unfoldable pub read_all : List ReadError → Outcome {0} Unit
read_all [] = blocks
read_all (no_error ∷ errs) = read_all errs
read_all (eof ∷ errs) = done tt
read_all (failed ∷ errs) = done tt

unfoldable pub client_mock : Bool → Bool → Bool → List ReadError → Outcome {0} Unit
client_mock no_password no_message no_dial errs =
    let served = read_all errs in
    if no_password && no_message then panics else if no_dial then done tt else served
