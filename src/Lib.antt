-- ===== src/Lib.antt =====
-- The chat server of mchat: a client registers or logs in over a text menu, chats, makes and
-- selects channels, and types commands that begin with a colon.
--
-- The parts, and where they are modelled:
--   pkg/validation/validation.go: Validation. Each regular expression is a class of bytes and a
--     length.
--   pkg/commands/commands.go: Commands. `ParseCommand` is parse_command; its loops are find_command,
--     parse_arguments and match_options, by recursion on the lists.
--   pkg/types/types.go: Types. pkg/utilities/utilities.go: Util.
--   pkg/backend/backend.go: Backend.Defs is the interface as a record of operations, and
--     Backend.Contract what the server relies on of it, of which KeepsNames is the part about
--     the names and KeepsHistory the one about the general chat. Sessions are over any such record.
--   pkg/backend/memory/memory.go: Backend.Memory, with the operations under the source's names in
--     snake case. pkg/backend/dynamodb/dynamodb.go: Backend.Dynamodb.
--   pkg/session/connection.go: Session.ConnectionMap. pkg/session/reader.go: Session.Menu,
--     Session.Submission, Session.Chat and Session.Input, on the state of Session.State with the
--     helpers of Session.Actions and the texts of Session.Texts.
--   pkg/session/session.go: Session.Loop has the loop of `handleConnection`; Session.Reader has
--     what holds of it.
--     Session.Server has all connections with their readers at once, as steps in any order, with
--     the invariants in Invariant and Members, and what follows in Names, Delivery, Log, Authors,
--     History and Panics; its Pump adds `processMessages`, which broadcasts what they hand over.
--     Overlap lets rounds overlap, where `onAcceptMessagesState` and a registration are two steps each.
--     Session.Watcher is `disconnectIfIdle` with the time.
--     Session.Run has `Run`, the closer of its listener, `processMessages` and the shutdown timer.
--   pkg/backend/redis/redis.go: Backend.Redis, over a client of the database (Backend.Redis.Client)
--     with the documented effects of the commands; Backend.Redis.Storage makes it a storage of
--     the sessions. pkg/client/client.go: Client.
--   pkg/logger/log.go: Logger. services/session/main.go: Services, with the storage and the timeouts
--     that `CreateSession` makes of its configuration; Services.Connecting is `NewRedisBackend`.
--   pkg/testsetup: TestSetup has the comparisons, the start of the container and the mock of a client,
--     TestSetup.Fixtures the data.
--
-- A panic of the source is `none` of a storage's operation and of a single call, and `panics` of
-- Session.State.Outcome; the signal to a watcher that is not there is `blocks`. Pointers to
-- connections are numbers into a heap; pointers to channels are Backend.Defs.ChannelRef, since a
-- channel that a client selects is the storage's own, or a copy that was read for the client. What is
-- handed over to `sendMsg` is collected in World.sent, the last one first: a handler is modelled as
-- long as `processMessages` runs and takes it. Texts are lists of bytes.
--
-- Runtime has what the standard library gives: SHA-256 with 32 bytes as its result, the time as a
-- text, the order of a `range` over a map, which is some permutation at each range, and `Sprintf`
-- over a format without arguments. Text has the functions of `strings` and `strconv`.
--
-- Fuel: write_bytes takes fuel, of which 2 is enough over a writer that keeps the contract of
-- `io.Writer`. The decimal digits of n take n + 1, more than n has digits. `tryConnect` takes one more
-- than the number of its retries. All other recursion is structural.
--
-- Not modelled: the tests, and of pkg/testsetup the removal of the container; of pkg/backend/redis
-- the client of the database; of pkg/logger the output; of services the parsing of flags; and the
-- debug flag of the reader, which `newReader` turns off and nothing turns on. A connection keeps of
-- `disconnectIfIdle` only whether it runs; its timer is in Session.Watcher alone. In Session.Server
-- a round of a connection is one step; in Session.Server.Overlap rounds overlap between the store
-- of a chat message and its hand over, and between the checks of a registration and what follows
-- them, and nowhere else. No two open connections have the same address. Session.Run has the
-- goroutines around the connections, without what these do, and Session.Server.Pump has no
-- shutdown: that a handler waits for ever at its next `sendMsg` after the shutdown is not in
-- Session.Server.
pub mod Base
pub mod Text
pub mod Validation
pub mod Commands
pub mod Dict
pub mod Runtime
pub mod Types
pub mod Util
pub mod Backend
pub mod Session
pub mod Client
pub mod Logger
pub mod Services
pub mod TestRuntime
pub mod TestSetup
