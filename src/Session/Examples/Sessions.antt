-- ===== src/Session/Examples/Sessions.antt =====
-- A session with two connections, which both register.
use Prim.Native.String.{String}
use mchat.Base.{
  ℕ, ◌≡◌, ◌≢◌, refl, Bool, true, false, not, ◌&&◌, &&_iff, ==_refl, List, [], ◌∷◌, Option, none,
  some, arith, codes,
}
use mchat.Dict.{lookup}
use mchat.TestRuntime.{test_runtime}
use mchat.Validation.{validate_name}
use mchat.Backend.Memory.{new_memory_backend, memory_backend, has_participant}
use mchat.Backend.Memory.Laws.{memory_backend-KeepsNames}
use mchat.Session.State.{Reader, is_connected, Outcome, done, panics, blocks}
use mchat.Session.Input.{ReadEvent}
use mchat.Session.Loop.{round, new_reader}
use mchat.Session.Server.{
  Server, Reach, accepts, rounds_on, start, later, accept, create, goes_on, thread,
}
use mchat.Session.Server.Names.{distinct_names, registered_names}
use mchat.Session.Examples.{ip, TestThread, typed, thread_of, run}

abbrev pub TestServer : Type 0
TestServer = Server (memory_backend test_runtime)

abbrev pub TestReach : TestServer → Type 0
TestReach = Reach test_runtime new_memory_backend

abbrev both_accepted : TestServer
both_accepted = accept (accept (create new_memory_backend) ip) (codes "127.0.0.1:5001")

-- the round of a line that a connection sends
abbrev turn : TestServer → Reader → ReadEvent → Outcome (TestThread × Bool)
turn s r e = round test_runtime (thread r s.world) e

-- the lines of one connection, one after the other
abbrev pub play : TestServer → ℕ → Reader → List ReadEvent → TestServer
play s p r [] = s
play s p r (e ∷ es) = let t = thread_of (turn s r e) in play (goes_on s p t) p t.reader es

abbrev pub goes_on? : Outcome (TestThread × Bool) → Bool
goes_on? (done (t, left)) = not left
goes_on? _ = false

abbrev pub all_go_on : TestServer → ℕ → Reader → List ReadEvent → Bool
all_go_on s p r [] = true
all_go_on s p r (e ∷ es) =
    let t = thread_of (turn s r e) in
    goes_on? (turn s r e) && all_go_on (goes_on s p t) p t.reader es

pub turn_goes_on :
    (o : Outcome (TestThread × Bool)) → goes_on? o ≡ true → o ≡ done (thread_of o, false)
turn_goes_on (done (t, true)) h = cc
turn_goes_on (done (t, false)) h = refl
turn_goes_on panics h = cc
turn_goes_on blocks h = cc

pub play_reached :
    (s : TestServer) (p : ℕ) (r : Reader) (es : List ReadEvent)
    → s.readers p ≡ some r
    → all_go_on s p r es ≡ true
    → TestReach s
    → TestReach (play s p r es)
play_reached s p r [] at on reach = reach
play_reached s p r (e ∷ es) at on reach =
    let t = thread_of (turn s r e) in
    let (now, rest) = (&&_iff _ _).0 on in
    play_reached (goes_on s p t) p t.reader es (rw (==_refl p) refl) rest
      (later reach (rounds_on p r e t at (turn_goes_on (turn s r e) now)))

abbrev registers : String → String → List ReadEvent
registers name mail = typed "1" ∷ typed name ∷ typed mail ∷ typed "NeverAgain1999#" ∷ []

abbrev first_lines : List ReadEvent
first_lines = registers "nasayer_777" "nasayer@gmail.com"

abbrev second_lines : List ReadEvent
second_lines = registers "somebody_else" "somebody@gmail.com"

abbrev pub one_in : TestServer
one_in = play both_accepted 0 (new_reader 0) first_lines

abbrev pub both_in : TestServer
both_in = play one_in 1 (new_reader 1) second_lines

both_reached : TestReach both_accepted
unfolding run accept
both_reached = later (later start (accepts ip refl)) (accepts (codes "127.0.0.1:5001") refl)

one_reached : TestReach one_in
unfolding run accept
one_reached = play_reached both_accepted 0 (new_reader 0) first_lines refl refl both_reached

pub both_in_reached : TestReach both_in
unfolding run accept
both_in_reached = play_reached one_in 1 (new_reader 1) second_lines refl refl one_reached

both_connected :
    (is_connected (both_in.world.heap 0).state ≡ true)
    × (is_connected (both_in.world.heap 1).state ≡ true)
unfolding run accept
both_connected = (refl, refl)

abbrev pub the_reader : Option Reader → Reader
the_reader none = new_reader 0
the_reader (some r) = r

pub both_read :
    (both_in.readers 0 ≡ some (the_reader (both_in.readers 0)))
    × (both_in.readers 1 ≡ some (the_reader (both_in.readers 1)))
unfolding run accept
both_read = (refl, refl)

abbrev pub first_conn : ℕ
first_conn = 0

abbrev second_conn : ℕ
second_conn = 1

conns_differ : first_conn ≢ second_conn
conns_differ = λ h. omega (arith, h)

distinct_names_example :
    (both_in.world.heap 0).participant.username ≢ (both_in.world.heap 1).participant.username
distinct_names_example =
    distinct_names (memory_backend-KeepsNames test_runtime) both_in_reached first_conn second_conn
      conns_differ (the_reader (both_in.readers 0)) (the_reader (both_in.readers 1)) both_read.0
      both_read.1 both_connected.0 both_connected.1

registered_names_example :
    (lookup both_in.world.connections (both_in.world.heap 1).ip_addr ≡ some 1)
    × (validate_name (both_in.world.heap 1).participant.username ≡ true)
    × (has_participant both_in.world.storage (both_in.world.heap 1).participant.username ≡ true)
registered_names_example =
    registered_names (memory_backend-KeepsNames test_runtime) both_in_reached 1
      (the_reader (both_in.readers 1)) both_read.1 both_connected.1
