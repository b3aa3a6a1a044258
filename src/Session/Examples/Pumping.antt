-- ===== src/Session/Examples/Pumping.antt =====
-- The messages of the two connections, all broadcast.
use mchat.Base.{◌≡◌, refl, ap, sym, ◌∙◌, List, [], ◌∷◌, ◌++◌, All}
use mathlib.Core.List.{append_assoc}
use mchat.TestRuntime.{test_runtime}
use mchat.Backend.Memory.{new_memory_backend, memory_backend, has_participant, get_chat_history}
use mchat.Backend.Memory.Laws.{memory_backend-KeepsHistory, memory_backend-KeepsNames}
use mchat.Session.State.{Message}
use mchat.Session.Server.{start, later}
use mchat.Session.Server.Pump.{Pumped, PumpReach, opened, moved, serves, pumps, pump}
use mchat.Session.Server.Pump.Integrity.{IsShown, written-IsShown}
use mchat.Session.Examples.Sessions.{TestServer, TestReach}
use mchat.Session.Examples.Deliveries.{good_network}
use mchat.Session.Examples.Logs.{said, said_reached, nobody_said, all_said, said_history}

abbrev TestPumped : Type 0
TestPumped = Pumped (memory_backend test_runtime)

abbrev TestPumpReach : TestPumped → Type 0
TestPumpReach = PumpReach test_runtime new_memory_backend

abbrev unheard : TestServer → TestPumped
unheard s = record { server = s; handled = []; written = [] }

unheard_reached : {s : TestServer} → TestReach s → TestPumpReach (unheard s)
unheard_reached start = opened
unheard_reached (later {s' = s'} reach step) = moved (unheard_reached reach) (serves s' step)

-- all of a list of messages are broadcast, the last one first
abbrev drained : TestServer → List Message → TestPumped
drained s [] = unheard s
drained s (m ∷ ms) = pump test_runtime good_network 0 (drained s ms) m

drained_facts :
    (s : TestServer) (ms : List Message)
    → ((drained s ms).server ≡ s) × ((drained s ms).handled ≡ ms)
drained_facts s [] = (refl, refl)
drained_facts s (m ∷ ms) =
    let (same, handled) = drained_facts s ms in (same, ap (λ l. m ∷ l) handled)

drained_reached :
    (s : TestServer) (pending ms : List Message)
    → s.world.sent ≡ pending ++ ms
    → TestReach s
    → TestPumpReach (drained s ms)
drained_reached s pending [] e reach = unheard_reached reach
drained_reached s pending (m ∷ ms) e reach =
    let (same, handled) = drained_facts s ms in
    let before =
      drained_reached s (pending ++ (m ∷ [])) ms (e ∙ sym (append_assoc pending (m ∷ []) ms))
        reach in
    moved before (
      pumps good_network 0 pending m
        (ap (λ x. x.world.sent) same ∙ e ∙ ap (λ l. pending ++ (m ∷ l)) (sym handled)))

abbrev all_heard : TestPumped
all_heard = drained said said.world.sent

written-IsShown_example :
    All (IsShown (has_participant all_heard.server.world.storage) all_said) all_heard.written
written-IsShown_example =
    written-IsShown (memory_backend-KeepsNames test_runtime)
      (memory_backend-KeepsHistory test_runtime) nobody_said
      (drained_reached said [] said.world.sent refl said_reached) all_said
      (ap (λ s. get_chat_history s.world.storage ([] ∷ [])) (drained_facts said said.world.sent).0
        ∙ said_history)
