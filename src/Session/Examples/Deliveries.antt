-- ===== src/Session/Examples/Deliveries.antt =====
-- A chat message of one of two registered connections.
use mathlib.Core.List.{Mem, Nodup}
use mchat.Base.{
  ℕ, ◌≡◌, ◌≢◌, ◌↔◌, ◌⊎◌, inl, inr, refl, false, true, List, [], length, map, arith, codes,
}
use mchat.Text.{equal_fold}
use mchat.TestRuntime.{test_runtime}
use mchat.Types.{ChatMessage}
use mchat.Backend.Memory.Laws.{memory_backend-KeepsNames}
use mchat.Session.State.{is_connected, chat}
use mchat.Session.Texts.{chat_line}
use mchat.Session.ConnectionMap.{Network, broadcast_message}
use mchat.Session.Server.Names.{Reach-ServerInv}
use mchat.Session.Server.Members.{has_reader, reader_of}
use mchat.Session.Server.Delivery.{delivered}
use mchat.Session.Examples.{run}
use mchat.Session.Server.{accept}
use mchat.Session.Examples.Sessions.{both_in, both_in_reached, first_conn}

abbrev first_message : ChatMessage
first_message = record {
  sender = (both_in.world.heap first_conn).participant.username;
  contents = codes "hello";
  channel = [];
  sent_time = codes "10:00:00";
}

abbrev pub good_network : Network
good_network p buffer = (length buffer, false)

first_there :
    (has_reader both_in first_conn ≡ true)
    × (is_connected (both_in.world.heap first_conn).state ≡ true)
unfolding run accept
first_there = (refl, refl)

two : both_in.next ≡ 2
unfolding run accept
two = refl

second_unlike : equal_fold (both_in.world.heap 1).participant.username first_message.sender ≡ false
unfolding run accept equal_fold
second_unlike = refl

only_first :
    (q : ℕ)
    → has_reader both_in q ≡ true
    → is_connected (both_in.world.heap q).state ≡ true
    → equal_fold (both_in.world.heap q).participant.username first_message.sender ≡ true
    → q ≡ first_conn
only_first q there on alike =
    let (r, at) = reader_of both_in q there in
    let v = Reach-ServerInv (memory_backend-KeepsNames test_runtime) both_in_reached in
    let below = (v.numbered q r at).1 in
    let cases : (q ≡ 0) ⊎ (q ≡ 1) = omega (arith, below, two) in
    elim cases [ inl first ↦ first | inr second ↦ absurd (cc (alike, second, second_unlike)) ]

delivered_example :
    (targets : List ℕ) × ((broadcast_message test_runtime good_network 0 both_in.world
        (chat first_message)).writes
      ≡ map (λ q. (q, chat_line first_message)) targets)
    × Nodup targets
    × ((q : ℕ)
        → Mem q targets ↔ (
            (has_reader both_in q ≡ true)
            × (is_connected (both_in.world.heap q).state ≡ true)
            × (q ≢ first_conn)))
delivered_example =
    delivered (memory_backend-KeepsNames test_runtime) both_in_reached good_network 0 first_conn
      first_message first_there.0 first_there.1 refl only_first
