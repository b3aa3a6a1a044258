-- ===== src/Session/StepExamples/Broadcasts.antt =====
-- Broadcasts to the connections of a single step.
use mchat.Base.{length, inr, ◌≡◌, refl, false, [], codes}
use mchat.TestRuntime.{test_runtime}
use mchat.Types.{ChatMessage}
use mchat.Session.State.{chat}
use mchat.Session.ConnectionMap.{Network, broadcast_message}
use mchat.Session.ConnectionMap.Broadcast.{IsNetwork, broadcast_message_uncounted}
use mchat.Session.StepExamples.{chatting_thread}

abbrev whole_network : Network
whole_network p buffer = (length buffer, false)

whole_network-IsNetwork : IsNetwork whole_network
whole_network-IsNetwork p buffer = inr refl

abbrev hello : ChatMessage
hello = record {
  contents = codes "hello";
  sender = codes "somebody_else";
  channel = [];
  sent_time = codes "10:00:00";
}

broadcast_message_uncounted_example :
    (broadcast_message test_runtime whole_network 0 chatting_thread.world (chat hello)).sent_count
    ≡ 0
broadcast_message_uncounted_example =
    broadcast_message_uncounted test_runtime whole_network 0 chatting_thread.world hello
      whole_network-IsNetwork
