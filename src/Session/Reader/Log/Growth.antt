-- ===== src/Session/Reader/Log/Growth.antt =====
-- The messages of a round come in front of those that were sent before.
use mchat.Base.{◌≡◌, inl, inr, Bool, arith}
use mchat.Runtime.{Runtime}
use mchat.Backend.Defs.{Backend}
use mchat.Backend.Contract.{KeepsHistory}
use mchat.Session.State.{Thread, done, bind-eq-done}
use mchat.Session.Chat.{on_accept_messages_state}
use mchat.Session.Input.{ReadEvent, read}
use mchat.Session.Loop.{offer_options, handle_line, finish_round, round}
use mchat.Session.Reader.Log.{Extends, Extends-trans}
use mchat.Session.Reader.Log.Rounds.{heard-Quiet, finish_round-Quiet, handle_line_cases}

module _ (rt : Runtime) {b : Backend} (k : KeepsHistory b) where
  accept-Extends :
      (t t' : Thread b) → on_accept_messages_state rt t ≡ done t' → Extends t.sent t'.sent
  unfolding on_accept_messages_state
  accept-Extends t t' h = ground arith

  handle_line-Extends : (t t' : Thread b) → handle_line rt t ≡ done t' → Extends t.sent t'.sent
  handle_line-Extends t t' h = elim (handle_line_cases rt k t t' h) [
    | inl quiet ↦ quiet.extends
    | inr (t1, r, processed, first, accepted) ↦
        Extends-trans t.sent t1.sent t'.sent first.extends (accept-Extends t1 t' accepted)
  ]

  pub round-Extends :
      (t t' : Thread b) (e : ReadEvent) (left : Bool)
      → round rt t e ≡ done (t', left)
      → Extends t.sent t'.sent
  unfolding round
  round-Extends t t' e left h =
      let heard = read rt (offer_options rt t) e in
      let (t1, handled, finished) = bind-eq-done (handle_line rt heard) (finish_round rt) h in
      Extends-trans t.sent heard.sent t'.sent (heard-Quiet rt k t e).extends (
        Extends-trans heard.sent t1.sent t'.sent (handle_line-Extends heard t1 handled)
          (finish_round-Quiet rt k t1 t' left finished).extends)
