-- ===== src/Session/Reader/Log/Authors.antt =====
-- Who the chat messages of a round are from.
use mchat.Base.{◌≡◌, ◌⊎◌, inl, inr, refl, Bool, true, [], ◌∷◌, ◌++◌, arith}
use mchat.Runtime.{Runtime}
use mchat.Types.{ChatMessage, build_chat_msg}
use mchat.Backend.Defs.{Backend}
use mchat.Backend.Contract.{KeepsNames, KeepsHistory}
use mchat.Session.State.{Thread, done, bind-eq-done}
use mchat.Session.Actions.{conn_of}
use mchat.Session.Submission.{current_channel}
use mchat.Session.Chat.{on_accept_messages_state, on_disconnect_state}
use mchat.Session.Input.{ReadEvent, read}
use mchat.Session.Loop.{offer_options, handle_line, finish_round, round}
use mchat.Session.Reader.Invariant.{Inv}
use mchat.Session.Reader.Rounds.{offer_options-Inv, read-Inv, process_command-Inv}
use mchat.Session.Reader.Log.{chat_log}
use mchat.Session.Reader.Log.Rounds.{heard-Quiet, finish_round-Quiet, handle_line_cases}

-- One message of a registered participant is new.
pub record Adds {b : Backend} (t t' : Thread b) : Type 0 where
  pub msg : ChatMessage
  pub one_more : chat_log t'.sent ≡ chat_log t.sent ++ (msg ∷ [])
  pub is_registered : b.has_participant t'.storage msg.sender ≡ true

abbrev pub Authored : {b : Backend} → Thread b → Thread b → Type 0
Authored t t' = (chat_log t'.sent ≡ chat_log t.sent) ⊎ Adds t t'

module _ (rt : Runtime) {b : Backend} (k : KeepsNames b) (kh : KeepsHistory b) where
  accept-Adds : (t t' : Thread b) → Inv t → on_accept_messages_state rt t ≡ done t' → Adds t t'
  unfolding on_accept_messages_state chat_log
  accept-Adds t t' v h =
      let msg =
        build_chat_msg t.buffer (conn_of t).participant.username ((current_channel t).name ∷ [])
          (rt.time_now_str t.readings) in
      let author : msg.sender ≡ (conn_of t).participant.username = unfold build_chat_msg in refl in
      record {
        msg = msg;
        one_more = ground arith;
        is_registered = ground (
          arith,
          author,
          k.has-store t.storage t'.storage msg msg.sender,
          v.is_active,
          v.is_registered,
        );
      }

  finish_round_storage :
      (t t' : Thread b) (left : Bool) → finish_round rt t ≡ done (t', left) → t'.storage ≡ t.storage
  unfolding finish_round on_disconnect_state
  finish_round_storage t t' left h = ground arith

  handle_line-Authored : (t t' : Thread b) → Inv t → handle_line rt t ≡ done t' → Authored t t'
  handle_line-Authored t t' v h = elim (handle_line_cases rt kh t t' h) [
    | inl quiet ↦ inl quiet.same_log
    | inr (t1, r, processed, first, accepted) ↦
        let added = accept-Adds t1 t' (process_command-Inv rt t t1 r v processed) accepted in
        inr (record {
          msg = added.msg;
          one_more = cc (first.same_log, added.one_more);
          is_registered = added.is_registered;
        })
  ]

  pub round-Authored :
      (t t' : Thread b) (e : ReadEvent) (left : Bool)
      → Inv t
      → round rt t e ≡ done (t', left)
      → Authored t t'
  unfolding round
  round-Authored t t' e left v h =
      let offered = offer_options rt t in
      let heard = read rt offered e in
      let (t1, handled, finished) = bind-eq-done (handle_line rt heard) (finish_round rt) h in
      let before = heard-Quiet rt kh t e in
      let after = finish_round-Quiet rt kh t1 t' left finished in
      let stored = finish_round_storage t1 t' left finished in
      elim (handle_line-Authored heard t1 (read-Inv rt offered e (offer_options-Inv rt t v))
        handled) [
          | inl same ↦ inl (cc (before.same_log, same, after.same_log))
          | inr added ↦ inr (record {
            msg = added.msg;
            one_more = cc (before.same_log, added.one_more, after.same_log);
            is_registered = rw stored added.is_registered;
          })
        ]
