-- ===== src/Session/Server/Overlap/Shuffled.antt =====
-- The general history against what is handed over, where rounds overlap.
use mathlib.Core.List.{
  append-nil, append_assoc, Perm, perm_middle, map-append, perm_append_comm, perm-append_left_iff,
}
use mathlib.Core.List.Perm
use mchat.Base.{
  ◌≡◌, refl, sym, subst, ap, ◌∙◌, inl, inr, Bool, true, false, List, [], ◌∷◌, ◌++◌, map, some,
  arith,
}
use mchat.Runtime.{Runtime}
use mchat.Types.{ChatMessage, build_chat_msg}
use mchat.Backend.Defs.{Backend}
use mchat.Backend.Contract.{KeepsHistory}
use mchat.Session.State.{Thread, done, bind-eq-done}
use mchat.Session.Actions.{conn_of}
use mchat.Session.Submission.{current_channel}
use mchat.Session.Chat.{on_accept_messages_state}
use mchat.Session.Input.{ReadEvent, read}
use mchat.Session.Loop.{offer_options, handle_line, finish_round, round}
use mchat.Session.Reader.Log.{chat_log, Quiet, Quiet-trans, entered-Quiet}
use mchat.Session.Reader.Log.Rounds.{
  heard-Quiet, finish_round-Quiet, handle_line_cases, process_command-Quiet,
}
use mchat.Session.Server.{
  Server, accept, thread, expire, Step, accepts, rounds_on, rounds_off, expires,
}
use mchat.Session.Server.Overlap.{
  store_part, Held, Overlapping, OverlapStep, serves, stores, sends, checks, registers,
  OverlapReach, alone, further,
}

shuffle-append :
    (h log held new : List ChatMessage)
    → Perm h (log ++ held)
    → Perm (h ++ new) ((log ++ new) ++ held)
shuffle-append h log held new p = subst (Perm (h ++ new)) (sym (append_assoc log new held)) (
    Perm.trans (Perm.append_right new p) (
      subst (λ l. Perm l (log ++ (new ++ held))) (sym (append_assoc log held new))
        ((perm-append_left_iff log).1 (perm_append_comm held new))))

shuffle_middle :
    (log before after : List ChatMessage) (m : ChatMessage)
    → Perm (log ++ (before ++ (m ∷ after))) ((log ++ (m ∷ [])) ++ (before ++ after))
shuffle_middle log before after m =
    subst (Perm (log ++ (before ++ (m ∷ after))))
      (sym (append_assoc log (m ∷ []) (before ++ after)))
      ((perm-append_left_iff log).1 (perm_middle before after))

module _ {b : Backend} where
  -- The history `h` has grown by what is new in the log.
  abbrev Grows : List ChatMessage → Thread b → Thread b → Type 0
  Grows h t t' =
      (new : List ChatMessage) × (chat_log t'.sent ≡ chat_log t.sent ++ new)
      × (b.get_chat_history t'.storage ([] ∷ []) ≡ some (h ++ new))

  Quiet-Grows :
      (h : List ChatMessage) (t t' : Thread b)
      → b.get_chat_history t.storage ([] ∷ []) ≡ some h
      → Quiet t t'
      → Grows h t t'
  Quiet-Grows h t t' e quiet = (
    [],
    quiet.same_log ∙ sym (append-nil _),
    quiet.same_history ∙ e ∙ ap some (sym (append-nil h)),
  )

  Grows-between_Quiet :
      (h : List ChatMessage) (t t1 t2 t' : Thread b)
      → Quiet t t1
      → Grows h t1 t2
      → Quiet t2 t'
      → Grows h t t'
  Grows-between_Quiet h t t1 t2 t' before (new, log, history) after =
      (new, cc (before.same_log, log, after.same_log), after.same_history ∙ history)

  -- The history is `old` with what is handed over, and what is held, in some order behind it.
  abbrev Shuffled : List ChatMessage → Overlapping b → Type 0
  Shuffled old s =
      (h : List ChatMessage) × (b.get_chat_history s.server.world.storage ([] ∷ [])
        ≡ some (old ++ h))
      × Perm h (chat_log s.server.world.sent ++ map (λ x. x.msg) s.held)

module _ (rt : Runtime) {b : Backend} (k : KeepsHistory b) where
  accept-Grows :
      (h : List ChatMessage) (t t' : Thread b)
      → b.get_chat_history t.storage ([] ∷ []) ≡ some h
      → on_accept_messages_state rt t ≡ done t'
      → Grows h t t'
  unfolding on_accept_messages_state chat_log
  accept-Grows h t t' e accepted =
      let msg =
        build_chat_msg t.buffer (conn_of t).participant.username ((current_channel t).name ∷ [])
          (rt.time_now_str t.readings) in
      (
        msg ∷ [],
        ground arith,
        ground (arith, e, k.general-store t.storage t'.storage msg (unfold build_chat_msg in refl)),
      )

  handle_line-Grows :
      (h : List ChatMessage) (t t' : Thread b)
      → b.get_chat_history t.storage ([] ∷ []) ≡ some h
      → handle_line rt t ≡ done t'
      → Grows h t t'
  handle_line-Grows h t t' e handled = elim (handle_line_cases rt k t t' handled) [
    | inl quiet ↦ Quiet-Grows h t t' e quiet
    | inr (t1, r, processed, first, accepted) ↦
        let (new, log, history) = accept-Grows h t1 t' (first.same_history ∙ e) accepted in
        (new, cc (first.same_log, log), history)
  ]

  round-Grows :
      (h : List ChatMessage) (t t' : Thread b) (e : ReadEvent) (left : Bool)
      → b.get_chat_history t.storage ([] ∷ []) ≡ some h
      → round rt t e ≡ done (t', left)
      → Grows h t t'
  unfolding round
  round-Grows h t t' e left stored goes =
      let heard = read rt (offer_options rt t) e in
      let (t1, handled, finished) = bind-eq-done (handle_line rt heard) (finish_round rt) goes in
      let before = heard-Quiet rt k t e in
      Grows-between_Quiet h t heard t1 t' before
        (handle_line-Grows h heard t1 (before.same_history ∙ stored) handled)
        (finish_round-Quiet rt k t1 t' left finished)

  Grows-Shuffled :
      (old h : List ChatMessage) (t t' : Thread b) (held : List ChatMessage)
      → Grows (old ++ h) t t'
      → Perm h (chat_log t.sent ++ held)
      → (h' : List ChatMessage) × (b.get_chat_history t'.storage ([] ∷ []) ≡ some (old ++ h'))
        × Perm h' (chat_log t'.sent ++ held)
  Grows-Shuffled old h t t' held (new, log, history) p = (
    h ++ new,
    history ∙ ap some (append_assoc old h new),
    subst (λ l. Perm (h ++ new) (l ++ held)) (sym log)
        (shuffle-append h (chat_log t.sent) held new p),
  )

  Step-Shuffled :
      (old : List ChatMessage) (s : Overlapping b) (next : Server b)
      → Step rt s.server next
      → Shuffled old s
      → Shuffled old (record s { server = next })
  unfolding accept expire
  Step-Shuffled old s next (accepts ip free) v = v
  Step-Shuffled old s next (rounds_on p r e t at on) (h, history, perm) =
      let before = thread r s.server.world in
      Grows-Shuffled old h before t _ (round-Grows (old ++ h) before t e false history on) perm
  Step-Shuffled old s next (rounds_off p r e t at off) (h, history, perm) =
      let before = thread r s.server.world in
      Grows-Shuffled old h before t _ (round-Grows (old ++ h) before t e true history off) perm
  Step-Shuffled old s next (expires p watched) v = v

  -- What is stored and not yet handed over.
  store_part_lem :
      (h : List ChatMessage) (t t' : Thread b) (m : ChatMessage)
      → b.get_chat_history t.storage ([] ∷ []) ≡ some h
      → store_part rt t ≡ done (t', m)
      → (t'.sent ≡ t.sent) × (b.get_chat_history t'.storage ([] ∷ []) ≡ some (h ++ (m ∷ [])))
  unfolding store_part
  store_part_lem h t t' m e stored =
      let msg =
        build_chat_msg t.buffer (conn_of t).participant.username ((current_channel t).name ∷ [])
          (rt.time_now_str t.readings) in
      ground (arith, e, k.general-store t.storage t'.storage msg (unfold build_chat_msg in refl))

  OverlapStep-Shuffled :
      (old : List ChatMessage) {s s' : Overlapping b}
      → OverlapStep rt s s'
      → Shuffled old s
      → Shuffled old s'
  unfolding chat_log
  OverlapStep-Shuffled old {s} (serves next step) v = Step-Shuffled old s next step v
  OverlapStep-Shuffled old {s} (stores p r e t t' m at processed accepting stored)
        (h, history, perm) =
      let before = thread r s.server.world in
      let heard = read rt (offer_options rt before) e in
      let first = heard-Quiet rt k before e in
      let second = process_command-Quiet rt k heard t false processed in
      let (same, after) =
        store_part_lem (old ++ h) t t' m (second.same_history ∙ first.same_history ∙ history)
          stored in
      let log : chat_log t'.sent ≡ chat_log before.sent =
        ap chat_log same ∙ second.same_log ∙ first.same_log in
      let held = map (λ x. x.msg) s.held in
      (
        h ++ (m ∷ []),
        after ∙ ap some (append_assoc old h (m ∷ [])),
        subst (λ l. Perm (h ++ (m ∷ [])) (l ++ (m ∷ held))) (sym log)
            (subst (Perm (h ++ (m ∷ []))) (append_assoc (chat_log before.sent) (m ∷ []) held)
              (shuffle-append h (chat_log before.sent) held (m ∷ []) perm)),
      )
  OverlapStep-Shuffled old {s} (sends before after x at) (h, history, perm) =
      let log = chat_log s.server.world.sent in
      let msgs : List Held → List ChatMessage = map (λ y. y.msg) in
      let split : msgs s.held ≡ msgs before ++ (x.msg ∷ msgs after) =
        ap msgs at ∙ map-append (λ y. y.msg) before (x ∷ after) in
      (
        h,
        history,
        subst (λ l. Perm h ((log ++ (x.msg ∷ [])) ++ l))
            (sym (map-append (λ y. y.msg) before after))
            (Perm.trans (subst (λ l. Perm h (log ++ l)) split perm)
              (shuffle_middle log (msgs before) (msgs after) x.msg)),
      )
  OverlapStep-Shuffled old {s} (checks p r e t at processed registering waiting passed)
        (h, history, perm) =
      let before = thread r s.server.world in
      let heard = read rt (offer_options rt before) e in
      let first = heard-Quiet rt k before e in
      let second = process_command-Quiet rt k heard t false processed in
      Grows-Shuffled old h before t _
        (Quiet-Grows (old ++ h) before t history (Quiet-trans before heard t first second)) perm
  OverlapStep-Shuffled old {s} (registers before after c t t' at registered entered)
        (h, history, perm) =
      let start = thread c.reader s.server.world in
      Grows-Shuffled old h start t' _
        (Quiet-Grows (old ++ h) start t' history (entered-Quiet rt k start t t' registered entered))
        perm

  -- Over any storage that keeps its general history, which is `old` at the start, where rounds of
  -- different connections may overlap between the store of a chat message and its hand over, and
  -- between the checks of a registration and what follows them: the
  -- general history is `old` with the chat messages behind it that were handed over, and those that are
  -- stored and not handed over yet, each once, in some order.
  pub stored_sent :
      {storage : b.Store} {s : Overlapping b} (old : List ChatMessage)
      → b.get_chat_history storage ([] ∷ []) ≡ some old
      → OverlapReach rt storage s
      → (h : List ChatMessage) × (b.get_chat_history s.server.world.storage ([] ∷ [])
          ≡ some (old ++ h))
        × Perm h (chat_log s.server.world.sent ++ map (λ x. x.msg) s.held)
  unfolding chat_log
  stored_sent old e alone = ([], e ∙ ap some (sym (append-nil old)), Perm.refl [])
  stored_sent old e (further reach step) = OverlapStep-Shuffled old step (stored_sent old e reach)
