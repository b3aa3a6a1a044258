-- ===== src/Session/Server/Authors.antt =====
-- Who the messages of the general history are from.
use mathlib.Core.List.{Mem, mem-append, mem-cons, not-mem-nil, append-nil, append_assoc}
use mathlib.Core.Bool.{Bool-set}
use mathlib.Core.Logic.Or
use mathlib.Core.Option.{some-injective}
use mchat.Base.{
  ◌≡◌, inl, inr, sym, ap, subst, ◌∙◌, List, [], ◌∷◌, ◌++◌, Bool, Bytes, some, true, false,
}
use mchat.Runtime.{Runtime}
use mchat.Types.{ChatMessage}
use mchat.Backend.Defs.{Backend}
use mchat.Backend.Contract.{KeepsNames, KeepsHistory}
use mchat.Session.State.{Thread}
use mchat.Session.Reader.Log.{chat_log}
use mchat.Session.Reader.Log.Authors.{Authored, round-Authored}
use mchat.Session.Server.{
  Server, accept, expire, thread, Step, accepts, rounds_on, rounds_off, expires, Reach, start,
  later,
}
use mchat.Session.Server.Invariant.{ServerInv, unchanged_for, free_for}
use mchat.Session.Server.Names.{Reach-ServerInv}
use mchat.Session.Server.Log.{history-sent}

-- Every message of a list has a sender of a kind.
abbrev pub AllFrom : (Bytes → Bool) → List ChatMessage → Type 0
AllFrom known l = (m : ChatMessage) → Mem m l → known m.sender ≡ true

AllFrom-append :
    (known : Bytes → Bool) (l : List ChatMessage) (m : ChatMessage)
    → AllFrom known l
    → known m.sender ≡ true
    → AllFrom known (l ++ (m ∷ []))
AllFrom-append known l m all last x h = Or.elim (Bool-set _ _) (mem-append.0 h) (all x) (λ one.
    Or.elim (Bool-set _ _) (mem-cons.0 one) (λ e. rw e last) (λ none. absurd (not-mem-nil none)))

AllFrom-round :
    {b : Backend} (old : List ChatMessage) (t t' : Thread b)
    → ((u : Bytes) → b.has_participant t.storage u ≡ true → b.has_participant t'.storage u ≡ true)
    → Authored t t'
    → AllFrom (b.has_participant t.storage) (old ++ chat_log t.sent)
    → AllFrom (b.has_participant t'.storage) (old ++ chat_log t'.sent)
AllFrom-round old t t' stays (inl same) all m h = stays m.sender (all m (rw same at h))
AllFrom-round {b} old t t' stays (inr added) all m h =
    let whole = append_assoc old (chat_log t.sent) (added.msg ∷ []) in
    AllFrom-append (b.has_participant t'.storage) (old ++ chat_log t.sent) added.msg
      (λ x there. stays x.sender (all x there)) added.is_registered m
      (subst (Mem m) (ap (λ l. old ++ l) added.one_more ∙ sym whole) h)

module _ {rt : Runtime} {b : Backend} (k : KeepsNames b) (kh : KeepsHistory b) where
  Step-AllFrom :
      (old : List ChatMessage) {s s' : Server b}
      → Step rt s s'
      → ServerInv s
      → AllFrom (b.has_participant s.world.storage) (old ++ chat_log s.world.sent)
      → AllFrom (b.has_participant s'.world.storage) (old ++ chat_log s'.world.sent)
  unfolding accept expire
  Step-AllFrom old (accepts ip free) v all = all
  Step-AllFrom old {s} (rounds_on p r e t at on) v all =
      AllFrom-round old (thread r s.world) t
        (λ u. (unchanged_for rt k s v p r e t at on p u).stays_known)
        (round-Authored rt k kh (thread r s.world) t e false (v.keeps p r at) on) all
  Step-AllFrom old {s} (rounds_off p r e t at off) v all =
      AllFrom-round old (thread r s.world) t
        (λ u. (free_for rt k s v p r e t at off p u []).stays_known)
        (round-Authored rt k kh (thread r s.world) t e true (v.keeps p r at) off) all
  Step-AllFrom old (expires p watched) v all = all

  pub Reach-AllFrom :
      {storage : b.Store} {s : Server b} (old : List ChatMessage)
      → AllFrom (b.has_participant storage) old
      → Reach rt storage s
      → AllFrom (b.has_participant s.world.storage) (old ++ chat_log s.world.sent)
  Reach-AllFrom old all start = unfold chat_log in rw (append-nil old) all
  Reach-AllFrom old all (later reach step) =
      Step-AllFrom old step (Reach-ServerInv k reach) (Reach-AllFrom old all reach)

  -- Over any storage that keeps its participants and its general history, whose messages all have
  -- registered senders at the start: after any steps of all the connections, the sender of each
  -- message of the general history is registered.
  pub registered_senders :
      {storage : b.Store} {s : Server b} (old : List ChatMessage)
      → b.get_chat_history storage ([] ∷ []) ≡ some old
      → ((m : ChatMessage) → Mem m old → b.has_participant storage m.sender ≡ true)
      → Reach rt storage s
      → (history : List ChatMessage) → b.get_chat_history s.world.storage ([] ∷ []) ≡ some history
      → (m : ChatMessage) → Mem m history
      → b.has_participant s.world.storage m.sender ≡ true
  registered_senders {s = s} old h all reach history now m there =
      let same : history ≡ old ++ chat_log s.world.sent =
        some-injective _ _ (sym now ∙ history-sent kh old h reach) in
      Reach-AllFrom old all reach m (rw same at there)
