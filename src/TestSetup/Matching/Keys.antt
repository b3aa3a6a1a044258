-- ===== src/TestSetup/Matching/Keys.antt =====
-- What the comparisons of messages, participants and channels look at.
use mathlib.Core.List
use mathlib.Core.List.{Mem, mem-cons, not-mem-nil}
use mathlib.Core.Logic.Or
use mathlib.Core.Bool.{Bool-set}
use mchat.Base.{
  ◌≡◌, ◌↔◌, refl, Bool, true, ◌&&◌, List, [], ◌∷◌, Bytes, arith, equal, equal_iff, any, map, inl,
  inr, Bool-cases,
}
use mchat.Types.{Participant, ChatMessage, Channel}
use mchat.TestSetup.{contains_message, contains_participant, contains_channel, match}
use mchat.TestSetup.Matching.{match_search}

module _ {T K : Type 0} (key : T → K) (same : T → T → Bool) where
  -- A test that compares the keys.
  abbrev IsComparison : Type 0
  IsComparison = (x y : T) → (same y x ≡ true) ↔ (key x ≡ key y)

  any-mem :
      IsComparison
      → (src : List T) (x : T) → (any (λ y. same y x) src ≡ true) ↔ Mem (key x) (map key src)
  any-mem c [] x = (λ h. cc, λ h. absurd (not-mem-nil h))
  any-mem c (y ∷ src) x = (
    λ h. elim (Bool-cases (same y x)) [
      | inl this ↦ mem-cons.1 (Or.inl ((c x y).0 this))
      | inr other ↦ mem-cons.1 (Or.inr ((any-mem c src x).0 (ground arith)))
    ],
    λ h.
        Or.elim (Bool-set _ _) (mem-cons.0 h) (λ e. ground (arith, (c x y).1 e))
          (λ later. ground (arith, (any-mem c src x).1 later)),
  )

abbrev pub MessageKey : Type 0
MessageKey = Bytes × Bytes × Bytes × Bytes

abbrev pub message_key : ChatMessage → MessageKey
message_key m = (m.channel, m.sender, m.sent_time, m.contents)

-- not the password
abbrev pub participant_key : Participant → Bytes × Bytes × Bytes
participant_key p = (p.username, p.join_time, p.email)

-- neither the history nor the members
abbrev pub channel_key : Channel → Bytes × Bytes × Bytes × Bytes
channel_key c = (c.name, c.desc, c.creation_date, c.creator)

abbrev same_message : ChatMessage → ChatMessage → Bool
same_message y x =
    equal y.channel x.channel
    && equal y.sender x.sender
    && equal y.sent_time x.sent_time
    && equal y.contents x.contents

abbrev same_participant : Participant → Participant → Bool
same_participant y x =
    equal y.username x.username && equal y.join_time x.join_time && equal y.email x.email

abbrev same_channel : Channel → Channel → Bool
same_channel y x =
    equal y.name x.name
    && equal y.desc x.desc
    && equal y.creation_date x.creation_date
    && equal y.creator x.creator

contains_message-any :
    (src : List ChatMessage) (x : ChatMessage)
    → contains_message src x ≡ any (λ y. same_message y x) src
unfolding contains_message
contains_message-any [] x = refl
contains_message-any (y ∷ src) x = ground (arith, contains_message-any src x)

contains_participant-any :
    (src : List Participant) (x : Participant)
    → contains_participant src x ≡ any (λ y. same_participant y x) src
unfolding contains_participant
contains_participant-any [] x = refl
contains_participant-any (y ∷ src) x = ground (arith, contains_participant-any src x)

contains_channel-any :
    (src : List Channel) (x : Channel) → contains_channel src x ≡ any (λ y. same_channel y x) src
unfolding contains_channel
contains_channel-any [] x = refl
contains_channel-any (y ∷ src) x = ground (arith, contains_channel-any src x)

same_message_iff : (x y : ChatMessage) → (same_message y x ≡ true) ↔ (message_key x ≡ message_key y)
same_message_iff x y = ground (
  arith,
  equal_iff y.channel x.channel,
  equal_iff y.sender x.sender,
  equal_iff y.sent_time x.sent_time,
  equal_iff y.contents x.contents,
)

same_participant_iff :
    (x y : Participant) → (same_participant y x ≡ true) ↔ (participant_key x ≡ participant_key y)
same_participant_iff x y = ground (
  arith,
  equal_iff y.username x.username,
  equal_iff y.join_time x.join_time,
  equal_iff y.email x.email,
)

same_channel_iff : (x y : Channel) → (same_channel y x ≡ true) ↔ (channel_key x ≡ channel_key y)
same_channel_iff x y = ground (
  arith,
  equal_iff y.name x.name,
  equal_iff y.desc x.desc,
  equal_iff y.creation_date x.creation_date,
  equal_iff y.creator x.creator,
)

-- `Match` of messages, of which no two on the left are the same, says that those on the right are the
-- same ones, all fields compared, in any order.
pub match_messages :
    (a b : List ChatMessage)
    → List.Nodup (map message_key a)
    → (match a b contains_message ≡ true) ↔ List.Perm (map message_key a) (map message_key b)
match_messages = match_search message_key contains_message (λ src x.
    rw (contains_message-any src x) (any-mem message_key same_message same_message_iff src x))

-- `Match` of participants, of which no two on the left have the same name, join time and address of
-- email, says that those on the right have these three in common with them, in any order.
pub match_participants :
    (a b : List Participant)
    → List.Nodup (map participant_key a)
    → (match a b contains_participant ≡ true)
      ↔ List.Perm (map participant_key a) (map participant_key b)
match_participants = match_search participant_key contains_participant (λ src x.
    rw (contains_participant-any src x)
      (any-mem participant_key same_participant same_participant_iff src x))

-- `Match` of channels, of which no two on the left have the same name, description, date of creation
-- and creator, says that those on the right have these four in common with them, in any order.
pub match_channels :
    (a b : List Channel)
    → List.Nodup (map channel_key a)
    → (match a b contains_channel ≡ true) ↔ List.Perm (map channel_key a) (map channel_key b)
match_channels = match_search channel_key contains_channel (λ src x.
    rw (contains_channel-any src x) (any-mem channel_key same_channel same_channel_iff src x))
