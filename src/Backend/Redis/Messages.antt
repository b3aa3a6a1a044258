-- ===== src/Backend/Redis/Messages.antt =====
-- Messages in the database: what the histories read, and which message a second one replaces.
use mathlib.Core.List.{Mem}
use mchat.Base.{
  ◌≡◌, refl, ap, subst, ◌∙◌, Bool, true, ◌||◌, List, [], ◌∷◌, Option, some, arith, Bytes, codes,
  is_empty, equal, equal_refl,
}
use mchat.Runtime.{Runtime}
use mchat.Types.{ChatMessage}
use mchat.Backend.Redis.{does_channel_exist, store_message, get_chat_history}
use mchat.Backend.Redis.Fields.{channels_key, history_key, message_id, message_fields, message_of}
use mchat.Backend.Redis.Client.{RedisClient, IsRedis, find}
use mchat.Backend.Redis.Keys.{is_time, over, found_nonempty}
use mchat.Backend.Redis.Effects.{Effect, store_message-Effect}
use mchat.Backend.Redis.Sound.{IsSound, store_message-IsSound, read_all_total}

module _ (c : RedisClient) (rt : Runtime) (r : IsRedis c) where
  -- The general chat, or a channel that is there.
  abbrev pub is_open : c.Db → Bytes → Bool
  is_open d name = is_empty name || does_channel_exist c d name

  pub history_total :
      (d : c.Db) (name : Bytes)
      → IsSound c rt d
      → is_open d name ≡ true
      → (h : List ChatMessage) × (get_chat_history c rt d (name ∷ []) ≡ some h)
        × ((id : Bytes)
            → c.s_is_member d (history_key name) id ≡ true
            → Mem (message_of (c.h_get_all d id)) h)
  unfolding get_chat_history
  history_total d name v is_there =
      let ids = c.s_members d (history_key name) in
      let (h, reads, all_in) = read_all_total message_of (c.h_get_all d) ids (λ id m.
        found_nonempty (c.h_get_all d id) (codes "Contents")
          (v.message_stored name id ((r.mem-members d (history_key name) id).0 m))) in
      (
        h,
        ground (arith, reads),
        λ id is_member. all_in id ((r.mem-members d (history_key name) id).1 is_member),
      )

  module _ (d d' : c.Db) (v : IsSound c rt d) (m : ChatMessage) (now : Bytes)
      (timed : is_time now ≡ true) (h : store_message c rt d m now ≡ some d') where
    effect :
        Effect c d d'
          (message_id m now)
          (message_fields m)
          (history_key m.channel)
          (message_id m now)
    effect = store_message-Effect c rt r d v.keyed d' m now timed h

    written :
        (f value : Bytes)
        → ((old : Option Bytes) → over c (message_fields m) f old ≡ some value)
        → find c d' (message_id m now) f ≡ some value
    written f value writes =
        effect.finds (message_id m now) f
        ∙ (rw (equal_refl (message_id m now)) (writes (find c d (message_id m now) f)))

    pub message_back : message_of (c.h_get_all d' (message_id m now)) ≡ m
    unfolding message_of equal
    message_back =
        rw
          (
            written (codes "Contents") m.contents (λ old. refl),
            written (codes "Sender") m.sender (λ old. refl),
            written (codes "Channel") m.channel (λ old. refl),
            written (codes "SentTime") m.sent_time (λ old. refl),
          )
          refl

    pub is_listed : c.s_is_member d' (history_key m.channel) (message_id m now) ≡ true
    is_listed =
        effect.members (history_key m.channel) (message_id m now)
        ∙ (rw (equal_refl (history_key m.channel), equal_refl (message_id m now)) refl)

    pub stays_listed : (k id : Bytes) → c.s_is_member d k id ≡ true → c.s_is_member d' k id ≡ true
    stays_listed k id is_member = ground (arith, effect.members k id)

    pub stays_open : (name : Bytes) → is_open d name ≡ true → is_open d' name ≡ true
    unfolding does_channel_exist
    stays_open name is_there = ground (arith, stays_listed channels_key name)

    pub was_open : is_open d m.channel ≡ true
    unfolding store_message
    was_open = ground arith

    -- A message that was stored is read back in the history of its channel, with all its fields.
    pub get_chat_history-store :
        (history : List ChatMessage) × (get_chat_history c rt d' (m.channel ∷ []) ≡ some history)
        × Mem m history
    get_chat_history-store =
        let sound = store_message-IsSound c rt r d d' v m now timed h in
        let (history, reads, all_in) =
          history_total d' m.channel sound (stays_open m.channel was_open) in
        (
          history,
          reads,
          subst (λ x. Mem x history) message_back (all_in (message_id m now) is_listed),
        )

  -- A second message of the same sender within the same second takes the place of the first, also
  -- in another channel: the history of the first one's channel holds the second message, and what
  -- the first one's identifier leads to is the second message.
  pub store_message_replaces :
      (d d1 d2 : c.Db) (m1 m2 : ChatMessage) (now : Bytes)
      → IsSound c rt d
      → is_time now ≡ true
      → m1.sender ≡ m2.sender
      → store_message c rt d m1 now ≡ some d1
      → store_message c rt d1 m2 now ≡ some d2
      → (history : List ChatMessage) × (get_chat_history c rt d2 (m1.channel ∷ []) ≡ some history)
        × Mem m2 history
        × (message_of (c.h_get_all d2 (message_id m1 now)) ≡ m2)
  store_message_replaces d d1 d2 m1 m2 now v timed same h1 h2 =
      let v1 = store_message-IsSound c rt r d d1 v m1 now timed h1 in
      let v2 = store_message-IsSound c rt r d1 d2 v1 m2 now timed h2 in
      let one_id : message_id m1 now ≡ message_id m2 now = unfold message_id in (rw same refl) in
      let there =
        stays_open d1 d2 v1 m2 now timed h2 m1.channel
          (stays_open d d1 v m1 now timed h1 m1.channel (was_open d d1 v m1 now timed h1)) in
      let (history, reads, all_in) = history_total d2 m1.channel v2 there in
      let back =
        ap (λ id. message_of (c.h_get_all d2 id)) one_id ∙ message_back d1 d2 v1 m2 now timed h2 in
      (
        history,
        reads,
        subst (λ x. Mem x history) back
            (all_in (message_id m1 now) (
              stays_listed d1 d2 v1 m2 now timed h2 (history_key m1.channel) (message_id m1 now)
                (is_listed d d1 v m1 now timed h1))),
        back,
      )
