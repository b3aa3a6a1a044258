-- ===== src/Session/Reader/Creating.antt =====
-- The creation of a channel, who may do it, and what follows it.
use mchat.Base.{ℕ, ◌≡◌, ◌↔◌, ◌%◌, refl, ap, ◌∙◌, true, false, arith, equal_refl, ==_refl}
use mchat.Runtime.{Runtime}
use mchat.Text.Atoi.{pos}
use mchat.Types.{Channel}
use mchat.Validation.{validate_name}
use mchat.Backend.Defs.{Backend, ChannelRef, own, stored}
use mchat.Backend.Contract.{IsBackend}
use mchat.Session.State.{
  state_creating_channel, state_accepting_messages, substate_null, substate_reading_channel_desc,
  Thread, done, blocks,
}
use mchat.Session.Actions.{conn_of, update_state, with_storage, write_channel}
use mchat.Session.Submission.{
  current_channel, set_channel_desc, validate_channel, validate, channel_step,
  on_create_channel_state,
}
use mchat.Session.Menu.{op_register, option_byte, menu_option}
use mchat.Session.Chat.{on_accept_messages_state}
use mchat.Session.Loop.{transition}

-- A number n chooses the registration exactly if n leaves 1 modulo 256, so that 257 does as well.
pub menu_option-op_register : (n : ℕ) → (menu_option (pos n) ≡ op_register) ↔ (n % 256 ≡ 1)
unfolding menu_option option_byte
menu_option-op_register n = (λ h. ground arith, λ h. ground arith)

module _ (rt : Runtime) {b : Backend} where
  write_channel_same :
      (t : Thread b) (c : Channel) (r : ChannelRef)
      → ((write_channel t c r).reader ≡ t.reader)
        × ((conn_of (write_channel t c r)).state ≡ (conn_of t).state)
        × ((conn_of (write_channel t c r)).is_watched ≡ (conn_of t).is_watched)
  unfolding write_channel
  write_channel_same t c (own _) = ground (arith, ==_refl t.conn)
  write_channel_same t c (stored key) = ground arith

  set_channel_desc_same :
      (t : Thread b)
      → ((set_channel_desc t).reader ≡ t.reader)
        × ((conn_of (set_channel_desc t)).state ≡ (conn_of t).state)
        × ((conn_of (set_channel_desc t)).is_watched ≡ (conn_of t).is_watched)
  unfolding write_channel
  set_channel_desc_same t =
      write_channel_same t (record (current_channel t) { desc = t.buffer }) (conn_of t).channel

  validate_channel_total :
      (t : Thread b)
      → IsBackend b
      → validate_name (current_channel t).name ≡ true
      → b.has_channel t.storage (current_channel t).name ≡ false
      → (t' : Thread b) × (validate_channel rt t ≡ done t')
        × (t'.state ≡ state_accepting_messages)
        × (b.has_channel t'.storage (current_channel t).name ≡ true)
        × (conn_of t' ≡ conn_of t)
  unfolding validate_channel
  validate_channel_total t k v f =
      let (s, stored_channel) = k.channel_fresh t.storage (current_channel t) f in
      let has =
        k.has_channel-register t.storage s (current_channel t) (current_channel t).name
          stored_channel in
      let t' = update_state (with_storage t s) state_accepting_messages substate_null in
      (
        t',
        rw (v, f, stored_channel) refl,
        refl,
        has ∙ rw (equal_refl (current_channel t).name) refl,
        refl,
      )

  creation_validates :
      (t t' : Thread b)
      → t.state ≡ state_creating_channel
      → t.substate ≡ substate_reading_channel_desc
      → (set_channel_desc t).reader ≡ t.reader
      → validate_channel rt (set_channel_desc t) ≡ done t'
      → transition rt state_creating_channel t ≡ done t'
  unfolding transition on_create_channel_state channel_step validate
  creation_validates t t' e sub same ends = ground arith

  -- Over any storage that meets the contract: where the creation of a channel waits for the
  -- description, and the name of the channel is valid and free, the step neither panics nor blocks,
  -- the reader accepts messages after it and the channel is registered. Nothing asks whether the
  -- connection is connected, and the step changes neither that nor whether it is watched.
  pub transition_create_channel :
      (t : Thread b)
      → IsBackend b
      → t.state ≡ state_creating_channel
      → t.substate ≡ substate_reading_channel_desc
      → validate_name (current_channel (set_channel_desc t)).name ≡ true
      → b.has_channel (set_channel_desc t).storage (current_channel (set_channel_desc t)).name
        ≡ false
      → (t' : Thread b) × (transition rt state_creating_channel t ≡ done t')
        × (t'.state ≡ state_accepting_messages)
        × (b.has_channel t'.storage (current_channel (set_channel_desc t)).name ≡ true)
        × ((conn_of t').state ≡ (conn_of t).state)
        × ((conn_of t').is_watched ≡ (conn_of t).is_watched)
  transition_create_channel t k e sub v f =
      let before = set_channel_desc t in
      let (reader, connected, watched) = set_channel_desc_same t in
      let (t', ends, accepting, has, same) = validate_channel_total before k v f in
      (
        t',
        creation_validates t t' e sub reader ends,
        accepting,
        has,
        ap (λ c. c.state) same ∙ connected,
        ap (λ c. c.is_watched) same ∙ watched,
      )

  -- A reader that accepts messages waits for ever at the next line exactly if nothing watches its
  -- connection.
  pub on_accept_messages_state-blocks :
      (t : Thread b)
      → t.state ≡ state_accepting_messages
      → (on_accept_messages_state rt t ≡ blocks) ↔ ((conn_of t).is_watched ≡ false)
  unfolding on_accept_messages_state
  on_accept_messages_state-blocks t e = (λ h. ground arith, λ h. ground arith)
