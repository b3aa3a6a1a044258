-- ===== src/Session/Server/Overlap.antt =====
-- Two procedures of pkg/session/reader.go in two steps each, between which the goroutines of other
-- connections take theirs, the same ones included: `onAcceptMessagesState` with `StoreMessage` and
-- `sendMsg`, and a registration in `validate` with the checks and what follows them.
pub mod Shuffled
use mchat.Base.{
  ℕ, ◌≡◌, ◌&&◌, Bool, refl, Bool-cases, inl, inr, not, false, true, if◌then◌else◌, List, [], ◌∷◌,
  ◌++◌, some, arith,
}
use mchat.Runtime.{Runtime}
use mchat.Types.{ChatMessage, build_chat_msg}
use mchat.Backend.Defs.{Backend}
use mchat.Session.State.{
  Reader, Thread, Message, chat, Outcome, done, panics, blocks, or_panic, ◌>>=◌, match_state,
  state_accepting_messages, state_registration, substate_reading_password,
}
use mchat.Session.Actions.{conn_of, tick, with_storage, send_msg}
use mchat.Validation.{validate_name, validate_password, validate_email}
use mchat.Session.Submission.{
  current_channel, set_password, validate, validate_participant, validate_registration, register,
  enter_chat,
}
use mchat.Session.Chat.{on_accept_messages_state}
use mchat.Session.Input.{ReadEvent, read, process_command}
use mchat.Session.Loop.{offer_options}
use mchat.Session.Server.{Server, thread, create, goes_on, ends, Step}

module _ (rt : Runtime) {b : Backend} where
  -- the handler up to `StoreMessage`, with the message that is left to hand over
  unfoldable pub store_part : Thread b → Outcome (Thread b × ChatMessage)
  unfolding match_state
  store_part t =
      if not (match_state t.state state_accepting_messages)
      then panics
      else if not (conn_of t).is_watched
      then blocks
      else (let msg =
            build_chat_msg t.buffer (conn_of t).participant.username ((current_channel t).name ∷ [])
              (rt.time_now_str t.readings) in
          let t' = tick t in
          do s ← or_panic (b.store_message t'.storage msg); done (with_storage t' s, msg))

  -- The two parts, one after the other, are the handler.
  pub store_part-send_msg :
      (t : Thread b)
      → (store_part t >>= (λ r. done (send_msg r.0 (chat r.1)))) ≡ on_accept_messages_state rt t
  unfolding store_part on_accept_messages_state
  store_part-send_msg t = ground arith

  -- the checks of `validate` at a registration
  unfoldable pub passes_checks : Thread b → Bool
  passes_checks t =
      let p = (conn_of t).participant in
      validate_name p.username
      && validate_password p.password
      && validate_email p.email
      && not (b.has_participant t.storage p.username)

  -- The checks, and then the rest of the registration, are `validate`.
  pub passes_checks-validate :
      (t : Thread b)
      → t.state ≡ state_registration
      → passes_checks t ≡ true
      → validate rt t ≡ (register rt t >>= enter_chat rt)
  unfolding passes_checks validate validate_participant validate_registration match_state
  passes_checks-validate t e h = ground (arith, e, h)

-- a connection whose message is stored, and is not handed over
pub record Held : Type 0 where
  pub number : ℕ
  pub reader : Reader
  pub msg : ChatMessage

-- a connection whose registration has passed the checks, and is not made
pub record Checked : Type 0 where
  pub number : ℕ
  pub reader : Reader

pub record Overlapping (b : Backend) : Type 0 where
  pub server : Server b
  pub held : List Held
  pub checked : List Checked

module _ {b : Backend} where
  -- the rest of the handler, in the world that the others have left, and the end of the round
  abbrev pub hand_over : Server b → Held → Server b
  hand_over s h = goes_on s h.number (send_msg (thread h.reader s.world) (chat h.msg))

  -- A connection between its two steps has no reader in `readers`, so that only
  -- `sends` or `registers` moves it.
  pub data OverlapStep (rt : Runtime) (s : Overlapping b) : Overlapping b → Type 0 where
    serves :
        (next : Server b) → Step rt s.server next → OverlapStep rt s (record s { server = next })
    stores :
        (p : ℕ) (r : Reader) (e : ReadEvent) (t t' : Thread b) (m : ChatMessage)
        → s.server.readers p ≡ some r
        → process_command rt (read rt (offer_options rt (thread r s.server.world)) e)
          ≡ done (t, false)
        → t.state ≡ state_accepting_messages
        → store_part rt t ≡ done (t', m)
        → OverlapStep rt s (record s {
          server = ends s.server p t';
          held = record { number = p; reader = t'.reader; msg = m } ∷ s.held;
        })
    sends :
        (before after : List Held) (h : Held)
        → s.held ≡ before ++ (h ∷ after)
        → OverlapStep rt s (record s { server = hand_over s.server h; held = before ++ after })
    checks :
        (p : ℕ) (r : Reader) (e : ReadEvent) (t : Thread b)
        → s.server.readers p ≡ some r
        → process_command rt (read rt (offer_options rt (thread r s.server.world)) e)
          ≡ done (t, false)
        → t.state ≡ state_registration
        → t.substate ≡ substate_reading_password
        → passes_checks rt (set_password t) ≡ true
        → OverlapStep rt s (record s {
          server = ends s.server p (set_password t);
          checked = record { number = p; reader = t.reader } ∷ s.checked;
        })
    registers :
        (before after : List Checked) (c : Checked) (t t' : Thread b)
        → s.checked ≡ before ++ (c ∷ after)
        → register rt (thread c.reader s.server.world) ≡ done t
        → enter_chat rt t ≡ done t'
        → OverlapStep rt s
            (record s { server = goes_on s.server c.number t'; checked = before ++ after })

  pub data OverlapReach (rt : Runtime) (storage : b.Store) : Overlapping b → Type 0 where
    alone : OverlapReach rt storage (record { server = create storage; held = []; checked = [] })
    further :
        {s s' : Overlapping b}
        → OverlapReach rt storage s
        → OverlapStep rt s s'
        → OverlapReach rt storage s'
