-- ===== src/Session/Reader/Log.antt =====
-- What a procedure of a reader does to the general history, and to the messages that it sends.
pub mod Rounds
pub mod Authors
pub mod Growth
use mchat.Base.{
  ap, sym, subst, ◌∙◌, ◌⊎◌, ◌≡◌, refl, Bool, Bool-cases, inl, inr, true, false, List, [], ◌∷◌, ◌++◌,
  some, Option, arith, Bytes, if◌then◌else◌,
}
use mchat.Runtime.{Runtime}
use mchat.Text.Atoi.{ℤ, atoi, NumError, success, err_syntax, err_range}
use mchat.Commands.{
  CommandType, command_null, command_display_menu, command_display_history, command_list_members,
  command_list_channels, command_list_commands, command_sentinel, parse_command,
}
use mchat.Validation.{validate_email}
use mchat.Types.{ChatMessage, Channel, build_chat_msg}
use mchat.Backend.Defs.{Backend, ChannelRef, own, stored}
use mchat.Backend.Contract.{KeepsHistory}
use mchat.Session.State.{
  ReaderState, ReaderSubstate, state_null, state_joining, state_registration, state_authentication,
  state_accepting_messages, state_creating_channel, state_selecting_channel, state_processing_menu,
  state_disconnecting, substate_null, substate_reading_name, substate_reading_password,
  substate_reading_email_address, substate_reading_channel_desc, Message, sys, chat, World, Thread,
  done, bind-eq-done,
}
use mchat.Session.Actions.{conn_of, write_channel}
use mchat.Session.Menu.{
  MenuOption, op_register, op_authenticate, op_create_channel, op_select_channel, op_list_members,
  op_display_chat, op_exit, no_option, choose, menu_option, report_option, on_joining_state,
}
use mchat.Session.Submission.{
  register_step, auth_step, channel_step, validate, validate_participant, validate_registration,
  validate_authentication, validate_channel, set_password, set_channel_desc, enter_chat, admit,
  register, current_channel, on_register_participant_state, on_auth_participant_state,
  on_create_channel_state,
}
use mchat.Session.Chat.{
  show_channel, choose_channel, select_channel, on_select_channel_state, on_accept_messages_state,
  on_disconnect_state,
}
use mchat.Session.Input.{
  ReadEvent, read, show_history, show_members, show_channels, run_command, run_parsed,
  process_command,
}
use mchat.Session.Loop.{transition, offer_options, handle_line, finish_round, round}

-- The chat messages among those sent, the first one first.
unfoldable pub chat_log : List Message → List ChatMessage
chat_log [] = []
chat_log (sys m ∷ ms) = chat_log ms
chat_log (chat m ∷ ms) = chat_log ms ++ (m ∷ [])

-- The second list is the first one, or has messages in front of it.
abbrev pub IsLonger : List Message → List Message → Type 0
IsLonger old [] = ⊥
IsLonger old (m ∷ new) = (old ≡ new) ⊎ IsLonger old new

abbrev pub Extends : List Message → List Message → Type 0
Extends old new = (old ≡ new) ⊎ IsLonger old new

IsLonger-trans : (a b c : List Message) → Extends a b → IsLonger b c → IsLonger a c
IsLonger-trans a b [] g l = l
IsLonger-trans a b (m ∷ c) (inl e) l = subst (λ x. IsLonger x (m ∷ c)) (sym e) l
IsLonger-trans a b (m ∷ c) (inr g) (inl e) = inr (subst (IsLonger a) e g)
IsLonger-trans a b (m ∷ c) (inr g) (inr l) = inr (IsLonger-trans a b c (inr g) l)

pub Extends-trans : (a b c : List Message) → Extends a b → Extends b c → Extends a c
Extends-trans a b c g (inl e) = subst (Extends a) e g
Extends-trans a b c g (inr l) = inr (IsLonger-trans a b c g l)

-- What is in front.
IsLonger-split :
    (old new : List Message) → IsLonger old new → (front : List Message) × (new ≡ front ++ old)
IsLonger-split old [] g = absurd g
IsLonger-split old (m ∷ new) (inl e) = (m ∷ [], ap (λ l. m ∷ l) (sym e))
IsLonger-split old (m ∷ new) (inr g) =
    let (front, e) = IsLonger-split old new g in (m ∷ front, ap (λ l. m ∷ l) e)

pub Extends-split :
    (old new : List Message) → Extends old new → (front : List Message) × (new ≡ front ++ old)
Extends-split old new (inl e) = ([], sym e)
Extends-split old new (inr g) = IsLonger-split old new g

module _ {b : Backend} where
  abbrev pub general_history : World b → Option (List ChatMessage)
  general_history w = b.get_chat_history w.storage ([] ∷ [])

  -- The general history is an old one with the chat messages sent since behind it.
  abbrev pub IsLogged : List ChatMessage → World b → Type 0
  IsLogged old w = general_history w ≡ some (old ++ chat_log w.sent)

  pub record Quiet (t t' : Thread b) : Type 0 where
    pub extends : Extends t.sent t'.sent
    pub same_log : chat_log t'.sent ≡ chat_log t.sent
    pub same_history : general_history t'.world ≡ general_history t.world

  pub Quiet-trans : (t1 t2 t3 : Thread b) → Quiet t1 t2 → Quiet t2 t3 → Quiet t1 t3
  Quiet-trans t1 t2 t3 first second = record {
    extends = Extends-trans t1.sent t2.sent t3.sent first.extends second.extends;
    same_log = second.same_log ∙ first.same_log;
    same_history = second.same_history ∙ first.same_history;
  }

module _ (rt : Runtime) {b : Backend} (k : KeepsHistory b) where
  choose-Quiet : (o : MenuOption) (t t' : Thread b) → choose rt o t ≡ done t' → Quiet t t'
  unfolding choose chat_log
  choose-Quiet op_register t t' h = ground arith
  choose-Quiet op_authenticate t t' h = ground arith
  choose-Quiet op_create_channel t t' h = ground arith
  choose-Quiet op_select_channel t t' h = ground arith
  choose-Quiet op_list_members t t' h = ground arith
  choose-Quiet op_exit t t' h = ground arith
  choose-Quiet op_display_chat t t' h = ground arith
  choose-Quiet no_option t t' h = ground arith

  report_option-Quiet : (e : NumError) (t : Thread b) → Quiet t (report_option rt e t)
  unfolding report_option chat_log
  report_option-Quiet success t = ground arith
  report_option-Quiet err_syntax t = ground arith
  report_option-Quiet err_range t = ground arith

  pub joining-Quiet : (t t' : Thread b) → on_joining_state rt t ≡ done t' → Quiet t t'
  unfolding on_joining_state
  joining-Quiet t t' h =
      let (op, err) = atoi t.buffer in
      let reported = report_option rt err t in
      Quiet-trans t reported t' (report_option-Quiet err t)
        (choose-Quiet (menu_option op) reported t' (ground arith))

  enter_chat-Quiet : (t t' : Thread b) → enter_chat rt t ≡ done t' → Quiet t t'
  unfolding enter_chat chat_log
  enter_chat-Quiet t t' h = ground arith

  register-Quiet : (t t' : Thread b) → register rt t ≡ done t' → Quiet t t'
  unfolding register
  register-Quiet t t' h =
      ground (arith, k.general-register t.storage t'.storage (conn_of (admit rt t)).participant)

  pub entered-Quiet :
      (t r t' : Thread b) → register rt t ≡ done r → enter_chat rt r ≡ done t' → Quiet t t'
  entered-Quiet t r t' registered entered =
      Quiet-trans t r t' (register-Quiet t r registered) (enter_chat-Quiet r t' entered)

  validate_registration-Quiet :
      (t t' : Thread b) → validate_registration rt t ≡ done t' → Quiet t t'
  unfolding validate_registration chat_log
  validate_registration-Quiet t t' h =
      let p = (conn_of t).participant in
      let chain = bind-eq-done (register rt t) (enter_chat rt) {c = t'} in
      elim (Bool-cases (validate_email p.email)) [
        | inr bad ↦ ground arith
        | inl good ↦ elim (Bool-cases (b.has_participant t.storage p.username)) [
          | inl taken ↦ ground arith
          | inr free ↦
              let (r, registered, entered) = chain (ground arith) in
              entered-Quiet t r t' registered entered
        ]
      ]

  admit-Quiet : (t : Thread b) → Quiet t (admit rt t)
  unfolding admit
  admit-Quiet t = ground arith

  validate_authentication-Quiet :
      (t t' : Thread b) → validate_authentication rt t ≡ done t' → Quiet t t'
  unfolding validate_authentication chat_log
  validate_authentication-Quiet t t' h =
      let entered = λ (e : enter_chat rt (admit rt t) ≡ done t').
        Quiet-trans t (admit rt t) t' (admit-Quiet t) (enter_chat-Quiet (admit rt t) t' e) in
      ground (arith, entered)

  validate_participant-Quiet : (t t' : Thread b) → validate_participant rt t ≡ done t' → Quiet t t'
  unfolding validate_participant chat_log
  validate_participant-Quiet t t' h =
      ground (arith, validate_registration-Quiet t t', validate_authentication-Quiet t t')

  validate_channel-Quiet : (t t' : Thread b) → validate_channel rt t ≡ done t' → Quiet t t'
  unfolding validate_channel chat_log
  validate_channel-Quiet t t' h =
      ground (arith, k.general-register_channel t.storage t'.storage (current_channel t))

  pub validate-Quiet : (t t' : Thread b) → validate rt t ≡ done t' → Quiet t t'
  unfolding validate
  validate-Quiet t t' h =
      ground (arith, validate_participant-Quiet t t', validate_channel-Quiet t t')
