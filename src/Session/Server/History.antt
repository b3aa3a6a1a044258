-- ===== src/Session/Server/History.antt =====
-- What the history command shows of a session.
use mathlib.Core.Option.{some_inj}
use mathlib.Core.List.{flatten, Perm}
use mchat.Base.{
  ap, sym, subst, ◌∙◌, map, ◌++◌, equal, ℕ, ◌≡◌, refl, not, ◌==◌, true, false, List, [], ◌∷◌, some,
  none, Bytes, codes, all, is_empty,
}
use mchat.Runtime.{Runtime}
use mchat.Text.{split, has_prefix, to_lower}
use mchat.Util.{trim_whitespaces}
use mchat.Types.{ChatMessage, build_sys_msg}
use mchat.Commands.{
  command_display_history, parse_command, parse_words, find_command, parse_arguments, command_table,
}
use mchat.Backend.Defs.{Backend}
use mchat.Backend.Contract.{KeepsHistory}
use mchat.Session.State.{
  Reader, Thread, sys, state_accepting_messages, match_state, is_connected, done,
}
use mchat.Session.Actions.{conn_of, reply}
use mchat.Session.Texts.{build_chat_history, chat_line}
use mchat.Session.Input.{
  no_error, read, after_read, process_command, run_parsed, run_command, show_history,
}
use mchat.Session.Loop.{round, handle_line, finish_round, offer_options}
use mchat.Session.Reader.Log.{chat_log}
use mchat.Session.Server.{thread}
use mchat.Session.Server.Overlap.{Overlapping, OverlapReach}
use mchat.Session.Server.Overlap.Shuffled.{stored_sent}

abbrev pub history_line : Bytes
history_line = codes ":history"

history_parsed :
    ((parse_command history_line).command_type ≡ command_display_history)
    × ((parse_command history_line).channel ≡ [])
    × ((parse_command history_line).error ≡ none)
    × ((parse_command history_line).is_matched ≡ true)
unfolding parse_command parse_words find_command parse_arguments split has_prefix equal
    command_table to_lower
history_parsed = (refl, refl, refl, refl)

-- A round with the command.
history_round :
    (rt : Runtime) {b : Backend} (t : Thread b) (bytes : Bytes) (h : List ChatMessage)
    → t.state ≡ state_accepting_messages
    → is_connected (conn_of t).state ≡ true
    → is_empty bytes ≡ false
    → trim_whitespaces bytes ≡ history_line
    → b.get_chat_history t.storage ([] ∷ []) ≡ some h
    → is_empty h ≡ false
    → (t' : Thread b) × (round rt t (record { bytes = bytes; err = no_error }) ≡ done (t', false))
      × (t'.sent
          ≡ sys (
              build_sys_msg
                (rt.sprintf (build_chat_history h))
                ((conn_of t).ip_addr ∷ [])
                (rt.time_now_str t.readings))
            ∷ t.sent)
unfolding round handle_line read after_read offer_options process_command run_parsed run_command
    show_history finish_round match_state reply
history_round rt {b} t bytes h e on heard typed found some_said =
    let t1 = record t { reader = record (t.reader) { buffer = trim_whitespaces bytes } } in
    let text = rt.sprintf (build_chat_history h) in
    let (is, general, fine, matched) = history_parsed in
    (
      reply rt t1 text,
      rw (e, heard, typed, fine, matched, is, general, on, found, some_said) refl,
      refl,
    )

-- The lines of messages, one after the other.
abbrev pub all_lines : List ChatMessage → Bytes
all_lines log = flatten (map chat_line log)

build_chat_history-all_lines : (log : List ChatMessage) → build_chat_history log ≡ all_lines log
unfolding build_chat_history flatten
build_chat_history-all_lines [] = refl
build_chat_history-all_lines (m ∷ log) =
    ap (λ s. chat_line m ++ s) (build_chat_history-all_lines log)

-- Over a storage that keeps its general history, which is empty at the start, after any rounds of all
-- the connections, which may overlap between the store of a chat message and its hand over. Let the
-- general history have at least one message and no per cent sign in the lines of its messages, and let
-- a connected participant who is in the chat send a line that is the history command without a channel,
-- between white space. Then a round that no other goroutine steps into goes on, and hands over one
-- more message, to the address of the participant's connection, whose text is the lines of the
-- general history in its order: these are the messages that were handed over and those that are stored
-- and not handed over yet, each once.
pub history_shown :
    {rt : Runtime} {b : Backend} (k : KeepsHistory b) {storage : b.Store} {s : Overlapping b}
    → b.get_chat_history storage ([] ∷ []) ≡ some []
    → OverlapReach rt storage s
    → (h : List ChatMessage) → b.get_chat_history s.server.world.storage ([] ∷ []) ≡ some h
    → is_empty h ≡ false
    → all (λ c. not (c == b'%')) (all_lines h) ≡ true
    → (p : ℕ) (r : Reader) → s.server.readers p ≡ some r
    → r.state ≡ state_accepting_messages
    → is_connected (s.server.world.heap r.conn).state ≡ true
    → (bytes : Bytes) → trim_whitespaces bytes ≡ history_line
    → is_empty bytes ≡ false
    → Perm h (chat_log s.server.world.sent ++ map (λ x. x.msg) s.held)
      × (t' : Thread b) × (round rt
            (thread r s.server.world)
            (record { bytes = bytes; err = no_error })
          ≡ done (t', false))
      × (t'.sent
          ≡ sys (
              build_sys_msg
                (all_lines h)
                ((s.server.world.heap r.conn).ip_addr ∷ [])
                (rt.time_now_str s.server.world.readings))
            ∷ s.server.world.sent)
history_shown {rt} k {s = s} first reach h stored some_said plain p r at chatting on bytes typed
      heard =
    let (h', stored', perm) = stored_sent rt k [] first reach in
    let same = build_chat_history-all_lines h in
    let plainly = rt.sprintf_plain (all_lines h) plain in
    let (t', goes, shown) =
      history_round rt (thread r s.server.world) bytes h chatting on heard typed stored some_said in
    (
      subst (λ l. Perm l (chat_log s.server.world.sent ++ map (λ x. x.msg) s.held))
          (some_inj.0 (sym stored' ∙ stored)) perm,
      t',
      goes,
      rw (same, plainly) at shown,
    )
