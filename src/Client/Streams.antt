-- ===== src/Client/Streams.antt =====
-- What a client prints and what it sends.
pub mod Chunks
use mathlib.Core.List.{append-nil}
use mchat.Base.{
  ◌≡◌, refl, sym, ap, ◌∙◌, inl, inr, Bool, true, false, not, ◌||◌, List, [], ◌∷◌, ◌++◌, any, Bytes,
  is_empty, if◌then◌else◌, Bool-cases, arith,
}
use mchat.Types.{build_chat_msg}
use mchat.Util.{trim_whitespaces}
use mchat.Session.Input.{ReadEvent}
use mchat.Client.Streams.Chunks.{
  chunks, lines, chunks-append, lines-append, no_chunk, one_chunk, no_line, one_line, is_last_read,
  any-append,
}
use mchat.Client.{
  Client, ReceiverState, receiving, receiver_returned, incoming, InputState, checking, typing,
  input_returned, outgoing, is_failed, handle_remote, process_input, Step, receives, prints, checks,
  types, writes, quits, Reach, starts, later,
}

-- The message that waits for `Run` to print it, or to send it.
abbrev pub unprinted : ReceiverState → List Bytes
unprinted (incoming m) = m.contents ∷ []
unprinted _ = []

abbrev pub unwritten : InputState → List Bytes
unwritten (outgoing m) = m.contents ∷ []
unwritten _ = []

abbrev is_over : ReceiverState → Bool
is_over receiver_returned = true
is_over _ = false

record StreamsInv (c : Client) : Type 0 where
  printed : c.printed ++ unprinted c.receiver ≡ chunks c.received
  written : c.written ++ unwritten c.input ≡ lines c.typed
  cancelled : c.is_cancelled ≡ is_over c.receiver
  closed : (not c.is_closed || c.is_cancelled) ≡ true
  ended : (not c.is_cancelled || any is_last_read c.received) ≡ true

-- A goroutine with nothing to hand over takes a message up, or hands one over.
took_up : (out spec more : List Bytes) → out ++ [] ≡ spec → out ++ more ≡ spec ++ more
took_up out spec more h = ap (λ l. l ++ more) (sym (append-nil out) ∙ h)

handed_over : (out more spec : List Bytes) → out ++ more ≡ spec → (out ++ more) ++ [] ≡ spec
handed_over out more spec h = append-nil (out ++ more) ∙ h

-- What is out and waits after one more read, from what was out and waited for nothing.
print_next :
    (c : Client) (e : ReadEvent)
    → c.receiver ≡ receiving
    → StreamsInv c
    → c.printed ++ chunks (e ∷ []) ≡ chunks (c.received ++ (e ∷ []))
print_next c e at v =
    took_up c.printed (chunks c.received) (chunks (e ∷ []))
      (sym (ap (λ r. c.printed ++ unprinted r) at) ∙ v.printed)
    ∙ sym (chunks-append c.received (e ∷ []))

write_next :
    (c : Client) (e : ReadEvent)
    → c.input ≡ typing
    → StreamsInv c
    → c.written ++ lines (e ∷ []) ≡ lines (c.typed ++ (e ∷ []))
write_next c e at v =
    took_up c.written (lines c.typed) (lines (e ∷ []))
      (sym (ap (λ r. c.written ++ unwritten r) at) ∙ v.written)
    ∙ sym (lines-append c.typed (e ∷ []))

handle_remote-StreamsInv :
    (c : Client) (e : ReadEvent) (now : Bytes)
    → c.receiver ≡ receiving
    → StreamsInv c
    → StreamsInv (handle_remote c e now)
unfolding handle_remote build_chat_msg
handle_remote-StreamsInv c e now at v = elim (Bool-cases (is_failed e.err || is_empty e.bytes)) [
  | inl skipped ↦
      let next = sym (ap (λ l. c.printed ++ l) (no_chunk e skipped)) ∙ print_next c e at v in
      elim (Bool-cases (is_failed e.err)) [
        | inl fails ↦ rw fails (ends skipped next)
        | inr works ↦
            rw (works, skipped_empty (is_failed e.err) (is_empty e.bytes) works skipped)
              (ends skipped next)
      ]
  | inr taken ↦
      let next = sym (ap (λ l. c.printed ++ l) (one_chunk e taken)) ∙ print_next c e at v in
      let (works, some_bytes) = neither (is_failed e.err) (is_empty e.bytes) taken in
      rw (works, some_bytes)
        (record {
          printed = next;
          written = v.written;
          cancelled = v.cancelled ∙ ap is_over at;
          closed = v.closed;
          ended = ground (arith, v.ended, any-append is_last_read c.received (e ∷ []));
        })
]
  where
    ends :
        (is_failed e.err || is_empty e.bytes) ≡ true
        → c.printed ++ [] ≡ chunks (c.received ++ (e ∷ []))
        → StreamsInv (record c {
          received = c.received ++ (e ∷ []);
          is_cancelled = true;
          receiver = receiver_returned;
        })
    ends skipped next = record {
      printed = next;
      written = v.written;
      cancelled = refl;
      closed = ground arith;
      ended = ground (arith, any-append is_last_read c.received (e ∷ []), skipped);
    }

    skipped_empty : (a b : Bool) → a ≡ false → (a || b) ≡ true → b ≡ true
    skipped_empty a b h h' = ground arith

    neither : (a b : Bool) → (a || b) ≡ false → (a ≡ false) × (b ≡ false)
    neither a b h = ground arith

process_input-StreamsInv :
    (c : Client) (e : ReadEvent) (now : Bytes)
    → c.input ≡ typing
    → StreamsInv c
    → StreamsInv (process_input c e now)
unfolding process_input build_chat_msg
process_input-StreamsInv c e now at v = elim (Bool-cases (is_failed e.err)) [
  | inl fails ↦ rw fails (record {
    printed = v.printed;
    written = sym (ap (λ l. c.written ++ l) (no_line e fails)) ∙ write_next c e at v;
    cancelled = v.cancelled;
    closed = v.closed;
    ended = v.ended;
  })
  | inr works ↦ rw works (record {
    printed = v.printed;
    written = sym (ap (λ l. c.written ++ l) (one_line e works)) ∙ write_next c e at v;
    cancelled = v.cancelled;
    closed = v.closed;
    ended = v.ended;
  })
]

check-StreamsInv :
    (c : Client)
    → c.input ≡ checking
    → StreamsInv c
    → StreamsInv (record c { input = if c.is_cancelled then input_returned else typing })
check-StreamsInv c at v =
    let idle = sym (ap (λ r. c.written ++ unwritten r) at) ∙ v.written in
    record {
      printed = v.printed;
      written = elim (Bool-cases c.is_cancelled) [ inl e ↦ rw e idle | inr e ↦ rw e idle ];
      cancelled = v.cancelled;
      closed = v.closed;
      ended = v.ended;
    }

Step-StreamsInv : {c c' : Client} → Step c c' → StreamsInv c → StreamsInv c'
Step-StreamsInv {c} (receives e now at) v = handle_remote-StreamsInv c e now at v
Step-StreamsInv {c} (prints m at waits) v = record {
  printed =
      handed_over c.printed (m.contents ∷ []) (chunks c.received)
        (sym (ap (λ r. c.printed ++ unprinted r) waits) ∙ v.printed);
  written = v.written;
  cancelled = v.cancelled ∙ ap is_over waits;
  closed = v.closed;
  ended = v.ended;
}
Step-StreamsInv {c} (checks at) v = check-StreamsInv c at v
Step-StreamsInv {c} (types e now at) v = process_input-StreamsInv c e now at v
Step-StreamsInv {c} (writes m at waits) v = record {
  printed = v.printed;
  written =
      handed_over c.written (m.contents ∷ []) (lines c.typed)
        (sym (ap (λ r. c.written ++ unwritten r) waits) ∙ v.written);
  cancelled = v.cancelled;
  closed = v.closed;
  ended = v.ended;
}
Step-StreamsInv {c} (quits at cancelled) v = record {
  printed = v.printed;
  written = v.written;
  cancelled = v.cancelled;
  closed = ground (arith, cancelled);
  ended = v.ended;
}

Reach-StreamsInv : {c : Client} → Reach c → StreamsInv c
unfolding chunks lines
Reach-StreamsInv starts = record {
  printed = refl;
  written = refl;
  cancelled = refl;
  closed = refl;
  ended = refl;
}
Reach-StreamsInv (later reach step) = Step-StreamsInv step (Reach-StreamsInv reach)

-- After any steps of a client, what it has printed, with the message that waits for it, is what
-- the reads of the connection that did not fail returned, without the empty ones; what it has
-- sent, with the message that waits, is the lines that were typed, trimmed; both in order, and none
-- twice. The connection is closed only after a read of it has failed or returned no bytes.
pub relays_reached :
    {c : Client}
    → Reach c
    → (c.printed ++ unprinted c.receiver ≡ chunks c.received)
      × (c.written ++ unwritten c.input ≡ lines c.typed)
      × ((not c.is_closed || any is_last_read c.received) ≡ true)
relays_reached {c} reach =
    let v = Reach-StreamsInv reach in (v.printed, v.written, ground (arith, v.closed, v.ended))
