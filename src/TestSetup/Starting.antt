-- ===== src/TestSetup/Starting.antt =====
-- When `SetupRedisMock` takes the container for ready.
use mathlib.Core.List.{append-nil, append_assoc}
use mchat.Base.{
  ◌≡◌, ◌↔◌, refl, sym, Bool, true, false, not, ◌||◌, List, [], ◌∷◌, ◌++◌, Bytes, arith, all, ltb,
  length, if◌then◌else◌, inl, inr, Bool-cases,
}
use mchat.Text.{contains, has_prefix}
use mchat.Session.Input.{no_error, eof, failed}
use mchat.TestSetup.{returned, waits, Output, ready_text, await_ready, setup_redis_mock}

has_prefix-append : (s t p : Bytes) → has_prefix s p ≡ true → has_prefix (s ++ t) p ≡ true
unfolding has_prefix
has_prefix-append [] [] [] h = refl
has_prefix-append [] (c ∷ t) [] h = refl
has_prefix-append [] t (x ∷ p) h = cc
has_prefix-append (c ∷ s) t [] h = refl
has_prefix-append (c ∷ s) t (x ∷ p) h = ground (arith, has_prefix-append s t p)

-- What a text contains is in any longer one.
contains-append : (s t p : Bytes) → contains s p ≡ true → contains (s ++ t) p ≡ true
unfolding contains
contains-append [] [] [] h = h
contains-append [] (c ∷ t) [] h = unfold has_prefix in refl
contains-append [] t (x ∷ p) h = unfold has_prefix in cc
contains-append (c ∷ s) t p h = ground (arith, has_prefix-append (c ∷ s) t p, contains-append s t p)

-- all that the container has printed
abbrev pub printed : List Output → Bytes
printed [] = []
printed (o ∷ outputs) = o.stdout.bytes ++ printed outputs

abbrev pub is_plain : Output → Bool
is_plain o = elim o.stdout.err [ no_error ↦ not o.is_late | eof ↦ false | failed ↦ false ]

longer_log :
    (log bytes : Bytes) → (if ltb 0 (length bytes) then log ++ bytes else log) ≡ log ++ bytes
longer_log log [] = sym (append-nil log)
longer_log log (c ∷ bytes) = ground arith

await_ready_plain :
    (log : Bytes) (outputs : List Output)
    → contains log ready_text ≡ false
    → all is_plain outputs ≡ true
    → await_ready log outputs
      ≡ (if contains (log ++ printed outputs) ready_text then returned true false else waits)
unfolding await_ready
await_ready_plain log [] n plain = rw (append-nil log, n) refl
await_ready_plain log (o ∷ outputs) n plain =
    let log' = log ++ o.stdout.bytes in
    let whole = append_assoc log o.stdout.bytes (printed outputs) in
    let longer = longer_log log o.stdout.bytes in
    elim (Bool-cases (contains log' ready_text)) [
      | inl ready ↦
          let more = contains-append log' (printed outputs) ready_text ready in
          ground (arith, plain, ready, more, whole, longer, n)
      | inr early ↦
          let later = await_ready_plain log' outputs early (ground (arith, plain)) in
          ground (arith, plain, early, later, whole, longer)
    ]

-- Once the container is started, and while no read fails or ends and the timer does not fire: the
-- start returns without an error exactly if the text that says that redis is ready is in what the
-- container has printed, in one read or over several; otherwise it waits for more.
pub setup_redis_mock_ready :
    (outputs : List Output)
    → all is_plain outputs ≡ true
    → setup_redis_mock false false outputs
      ≡ (if contains (printed outputs) ready_text then returned true false else waits)
unfolding setup_redis_mock
setup_redis_mock_ready outputs plain =
    await_ready_plain [] outputs (unfold contains in unfold has_prefix in refl) plain

await_ready_returned :
    (log : Bytes) (outputs : List Output) (started has_err : Bool)
    → await_ready log outputs ≡ returned started has_err
    → (started ≡ true) × (has_err ≡ false)
unfolding await_ready
await_ready_returned log [] started has_err h = cc
await_ready_returned log (o ∷ outputs) started has_err h =
    let log' = if ltb 0 (length o.stdout.bytes) then log ++ o.stdout.bytes else log in
    ground (arith, await_ready_returned log' outputs started has_err)

-- For any output of the container: the call returns an error exactly if the pipe or the start of the
-- command failed, and then it says that the container is not started. So it returns no error where
-- the output ends, or a read is late, before redis is ready.
pub setup_redis_mock_returned :
    (no_pipe no_start started : Bool) (outputs : List Output)
    → (setup_redis_mock no_pipe no_start outputs ≡ returned started true)
      ↔ (((no_pipe || no_start) ≡ true) × (started ≡ false))
unfolding setup_redis_mock
setup_redis_mock_returned no_pipe no_start started outputs =
    (λ h. ground (arith, await_ready_returned [] outputs started true), λ h. ground (arith, h))
