-- ===== src/Session/Reader/Locality/Rounds.antt =====
-- A round of a connection's loop.
use mchat.Base.{
  ℕ, ◌≡◌, ◌≢◌, refl, sym, subst, Bool, true, false, arith, none, Bytes, if◌then◌else◌, equal,
  ==_refl, ==_iff,
}
use mchat.Dict.{lookup, delete}
use mchat.Dict.Laws.{lookup-delete}
use mchat.Runtime.{Runtime}
use mchat.Commands.{
  CommandType, command_null, command_display_menu, command_display_history, command_list_members,
  command_list_channels, command_list_commands, command_sentinel, parse_command,
}
use mchat.Backend.Defs.{Backend}
use mchat.Backend.Contract.{KeepsNames}
use mchat.Session.State.{Thread, done, bind-eq-done}
use mchat.Session.Actions.{conn_of}
use mchat.Session.ConnectionMap.{remove_conn}
use mchat.Session.Chat.{on_disconnect_state}
use mchat.Session.Input.{
  ReadEvent, read, show_history, show_members, show_channels, run_command, run_parsed,
  process_command,
}
use mchat.Session.Loop.{transition, offer_options, handle_line, finish_round, round}
use mchat.Session.Reader.Invariant.{Inv}
use mchat.Session.Reader.Rounds.{
  offer_options-Inv, read-Inv, process_command-Inv, finish_round_stays,
}
use mchat.Session.Reader.Locality.{Local, Local-trans}
use mchat.Session.Reader.Locality.Steps.{transition-Local}

module _ (rt : Runtime) {b : Backend} (q : ℕ) (u : Bytes) where
  offer_options-Local : (t : Thread b) → Local q u t (offer_options rt t)
  unfolding offer_options
  offer_options-Local t = ground arith

  read-Local : (t : Thread b) (e : ReadEvent) → Local q u t (read rt t e)
  unfolding read
  read-Local t e = ground (arith, ==_refl t.conn, ==_iff t.conn q)

  run_command-Local :
      (c : CommandType) (channel : Bytes) (t t' : Thread b)
      → run_command rt c channel t ≡ done t'
      → Local q u t t'
  unfolding run_command show_history show_members show_channels
  run_command-Local command_null channel t t' h = ground arith
  run_command-Local command_display_menu channel t t' h = ground arith
  run_command-Local command_display_history channel t t' h = ground arith
  run_command-Local command_list_members channel t t' h = ground arith
  run_command-Local command_list_channels channel t t' h = ground arith
  run_command-Local command_list_commands channel t t' h = ground arith
  run_command-Local command_sentinel channel t t' h = ground arith

  process_command-Local :
      (t t' : Thread b) (r : Bool) → process_command rt t ≡ done (t', r) → Local q u t t'
  unfolding process_command run_parsed
  process_command-Local t t' r h =
      let result = parse_command t.buffer in
      ground (arith, run_command-Local result.command_type result.channel t t')

module _ (rt : Runtime) {b : Backend} (k : KeepsNames b) (q : ℕ) where
  handled-Local :
      (u : Bytes) (t1 t' : Thread b) (r : Bool)
      → Inv t1
      → (if r then done t1 else transition rt t1.state t1) ≡ done t'
      → Local q u t1 t'
  handled-Local u t1 t' true v h = ground arith
  handled-Local u t1 t' false v h = transition-Local rt k q u t1.state t1 t' refl v h

  handle_line-Local :
      (u : Bytes) (t t' : Thread b) → Inv t → handle_line rt t ≡ done t' → Local q u t t'
  unfolding handle_line
  handle_line-Local u t t' v h =
      let ((t1, r), processed, rest) = bind-eq-done (process_command rt t) _ h in
      let first = λ (n : Bytes). process_command-Local rt q n t t1 r processed in
      Local-trans q u t t1 t' (first u) (first (conn_of t').participant.username)
        (handled-Local u t1 t' r (process_command-Inv rt t t1 r v processed) rest)

  -- What comes before the end of a round.
  before-Local :
      (u : Bytes) (t t1 : Thread b) (e : ReadEvent)
      → Inv t
      → handle_line rt (read rt (offer_options rt t) e) ≡ done t1
      → Local q u t t1
  before-Local u t t1 e v h =
      let offered = offer_options rt t in
      let heard = read rt offered e in
      let n = (conn_of t1).participant.username in
      let to_heard = λ (m : Bytes).
        Local-trans q m t offered heard (offer_options-Local rt q m t)
          (offer_options-Local rt q (conn_of heard).participant.username t)
          (read-Local rt q m offered e) in
      Local-trans q u t heard t1 (to_heard u) (to_heard n)
        (handle_line-Local u heard t1 (read-Inv rt offered e (offer_options-Inv rt t v)) h)

  pub round-Local :
      (u : Bytes) (t t' : Thread b) (e : ReadEvent)
      → Inv t
      → round rt t e ≡ done (t', false)
      → Local q u t t'
  unfolding round
  round-Local u t t' e v h =
      let before = read rt (offer_options rt t) e in
      let (t1, handled, finished) = bind-eq-done (handle_line rt before) (finish_round rt) h in
      subst (Local q u t) (sym (finish_round_stays rt k t1 t' finished))
        (before-Local u t t1 e v handled)

  -- The last round of a connection takes its address out of the map, and leaves what `Local` says of
  -- the others.
  pub record Leaves (u ip : Bytes) (t t' : Thread b) : Type 0 where
    pub same_conn : t'.conn ≡ t.conn
    pub is_gone :
        lookup t'.connections ip
        ≡ (if equal (conn_of t).ip_addr ip then none else lookup t.connections ip)
    pub is_deleted : t'.connections ≡ delete t.connections (conn_of t).ip_addr
    pub same_other : q ≢ t.conn → t'.heap q ≡ t.heap q
    pub stays_known : b.has_participant t.storage u ≡ true → b.has_participant t'.storage u ≡ true

  finish_round-Leaves :
      (u ip : Bytes) (t t' : Thread b) → finish_round rt t ≡ done (t', true) → Leaves u ip t t'
  unfolding finish_round on_disconnect_state remove_conn
  finish_round-Leaves u ip t t' h =
      ground
        (arith, ==_refl t.conn, ==_iff t.conn q, lookup-delete t.connections (conn_of t).ip_addr ip)

  pub round-Leaves :
      (u ip : Bytes) (t t' : Thread b) (e : ReadEvent)
      → Inv t
      → round rt t e ≡ done (t', true)
      → Leaves u ip t t'
  unfolding round
  round-Leaves u ip t t' e v h =
      let before = read rt (offer_options rt t) e in
      let (t1, handled, finished) = bind-eq-done (handle_line rt before) (finish_round rt) h in
      let first = before-Local u t t1 e v handled in
      let second = finish_round-Leaves u ip t1 t' finished in ground (arith, first, second)
