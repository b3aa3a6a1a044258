-- ===== src/Session/Server/Delivery.antt =====
-- What a broadcast of `broadcastMessage` brings to the connections of a session.
use mathlib.Core.List.{Mem, Nodup}
use mathlib.Core.List.Perm
use native.Mathlib.Nat.{ℕ_set}
use mchat.Base.{ℕ, ◌≡◌, ◌≢◌, ◌↔◌, List, true, map}
use mchat.Text.{equal_fold}
use mchat.Util.Checksum.{equal_fold_refl}
use mchat.Dict.{values}
use mchat.Dict.Values.{mem-values, lookup-key, values-Nodup}
use mchat.Types.{ChatMessage}
use mchat.Runtime.{Runtime}
use mchat.Backend.Defs.{Backend}
use mchat.Backend.Contract.{KeepsNames}
use mchat.Session.State.{is_connected, chat}
use mchat.Session.Texts.{chat_line}
use mchat.Session.ConnectionMap.{Network, broadcast_message}
use mchat.Session.ConnectionMap.Broadcast.{broadcast_message-chat, is_from, online, without_first}
use mchat.Session.ConnectionMap.Recipients.{
  mem-online, online-Nodup, mem-without_first, without_first-Nodup,
}
use mchat.Session.Server.{Server, Reach}
use mchat.Session.Server.Invariant.{ServerInv}
use mchat.Session.Server.Names.{Reach-ServerInv}
use mchat.Session.Server.Members.{has_reader, reader_of, MapInv, Reach-MapInv}

module _ (rt : Runtime) {b : Backend} (s : Server b) (v : ServerInv s) (m : MapInv s) where
  members-Nodup : Nodup (values s.world.connections)
  members-Nodup =
      values-Nodup (λ p. (s.world.heap p).ip_addr) ℕ_set s.world.connections m.unique
        (λ ip p h. (m.entries ip p h).1)

  mem-members : (p : ℕ) → Mem p (values s.world.connections) ↔ (has_reader s p ≡ true)
  mem-members p = (
    λ h.
        (m.entries (s.world.heap p).ip_addr p (
          lookup-key (λ q. (s.world.heap q).ip_addr) ℕ_set s.world.connections p m.unique
            (λ ip q h. (m.entries ip q h).1) h)).0,
    λ h.
        let (r, at) = reader_of s p h in
        let same = (v.numbered p r at).0 in
        mem-values s.world.connections (s.world.heap p).ip_addr p
          (rw same at (v.keeps p r at).is_mapped),
  )

  module _ (n : ℕ) where
    -- those that are connected, in the order of the range
    abbrev connected_ones : List ℕ
    connected_ones = online s.world.heap (rt.arrange ℕ n (values s.world.connections))

    connected_ones-Nodup : Nodup connected_ones
    connected_ones-Nodup =
        online-Nodup s.world.heap _ ((Perm.Nodup-iff (rt.arrange_perm ℕ n _)).1 members-Nodup)

    mem-connected_ones :
        (p : ℕ)
        → Mem p connected_ones
          ↔ ((has_reader s p ≡ true) × (is_connected (s.world.heap p).state ≡ true))
    mem-connected_ones p =
        let there = Perm.mem_iff (rt.arrange_perm ℕ n (values s.world.connections)) in
        let on = mem-online s.world.heap (rt.arrange ℕ n (values s.world.connections)) p in
        (
          λ h. ((mem-members p).0 (there.0 (on.0 h).0), (on.0 h).1),
          λ (r, c). on.1 (there.1 ((mem-members p).1 r), c),
        )

-- After any steps of all the connections of a session over a storage that keeps its participants, let p be
-- a connection that has a reader and is connected, and a chat message have the name of p's
-- participant as its sender, while no other such connection has that name up to case. Then the
-- broadcast writes the line of the message to some connections, to none of them twice, and these are
-- all that have a reader and are connected, save p.
pub delivered :
    {rt : Runtime} {b : Backend} (k : KeepsNames b) {storage : b.Store} {s : Server b}
    → Reach rt storage s
    → (net : Network) (n p : ℕ) (msg : ChatMessage) → has_reader s p ≡ true
    → is_connected (s.world.heap p).state ≡ true
    → msg.sender ≡ (s.world.heap p).participant.username
    → ((q : ℕ)
        → has_reader s q ≡ true
        → is_connected (s.world.heap q).state ≡ true
        → equal_fold (s.world.heap q).participant.username msg.sender ≡ true
        → q ≡ p)
    → (targets : List ℕ) × ((broadcast_message rt net n s.world (chat msg)).writes
        ≡ map (λ q. (q, chat_line msg)) targets)
      × Nodup targets
      × ((q : ℕ)
          → Mem q targets
            ↔ ((has_reader s q ≡ true) × (is_connected (s.world.heap q).state ≡ true) × (q ≢ p)))
delivered {rt} k {s = s} reach net n p msg there on is_sender only =
    let v = Reach-ServerInv k reach in
    let m = Reach-MapInv k reach in
    let alike = is_from s.world.heap msg in
    let is_p : alike p ≡ true =
      rw is_sender (equal_fold_refl (s.world.heap p).participant.username) in
    let ones = connected_ones rt s v m n in
    let distinct = connected_ones-Nodup rt s v m n in
    let who = mem-connected_ones rt s v m n in
    let only_p : (q : ℕ) → Mem q ones → alike q ≡ true → q ≡ p =
      λ q h e. let (r, c) = (who q).0 h in only q r c e in
    (
      without_first alike ones,
      broadcast_message-chat rt net n s.world msg,
      without_first-Nodup alike p is_p ones distinct,
      λ q.
          let is_target = mem-without_first alike p is_p ones q only_p distinct in
          (
            λ h. let (h', ne) = is_target.0 h in let (r, c) = (who q).0 h' in (r, c, ne),
            λ (r, c, ne). is_target.1 ((who q).1 (r, c), ne),
          ),
    )
