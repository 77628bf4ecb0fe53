-- ===== src/Network/Measured.antt =====
-- That every round-trip time which the client's worker records is that of a packet.
use mathlib.Core.Path.{subst}
use win_udpsharded_echo.Prelude.{
  ℕ, ◌-◌, ◌<◌, ◌≤◌, ◌≡◌, refl, ap, ◌∙◌, List, [], ◌∷◌, Bool, true, some, arith, length, leb, add64,
  sub64, u64_mod, member, All-Within, Within, inl, inr, Bool-cases,
}
use win_udpsharded_echo.Float.{Double}
use win_udpsharded_echo.Cc.{Controller}
use win_udpsharded_echo.SocketUtils.Io.{recv, max_packet_size}
use win_udpsharded_echo.SocketUtils.Contexts.{complete}
use win_udpsharded_echo.SocketUtils.Packet.{
  PacketHeader, get_header, get_header-overwrite, header_size, max_payload_size,
}
use win_udpsharded_echo.Server.Worker.{Worker}
use win_udpsharded_echo.Client.Worker.{
  Config, Client, Completion, runs, update_min, update_max, is_none, take_echo, rearm, count_echo,
  handle_completion, complete_at, take_completion,
}
use win_udpsharded_echo.Client.Books.{buffer-complete}
use win_udpsharded_echo.Client.Reach.{Kept, IsDelivered, Note, answered, answers, Reached-IsReady}
use win_udpsharded_echo.Client.Wire.{answer_of-full}
use win_udpsharded_echo.Network.{Net, Comes}
use win_udpsharded_echo.Client.Sequences.{packets_of}
use win_udpsharded_echo.Network.Numbers.{IsNumbered-unique, Net-IsNumbered}
use win_udpsharded_echo.Network.Honest.{Net-Sound, Comes-IsPacket}

-- The step from `c` to `c'` records the time `rtt`.
pub record HasTimed {F C : Type 0} (c c' : Client F C) (rtt : ℕ) : Type 0 where
  pub in_total : c'.total_rtt_ns ≡ add64 c.total_rtt_ns rtt
  pub in_min : c'.min_rtt_ns ≡ update_min c.min_rtt_ns rtt
  pub in_max : c'.max_rtt_ns ≡ update_max c.max_rtt_ns rtt

module _ {F C : Type 0} ⦃d : Double F⦄ (controller : Controller F C) (config : Config) where
  HasTimed-count_echo :
      (e : Completion) (i : ℕ) (c : Client F C)
      → (c.io.contexts i).operation ≡ recv
      → length (c.io.contexts i).buffer ≡ max_packet_size
      → IsDelivered e
      → header_size ≤ e.bytes_transferred
      → HasTimed c
          (count_echo controller config e i (record c { io = complete e.payload e.source i c.io }))
          (sub64 e.recv_time (get_header e.payload).timestamp_ns)
  unfolding count_echo take_echo
  HasTimed-count_echo e i c o z (n, m) b =
      let long : leb header_size e.bytes_transferred ≡ true = ground arith in
      let seen =
        ap get_header (buffer-complete controller config e.payload e.source i c.io o)
        ∙ get_header-overwrite e.payload (c.io.contexts i).buffer (omega arith) (omega arith) in
      rw (long, seen) (record { in_total = refl; in_min = refl; in_max = refl })

  HasTimed-rearm :
      (e : Completion) (i : ℕ) (c c' : Client F C) (rtt : ℕ)
      → HasTimed c c' rtt
      → Kept (λ c'. HasTimed c c' rtt) (rearm controller config e i c')
  unfolding rearm
  HasTimed-rearm e i c c' rtt t = elim (Bool-cases (member e.completion_key config.sockets)) [
    | inl m ↦ rw m (record { in_total = t.in_total; in_min = t.in_min; in_max = t.in_max })
    | inr m ↦ elim (Bool-cases (is_none config.sockets)) [
      | inl n ↦ rw (m, n) t
      | inr n ↦ rw (m, n) tt
    ]
  ]

  HasTimed-take_completion :
      (e : Completion) (i : ℕ) (c : Client F C)
      → e.overlapped ≡ some i
      → (c.io.contexts i).operation ≡ recv
      → length (c.io.contexts i).buffer ≡ max_packet_size
      → IsDelivered e
      → header_size ≤ e.bytes_transferred
      → Kept
          (λ c'. HasTimed c c' (sub64 e.recv_time (get_header e.payload).timestamp_ns))
          (take_completion controller config e c)
  unfolding take_completion complete_at handle_completion count_echo take_echo rearm
  HasTimed-take_completion e i c at o z del b =
      rw (at, o) (HasTimed-rearm e i c _ _ (HasTimed-count_echo e i c o z del b))

module _ {F C : Type 0} ⦃d : Double F⦄ (controller : Controller F C) (config : Config)
    (sync_reply : Bool) (is_mine : ℕ → Bool) (fits : config.payload_size ≤ max_payload_size) where
  -- With payloads of at most 65491 bytes, whatever the network does, as long as it makes up no datagram
  -- from or to the client's addresses and the client's clock is not behind the time stamps so far: a
  -- receive of the client's worker without an exception, while it has sent fewer than 2^64 packets,
  -- brings the bytes of a packet that it sent, the only one with its number; the number is the one that
  -- is taken for answered, and the round-trip time that goes into the total, the minimum and the
  -- maximum is exactly the time from the packet's time stamp to the reading of the clock, a 64-bit one.
  pub Net-measures :
      (e : Completion) (i : ℕ) {c c' : Client F C} {h : List Note} {log : List PacketHeader}
      {ws : ℕ → Worker}
      → Net controller config sync_reply is_mine c h log ws
      → packets_of h < u64_mod
      → IsDelivered e
      → e.overlapped ≡ some i
      → (c.io.contexts i).operation ≡ recv
      → Comes is_mine e log ws
      → e.recv_time < u64_mod
      → take_completion controller config e c ≡ runs c'
      → (p : PacketHeader) × Within p log
        × ((q : PacketHeader) → Within q log → p.sequence_number ≡ q.sequence_number → p ≡ q)
        × (answers controller config e c ≡ answered p.sequence_number ∷ [])
        × (p.timestamp_ns ≤ e.recv_time)
        × HasTimed c c' (e.recv_time - p.timestamp_ns)
  Net-measures e i {c} {c'} {log} n few del at op comes small eq =
      let s = Net-Sound controller config sync_reply is_mine fits n in
      let k = Comes-IsPacket controller config sync_reply is_mine fits e s comes in
      let early : k.header.timestamp_ns ≤ e.recv_time =
        All-Within (λ p. p.timestamp_ns ≤ e.recv_time) log k.header comes.on_time k.in_log in
      let long : header_size ≤ e.bytes_transferred = omega (arith, k.whole, del.0) in
      let noted : answers controller config e c ≡ answered k.header.sequence_number ∷ [] =
        simp (at, op)
          (answer_of-full e long ∙ ap (λ p. answered p.sequence_number ∷ []) k.reads_back) in
      let rtt_eq : sub64 e.recv_time (get_header e.payload).timestamp_ns
          ≡ e.recv_time - k.header.timestamp_ns =
        rw k.reads_back (omega (arith, early)) in
      let timed =
        subst (Kept (λ c'. HasTimed c c' (sub64 e.recv_time (get_header e.payload).timestamp_ns)))
          eq
          (HasTimed-take_completion controller config e i c at op
            ((Reached-IsReady controller config s.reached).sized i) del long) in
      let (_, numbered) = Net-IsNumbered controller config sync_reply is_mine fits n few in
      (
        k.header,
        k.in_log,
        (λ q at' same. IsNumbered-unique k.header q log numbered k.in_log at' same),
        noted,
        early,
        subst (HasTimed c c') rtt_eq timed,
      )
