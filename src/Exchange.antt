-- ===== src/Exchange.antt =====
-- A packet on its way: from a worker of client/main.cpp to one of server/main.cpp and back.
pub mod Tests
use mathlib.Core.Path.{subst}
use win_udpsharded_echo.Prelude.{
  ℕ, ◌+◌, ◌<◌, ◌≤◌, ◌≡◌, refl, sym, ap, ◌∙◌, List, [], ◌∷◌, ◌++◌, Bool, true, false, Option, none,
  some, arith, length, u64_mod, ltb, if◌then◌else◌, member, ◌==◌,
}
use win_udpsharded_echo.Float.{Double}
use win_udpsharded_echo.Cc.{Controller}
use win_udpsharded_echo.SocketUtils.Io.{
  recv, IoContext, Outcome, accepted, Datagram, max_packet_size, outstanding_ops,
}
use win_udpsharded_echo.SocketUtils.Packet.{PacketHeader, IsU64, header_size, max_payload_size}
use win_udpsharded_echo.Server.Worker.{Worker, Entry, serve}
use win_udpsharded_echo.Server.Reach
use win_udpsharded_echo.Server.Echo.{
  worker_of, replies, replies_at, answer, answer_at, HasSent, Reached-serve-replies,
}
use win_udpsharded_echo.Client.Worker.{
  Config, Client, Tick, Completion, Progress, runs, send_packet, take_completion,
}
use win_udpsharded_echo.Client.Reach.{
  Note, answered, IsDue, IsDelivered, Reached, completed, answers, answers_at, answer_of,
}
use win_udpsharded_echo.Client.Sequences.{packets_of, is_open, Reached-accounts}
use win_udpsharded_echo.Client.Wire.{Carries, send_packet-wire}

-- The bytes of the datagram that was handed over last.
abbrev pub last_bytes : List Datagram → List ℕ
last_bytes [] = []
last_bytes (x ∷ []) = x.payload
last_bytes (_ ∷ y ∷ ds) = last_bytes (y ∷ ds)

last_bytes-append : (ds : List Datagram) (x : Datagram) → last_bytes (ds ++ x ∷ []) ≡ x.payload
last_bytes-append [] x = refl
last_bytes-append (d ∷ []) x = refl
last_bytes-append (d ∷ y ∷ ds) x = last_bytes-append (y ∷ ds) x

-- Windows takes the reply: `sendto` reports no error, or there is a free context and `WSASendTo`
-- accepts it.
abbrev pub IsTaken : Bool → Entry → List ℕ → Type 0
IsTaken true e free = (n : ℕ) × (e.sent ≡ some n)
IsTaken false e free = (0 < length free) × (e.on_send ≡ accepted)

answer-taken :
    (sync_reply : Bool) (e : Entry) (free : List ℕ)
    → IsTaken sync_reply e free
    → answer sync_reply e free ≡ record { payload = e.payload; dest = e.source } ∷ []
answer-taken true e free (n, h) = rw h refl
answer-taken false e [] (h, k) = absurd (omega arith)
answer-taken false e (i ∷ rest) (h, k) = rw k refl

answer-at-taken :
    (sync_reply : Bool) (e : Entry) (free : List ℕ)
    → 0 < e.bytes_transferred
    → IsTaken sync_reply e free
    → answer_at sync_reply e free recv ≡ record { payload = e.payload; dest = e.source } ∷ []
answer-at-taken sync_reply e free some_bytes taken =
    ground (arith, answer-taken sync_reply e free taken)

-- A reply that Windows takes is the datagram, sent back to where it came from.
serve-echoes :
    (sync_reply : Bool) (outcomes : List Outcome) (contexts : ℕ → IoContext) (w : Worker)
    (e : Entry) (j : ℕ)
    → length outcomes ≡ outstanding_ops
    → ((k : ℕ) → (contexts k).operation ≡ recv)
    → ((k : ℕ) → length (contexts k).buffer ≡ max_packet_size)
    → Reach.Reached sync_reply outcomes contexts w
    → Reach.IsDelivered e
    → e.overlapped ≡ some j
    → (w.io.contexts j).operation ≡ recv
    → 0 < e.bytes_transferred
    → IsTaken sync_reply e w.available_send_contexts
    → (worker_of (serve sync_reply e w)).io.wire
      ≡ w.io.wire ++ record { payload = e.payload; dest = e.source } ∷ []
serve-echoes sync_reply outcomes contexts w e j n z b r del at op some_bytes taken =
    let step = Reached-serve-replies sync_reply outcomes contexts w e n z b r del in
    let reply_eq : replies sync_reply e w ≡ record { payload = e.payload; dest = e.source } ∷ [] =
      rw (at, replies_at, op, answer_at)
        (answer-at-taken sync_reply e w.available_send_contexts some_bytes taken) in
    step.on_wire ∙ ap (λ l. w.io.wire ++ l) reply_eq

module _ {F C : Type 0} ⦃d : Double F⦄ (controller : Controller F C) (config : Config) where
  -- A receive that holds the bytes of a packet takes its number out of the outstanding ones.
  take_completion-answers :
      (header : PacketHeader) (x : Datagram) {c c' : Client F C} {h : List Note} (e : Completion)
      (j : ℕ)
      → Carries config header x
      → Reached controller config c h
      → packets_of h < u64_mod
      → IsDue e c.io
      → IsDelivered e
      → e.overlapped ≡ some j
      → (c.io.contexts j).operation ≡ recv
      → e.payload ≡ x.payload
      → take_completion controller config e c ≡ runs c'
      → member header.sequence_number c'.outstanding_sequences ≡ false
  take_completion-answers header x {c} {c'} {h} e j carries r m due del at op same eq =
      let noted : answers controller config e c ≡ answered header.sequence_number ∷ [] =
        rw (at, op) (carries.answers_it e same (sym del.0 ∙ ap length same)) in
      let r' =
        subst (λ ns. Reached controller config c' (ns ++ h)) noted (completed e r due del eq) in
      (Reached-accounts controller config r' m).1 header.sequence_number ∙ ground arith

  -- A packet that a client's worker sends without an exception, with a payload of at most 65491 bytes
  -- and 64-bit numbers, is one more datagram on the wire, to the server's address. If a worker of the
  -- server, in a state that it reaches from a start with fresh contexts and 16 receives, gets the bytes
  -- of that datagram in a receive context, with their length, and Windows takes the reply, the worker
  -- puts one more datagram on its wire, with the same bytes, to the address they came from. If a worker
  -- of the client, in a state that it reaches with fewer than 2^64 packets, gets the bytes of that one in
  -- a pending receive context, with their length, and no exception comes, its next state no longer has
  -- the packet's number among the outstanding ones.
  pub exchange-answers :
      (t : Tick) (i : ℕ) (rest : List ℕ) {c c' : Client F C} {h : List Note}
      → config.payload_size ≤ max_payload_size
      → IsU64 (record { sequence_number = c.next_sequence; timestamp_ns = t.stamp_ns })
      → Reached controller config c h
      → c.available ≡ i ∷ rest
      → send_packet controller config t i rest c ≡ runs c'
      → (sync_reply : Bool) (outcomes : List Outcome) (contexts : ℕ → IoContext) (w : Worker)
        (e : Entry) (j : ℕ)
      → length outcomes ≡ outstanding_ops
      → ((k : ℕ) → (contexts k).operation ≡ recv)
      → ((k : ℕ) → length (contexts k).buffer ≡ max_packet_size)
      → Reach.Reached sync_reply outcomes contexts w
      → Reach.IsDelivered e
      → e.overlapped ≡ some j
      → (w.io.contexts j).operation ≡ recv
      → e.payload ≡ last_bytes c'.io.wire
      → IsTaken sync_reply e w.available_send_contexts
      → (a : Completion) (k : ℕ) {c₂ c₃ : Client F C} {h₂ : List Note}
      → Reached controller config c₂ h₂
      → packets_of h₂ < u64_mod
      → IsDue a c₂.io
      → IsDelivered a
      → a.overlapped ≡ some k
      → (c₂.io.contexts k).operation ≡ recv
      → a.payload ≡ last_bytes (worker_of (serve sync_reply e w)).io.wire
      → take_completion controller config a c₂ ≡ runs c₃
      → (c'.io.wire ≡ c.io.wire ++ record { payload = e.payload; dest = config.server_addr } ∷ [])
        × ((worker_of (serve sync_reply e w)).io.wire
            ≡ w.io.wire ++ record { payload = e.payload; dest = e.source } ∷ [])
        × (member c.next_sequence c₃.outstanding_sequences ≡ false)
  exchange-answers t i rest {c} {c'} p u r free sent_eq sync_reply outcomes contexts w e j n z b r_w
        del at op same taken a k r₂ m due del₂ at₂ op₂ same₂ eq₂ =
      let header : PacketHeader = record {
        sequence_number = c.next_sequence;
        timestamp_ns = t.stamp_ns;
      } in
      let (x, wire_eq, carries) = send_packet-wire controller config t i rest p u r free sent_eq in
      let same_bytes : e.payload ≡ x.payload =
        same ∙ ap last_bytes wire_eq ∙ last_bytes-append c.io.wire x in
      let some_bytes : 0 < e.bytes_transferred =
        omega (arith, del.0, ap length same_bytes, carries.whole) in
      let echoed =
        serve-echoes sync_reply outcomes contexts w e j n z b r_w del at op some_bytes taken in
      (
        rw (same_bytes, sym carries.to_server) wire_eq,
        echoed,
        take_completion-answers header x a k carries r₂ m due del₂ at₂ op₂
            (same₂ ∙ ap last_bytes echoed ∙ last_bytes-append w.io.wire _ ∙ same_bytes) eq₂,
      )
