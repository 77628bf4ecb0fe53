-- ===== src/Client/Wire.antt =====
-- What a worker of client/main.cpp hands to Windows, and what it makes of its echo.
use mathlib.Core.Path.{subst}
use win_udpsharded_echo.Prelude.{
  ℕ, zero, suc, ◌+◌, ◌≤◌, ◌≡◌, refl, ap, ◌∙◌, List, [], ◌∷◌, ◌++◌, arith, take, length, inl, inr,
}
use win_udpsharded_echo.Float.{Double}
use win_udpsharded_echo.Cc.{Controller}
use win_udpsharded_echo.SocketUtils.Io.{recv, Datagram, max_packet_size, post_send}
use win_udpsharded_echo.SocketUtils.Contexts.{Outcome-cases}
use win_udpsharded_echo.SocketUtils.Packet.{
  header_size, max_payload_size, PacketHeader, get_header, put_header, get_header-take, IsU64,
  length-put_header,
}
use win_udpsharded_echo.Client.Worker.{
  Config, Client, Tick, Completion, runs, build_packet, count_send, send_packet,
}
use win_udpsharded_echo.Client.Reach.{Kept, Note, answered, answer_of, Reached, Reached-IsReady}

-- A datagram for the server that is the packet with that header, and that a receive takes for its
-- answer if it comes back as it is.
pub record Carries (config : Config) (header : PacketHeader) (x : Datagram) : Type 0 where
  pub to_server : x.dest ≡ config.server_addr
  pub whole : length x.payload ≡ header_size + config.payload_size
  pub reads_back : get_header x.payload ≡ header
  pub answers_it :
      (e : Completion)
      → e.payload ≡ x.payload
      → e.bytes_transferred ≡ length x.payload
      → answer_of e recv ≡ answered header.sequence_number ∷ []

length-take_le : (n : ℕ) (xs : List ℕ) → n ≤ length xs → length (take n xs) ≡ n
length-take_le zero xs h = refl
length-take_le (suc n) [] h = absurd (omega arith)
length-take_le (suc n) (x ∷ xs) h = ap suc (length-take_le n xs (omega arith))

pub answer_of-full :
    (e : Completion)
    → header_size ≤ e.bytes_transferred
    → answer_of e recv ≡ answered (get_header e.payload).sequence_number ∷ []
answer_of-full e h = ground arith

module _ {F C : Type 0} ⦃d : Double F⦄ (controller : Controller F C) (config : Config) where
  -- One more datagram on the wire, which carries the packet.
  abbrev pub HasSentPacket : PacketHeader → Client F C → Client F C → Type 0
  HasSentPacket header c c' =
      (x : Datagram) × (c'.io.wire ≡ c.io.wire ++ x ∷ []) × Carries config header x

  Carries-packet :
      (header : PacketHeader) (buffer : List ℕ)
      → IsU64 header
      → config.payload_size ≤ max_payload_size
      → length buffer ≡ max_packet_size
      → Carries config header (record {
        payload = take (header_size + config.payload_size) (put_header header buffer);
        dest = config.server_addr;
      })
  Carries-packet header buffer u p b =
      let n = header_size + config.payload_size in
      let whole =
        length-take_le n (put_header header buffer)
          (omega (arith, length-put_header header buffer)) in
      let reads_back = get_header-take header n buffer u (omega arith) (omega arith) in
      record {
        to_server = refl;
        whole = whole;
        reads_back = reads_back;
        answers_it = λ e q l.
            answer_of-full e (omega (arith, l, whole))
            ∙ ap (λ p. answered (get_header p).sequence_number ∷ []) q
            ∙ ap (λ h. answered h.sequence_number ∷ []) reads_back;
      }

  count_send-wire :
      (t : Tick) (i : ℕ) (c built : Client F C) (header : PacketHeader) (buffer : List ℕ)
      → built.io.wire ≡ c.io.wire
      → (built.io.contexts i).buffer ≡ put_header header buffer
      → IsU64 header
      → config.payload_size ≤ max_payload_size
      → length buffer ≡ max_packet_size
      → Kept (HasSentPacket header c) (
          count_send controller config t header.sequence_number built (
            post_send t.on_send i
              (built.io.contexts i).buffer
              (header_size + config.payload_size)
              config.server_addr
              built.io))
  unfolding count_send post_send
  count_send-wire t i c built header buffer w e u p b = elim (Outcome-cases t.on_send) [
    | inl o ↦ rw o (
      _,
      ground (arith, w, e, p, b, length-put_header header buffer),
      Carries-packet header buffer u p b,
    )
    | inr (inl o) ↦ rw o tt
    | inr (inr o) ↦ rw o tt
  ]

  -- A worker whose payloads have at most 65491 bytes hands a datagram to Windows for each packet that
  -- it sends without an exception: for the server, whole and with a header that reads back as the
  -- next number and the time stamp. An echo of the same bytes is then taken for the answer to that
  -- number. Both numbers are 64-bit, and the state is any that the worker reaches with a free context.
  pub send_packet-wire :
      (t : Tick) (i : ℕ) (rest : List ℕ) {c c' : Client F C} {h : List Note}
      → config.payload_size ≤ max_payload_size
      → IsU64 (record { sequence_number = c.next_sequence; timestamp_ns = t.stamp_ns })
      → Reached controller config c h
      → c.available ≡ i ∷ rest
      → send_packet controller config t i rest c ≡ runs c'
      → HasSentPacket (record { sequence_number = c.next_sequence; timestamp_ns = t.stamp_ns }) c c'
  unfolding send_packet build_packet
  send_packet-wire t i rest {c} p u r a eq =
      let header : PacketHeader = record {
        sequence_number = c.next_sequence;
        timestamp_ns = t.stamp_ns;
      } in
      subst (Kept (HasSentPacket header c)) eq (
        count_send-wire t i c (build_packet controller config t i rest c) header
          (c.io.contexts i).buffer refl (ground arith) u p
          ((Reached-IsReady controller config r).sized i))
