-- ===== src/Client/Worker.antt =====
-- `client_worker_context` and `worker_thread_func` of client/main.cpp. Clock readings and what Windows
-- answers come with each packet and each completion entry. Only the worker writes the minimum and the
-- maximum, so their compare-and-exchange loops end as a plain test would.
use win_udpsharded_echo.Prelude.{
  ℕ, ◌+◌, List, [], ◌∷◌, ◌++◌, Bool, true, false, Option, none, some, ltb, leb, ◌==◌, if◌then◌else◌,
  add64, sub64, length, member, set_insert, set_erase,
}
use win_udpsharded_echo.Float.{Double}
use win_udpsharded_echo.Cc.{Controller}
use win_udpsharded_echo.Pacer.{Pacer, can_send, record_send, poll, on_ack, reset_to_now}
use win_udpsharded_echo.TDigest.{TDigest}
use win_udpsharded_echo.Client.Digests.{post_sample}
use win_udpsharded_echo.SocketUtils.Io.{
  Operation, recv, send, Outcome, Io, set_context, post_recv, post_send,
}
use win_udpsharded_echo.SocketUtils.Contexts.{complete}
use win_udpsharded_echo.SocketUtils.Packet.{PacketHeader, header_size, put_header, get_header}

-- What does not change while the worker runs.
pub record Config : Type 0 where
  pub sockets : List ℕ
  pub server_addr : ℕ
  pub per_worker_rate : ℕ
  pub payload_size : ℕ

pub record Client (F C : Type 0) : Type 0 where
  pub next_sequence : ℕ
  pub packets_sent : ℕ
  pub packets_received : ℕ
  pub packets_dropped : ℕ
  pub bytes_sent : ℕ
  pub bytes_received : ℕ
  pub total_rtt_ns : ℕ
  pub min_rtt_ns : ℕ
  pub max_rtt_ns : ℕ
  pub outstanding_sequences : List ℕ
  pub next_socket_index : ℕ
  pub last_send_timestamp_ns : ℕ
  pub current_rtt : Option (TDigest F)
  pub current_pacing : Option (TDigest F)
  -- what the worker has pushed to the two global lists
  pub posted_rtt : List (Option (TDigest F))
  pub posted_pacing : List (Option (TDigest F))
  pub pacer : Pacer F C
  -- the vector, its back first
  pub available : List ℕ
  pub io : Io

-- One packet: the readings of `can_send`, of `get_timestamp_ns` and of `record_send`, and the answer
-- of `WSASendTo`.
pub record Tick : Type 0 where
  pub check_ns : ℕ
  pub stamp_ns : ℕ
  pub record_ns : ℕ
  pub on_send : Outcome

-- A completion entry, with its key, what Windows wrote into the context of a receive, the reading of
-- `get_timestamp_ns` and the answer of `WSARecvFrom`.
pub record Completion : Type 0 where
  pub overlapped : Option ℕ
  pub completion_key : ℕ
  pub bytes_transferred : ℕ
  pub payload : List ℕ
  pub source : ℕ
  pub recv_time : ℕ
  pub on_recv : Outcome

-- After an exception the thread ends and `g_shutdown` is set.
pub data Progress (F C : Type 0) : Type 0 where
  runs breaks : Client F C → Progress F C

-- What comes next happens unless there was an exception.
infixl 5 ◌>>=◌
abbrev pub ◌>>=◌ : {F C : Type 0} → Progress F C → (Client F C → Progress F C) → Progress F C
runs c >>= f = f c
breaks c >>= f = breaks c

abbrev pub update_min : ℕ → ℕ → ℕ
update_min target value = if ltb value target then value else target

abbrev pub update_max : ℕ → ℕ → ℕ
update_max target value = if ltb target value then value else target

abbrev pub is_none : List ℕ → Bool
is_none [] = true
is_none (_ ∷ _) = false

module _ {F C : Type 0} ⦃d : Double F⦄ (controller : Controller F C) (config : Config) where
  -- The interval since the last send is a sample; before the first send there is none.
  unfoldable pub sample_pacing : ℕ → Client F C → Option (TDigest F) × List (Option (TDigest F))
  sample_pacing now c =
      if c.last_send_timestamp_ns == 0
      then (c.current_pacing, [])
      else post_sample config.per_worker_rate (sub64 now c.last_send_timestamp_ns) c.current_pacing

  -- The header in the context's buffer, and all that changes before the send.
  unfoldable pub build_packet : Tick → ℕ → List ℕ → Client F C → Client F C
  build_packet tick i rest c =
      let x = c.io.contexts i in
      let header : PacketHeader = record {
        sequence_number = c.next_sequence;
        timestamp_ns = tick.stamp_ns;
      } in
      let (pacing, pushed) = sample_pacing tick.stamp_ns c in
      record c {
        next_sequence = add64 c.next_sequence 1;
        current_pacing = pacing;
        posted_pacing = c.posted_pacing ++ pushed;
        last_send_timestamp_ns = tick.stamp_ns;
        outstanding_sequences = set_insert c.next_sequence c.outstanding_sequences;
        next_socket_index = add64 c.next_socket_index 1;
        available = rest;
        io = record c.io {
          contexts = set_context i (record x { buffer = put_header header x.buffer }) c.io.contexts;
        };
      }

  -- After `post_send`; `seq` is the number in the packet's header.
  unfoldable pub count_send : Tick → ℕ → Client F C → Option Io → Progress F C
  count_send tick seq c none = breaks c
  count_send tick seq c (some io) = runs (record c {
    packets_sent = add64 c.packets_sent 1;
    bytes_sent = add64 c.bytes_sent (header_size + config.payload_size);
    pacer = record_send controller tick.record_ns seq c.pacer;
    io = io;
  })

  unfoldable pub send_packet : Tick → ℕ → List ℕ → Client F C → Progress F C
  send_packet tick i rest c =
      let built = build_packet tick i rest c in
      count_send tick c.next_sequence built (
        post_send tick.on_send i (built.io.contexts i).buffer (header_size + config.payload_size)
          config.server_addr built.io)

  -- `can_send`, which may change the pacer.
  unfoldable pub check : ℕ → Client F C → Client F C
  check now c = record c { pacer = (can_send controller now c.pacer).0 }

  -- The inner loop, from its `k`th packet on: each round takes a context from the pool.
  unfoldable pub send_all : (ℕ → Tick) → ℕ → List ℕ → Client F C → Progress F C
  send_all ticks k [] c = runs c
  send_all ticks k (i ∷ rest) c =
      let now = (ticks k).check_ns in
      elim (can_send controller now c.pacer).1 [
        | false ↦ runs (check now c)
        | true ↦ send_packet (ticks k) i rest (check now c) >>= λ c'. send_all ticks (k + 1) rest c'
      ]

  -- An echo that holds a header.
  unfoldable pub take_echo : Completion → PacketHeader → Client F C → Client F C
  take_echo e header c =
      let rtt = sub64 e.recv_time header.timestamp_ns in
      let (digest, pushed) = post_sample config.per_worker_rate rtt c.current_rtt in
      record c {
        total_rtt_ns = add64 c.total_rtt_ns rtt;
        min_rtt_ns = update_min c.min_rtt_ns rtt;
        max_rtt_ns = update_max c.max_rtt_ns rtt;
        current_rtt = digest;
        posted_rtt = c.posted_rtt ++ pushed;
        outstanding_sequences = set_erase header.sequence_number c.outstanding_sequences;
        pacer = on_ack controller e.recv_time header.sequence_number rtt c.pacer;
      }

  -- The receive goes back to the socket that completed, which must be one of the worker's.
  unfoldable pub rearm : Completion → ℕ → Client F C → Progress F C
  rearm e i c =
      if member e.completion_key config.sockets
      then runs (record c { io = post_recv e.on_recv i c.io })
      else if is_none config.sockets
      then runs c
      else breaks c

  unfoldable pub count_echo : Completion → ℕ → Client F C → Client F C
  count_echo e i c =
      let counted = record c {
        packets_received = add64 c.packets_received 1;
        bytes_received = add64 c.bytes_received e.bytes_transferred;
      } in
      if leb header_size e.bytes_transferred
      then take_echo e (get_header (c.io.contexts i).buffer) counted
      else counted

  unfoldable pub handle_completion : Completion → ℕ → Operation → Client F C → Progress F C
  handle_completion e i recv c = rearm e i (count_echo e i c)
  handle_completion e i send c = runs (record c { available = i ∷ c.available })

  unfoldable pub complete_at : Completion → Option ℕ → Client F C → Progress F C
  complete_at e none c = runs c
  complete_at e (some i) c =
      handle_completion e i ((c.io.contexts i).operation)
        (record c { io = complete e.payload e.source i c.io })

  unfoldable pub take_completion : Completion → Client F C → Progress F C
  take_completion e c = complete_at e e.overlapped c

  unfoldable pub take_batch : List Completion → Client F C → Progress F C
  take_batch [] c = runs c
  take_batch (e ∷ es) c = take_completion e c >>= λ c'. take_batch es c'

  unfoldable pub poll_pacer : ℕ → Client F C → Client F C
  poll_pacer now c = record c { pacer = poll controller now c.pacer }

  -- What `main` does to a worker's pacer after the start signal.
  unfoldable pub reset_pacer : ℕ → Client F C → Client F C
  reset_pacer now c = record c { pacer = reset_to_now now c.pacer }

  -- After the loop: what is outstanding counts as dropped, and the digests are handed over.
  unfoldable pub wind_up : Client F C → Client F C
  wind_up c = record c {
    packets_dropped = add64 c.packets_dropped (length c.outstanding_sequences);
    posted_rtt = c.posted_rtt ++ c.current_rtt ∷ [];
    current_rtt = none;
    posted_pacing = c.posted_pacing ++ c.current_pacing ∷ [];
    current_pacing = none;
  }
