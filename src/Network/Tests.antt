-- ===== src/Network/Tests.antt =====
-- A packet of the client's worker, the echo of one of the servers, and the answer.
use mathlib.Core.Path.{subst}
use mathlib.Core.Option.{some-injective}
use win_udpsharded_echo.Prelude.{
  ℕ, ◌-◌, ◌<◌, ◌≤◌, ◌≡◌, refl, sym, List, [], ◌∷◌, ◌++◌, Bool, false, arith, ◌==◌, Within, inl,
  update, member,
}
use win_udpsharded_echo.Float.Fixed.{Fixed, fixed_double}
use win_udpsharded_echo.Cc.Null.{null_congestion_controller}
use win_udpsharded_echo.SocketUtils.Io.{recv, accepted, max_packet_size, post_recv, post_send}
use win_udpsharded_echo.SocketUtils.Contexts.{pool, count, complete}
use win_udpsharded_echo.SocketUtils.Packet.{PacketHeader, put_header, header_bytes, le_bytes}
use win_udpsharded_echo.Server.Worker.{
  Worker, going, serve, serve_at, handle, handle_recv_completion, reply, reply_async, count_reply,
  start, post_all,
}
use win_udpsharded_echo.Server.Reach
use win_udpsharded_echo.Server.Echo.{worker_of}
use win_udpsharded_echo.Server.Tests.{outcomes}
use win_udpsharded_echo.Client.Worker.{
  Client, runs, send_packet, build_packet, sample_pacing, count_send, take_completion, complete_at,
  handle_completion, count_echo, take_echo, rearm,
}
use win_udpsharded_echo.Client.Loop.{launch, post_down}
use win_udpsharded_echo.Client.Reach.{Note, sent, answered, answers}
use win_udpsharded_echo.Client.Tests.Worker.{
  length-zeros, fresh, fresh-IsFresh, config, unpaced, tick, on_its_way,
}
use win_udpsharded_echo.Exchange.Tests.{request, response, arrival, echo, echoed}
use win_udpsharded_echo.Network.{Net, begun, sends, serves, Comes}
use win_udpsharded_echo.Network.Measured.{HasTimed, Net-measures}

abbrev is_mine : ℕ → Bool
is_mine a = a == 77

abbrev Together : Client Fixed Unit → List Note → List PacketHeader → (ℕ → Worker) → Type 0
Together = Net null_congestion_controller config false is_mine

abbrev packet : PacketHeader
packet = record { sequence_number = 0; timestamp_ns = 100 }

abbrev idle : Worker
idle = start outcomes fresh

abbrev served : Worker
served = worker_of (serve false arrival idle)

abbrev servers : ℕ → Worker
servers = update 4 served (λ k. idle)

sent_one : Together on_its_way (sent 0 ∷ []) (packet ∷ []) (λ k. idle)
unfolding send_packet count_send build_packet sample_pacing launch post_send
sent_one =
    sends tick 31 (pool 15)
      (begun unpaced (λ j. accepted) fresh (λ k. outcomes) (λ k. fresh) fresh-IsFresh
        (λ k. record {
          answered = refl;
          operation_recv = λ j. refl;
          sized = λ j. length-zeros max_packet_size;
        }))
      (omega arith, omega arith) refl refl

on_wire : on_its_way.io.wire ≡ request ∷ []
unfolding send_packet count_send build_packet sample_pacing launch post_send post_down post_recv
    put_header header_bytes le_bytes
on_wire = refl

server-IsDue : Reach.IsDue arrival idle.io
unfolding start post_all post_recv
server-IsDue c h = subst (λ j. 0 < count j idle.io.pending) (some-injective 3 c h) (omega arith)

served_going : serve false arrival idle ≡ going served
unfolding serve serve_at handle handle_recv_completion reply reply_async count_reply start post_all
    post_recv post_send complete
served_going = refl

echoed_one : Together on_its_way (sent 0 ∷ []) (packet ∷ []) servers
echoed_one =
    serves 4 arrival sent_one server-IsDue (refl, omega arith)
      (λ m. (request, subst (Within request) (sym on_wire) (inl refl), refl)) served_going

response_sent : Within response served.io.wire
unfolding serve serve_at handle handle_recv_completion reply reply_async count_reply start post_all
    post_recv post_send complete
response_sent = inl refl

response-Comes : Comes is_mine echo (packet ∷ []) servers
response-Comes = record {
  sender = 4;
  datagram = response;
  was_sent = response_sent;
  to_client = refl;
  bytes = refl;
  on_time = (omega arith, tt);
}

echo_taken : take_completion null_congestion_controller config echo on_its_way ≡ runs echoed
unfolding send_packet count_send build_packet sample_pacing launch post_send post_down post_recv
    take_completion complete_at handle_completion count_echo take_echo rearm member
echo_taken = refl

abbrev notes : List Note
notes = answers null_congestion_controller config echo on_its_way ++ sent 0 ∷ []

is_receive : (on_its_way.io.contexts 3).operation ≡ recv
unfolding send_packet count_send build_packet sample_pacing launch post_send post_down post_recv
is_receive = refl

Net-measures_example :
    (p : PacketHeader) × Within p (packet ∷ [])
    × ((q : PacketHeader) → Within q (packet ∷ []) → p.sequence_number ≡ q.sequence_number → p ≡ q)
    × (answers null_congestion_controller config echo on_its_way ≡ answered p.sequence_number ∷ [])
    × (p.timestamp_ns ≤ 350)
    × HasTimed on_its_way echoed (350 - p.timestamp_ns)
Net-measures_example =
    Net-measures null_congestion_controller config false is_mine (omega arith) echo 3 echoed_one
      (omega arith) (refl, omega arith) refl is_receive response-Comes (omega arith) echo_taken
