-- ===== src/Exchange/Tests.antt =====
-- The first packet of a client's worker, which a server's worker sends back.
use mathlib.Core.Path.{subst}
use mathlib.Core.Option.{some-injective}
use win_udpsharded_echo.Prelude.{◌<◌, ◌≡◌, refl, [], ◌∷◌, ◌++◌, false, none, some, arith, member}
use win_udpsharded_echo.Float.Fixed.{Fixed, fixed_double}
use win_udpsharded_echo.Cc.Null.{null_congestion_controller}
use win_udpsharded_echo.SocketUtils.Io.{accepted, Datagram, max_packet_size, post_recv, post_send}
use win_udpsharded_echo.SocketUtils.Contexts.{pool, count, complete}
use win_udpsharded_echo.SocketUtils.Packet.{put_header, header_bytes, le_bytes}
use win_udpsharded_echo.Server.Worker.{
  Entry, serve, serve_at, handle, handle_recv_completion, reply, reply_async, count_reply, start,
  post_all,
}
use win_udpsharded_echo.Server.Reach.{started}
use win_udpsharded_echo.Server.Echo.{worker_of}
use win_udpsharded_echo.Server.Tests.{outcomes}
use win_udpsharded_echo.Client.Worker.{
  Client, Completion, send_packet, build_packet, sample_pacing, count_send, take_completion,
  complete_at, handle_completion, count_echo, take_echo, rearm,
}
use win_udpsharded_echo.Client.Loop.{launch, post_down}
use win_udpsharded_echo.Client.Reach.{launched}
use win_udpsharded_echo.Client.Tests.Worker.{
  zeros, length-zeros, fresh, fresh-IsFresh, config, unpaced, tick, client_of, on_its_way,
  on_its_way-Reached, pending_3,
}
use win_udpsharded_echo.Exchange.{exchange-answers}

abbrev pub request : Datagram
request = record { payload = zeros 8 ++ 100 ∷ zeros 11; dest = 9 }

abbrev pub response : Datagram
response = record { payload = zeros 8 ++ 100 ∷ zeros 11; dest = 77 }

abbrev pub arrival : Entry
arrival = record {
  overlapped = some 3;
  bytes_transferred = 20;
  payload = zeros 8 ++ 100 ∷ zeros 11;
  source = 77;
  sent = none;
  on_send = accepted;
  on_recv = accepted;
}

abbrev pub echo : Completion
echo = record {
  overlapped = some 3;
  completion_key = 5;
  bytes_transferred = 20;
  payload = zeros 8 ++ 100 ∷ zeros 11;
  source = 9;
  recv_time = 350;
  on_recv = accepted;
}

abbrev pub echoed : Client Fixed Unit
echoed = client_of (take_completion null_congestion_controller config echo on_its_way)

abbrev began : Client Fixed Unit
began = launch null_congestion_controller config unpaced (λ j. accepted) fresh

exchange-answers_example :
    (on_its_way.io.wire ≡ began.io.wire ++ request ∷ [])
    × ((worker_of (serve false arrival (start outcomes fresh))).io.wire
        ≡ (start outcomes fresh).io.wire ++ response ∷ [])
    × (member 0 echoed.outstanding_sequences ≡ false)
unfolding send_packet count_send build_packet sample_pacing launch post_send post_down post_recv
    put_header header_bytes le_bytes serve serve_at handle handle_recv_completion reply reply_async
    count_reply start post_all take_completion complete_at handle_completion count_echo take_echo
    rearm member complete
exchange-answers_example =
    exchange-answers null_congestion_controller config tick 31 (pool 15) (omega arith)
      (omega arith, omega arith) (launched unpaced (λ j. accepted) fresh fresh-IsFresh) refl refl
      false outcomes fresh (start outcomes fresh) arrival 3 refl (λ k. refl)
      (λ k. length-zeros max_packet_size) started (refl, omega arith) refl refl refl
      (omega arith, refl) echo 3 on_its_way-Reached (omega arith)
      (λ i h.
        subst (λ j. 0 < count j on_its_way.io.pending) (some-injective 3 i h)
          (omega (arith, pending_3)))
      (refl, omega arith) refl refl refl refl
