-- ===== src/Client/Tests/Worker.antt =====
-- A worker of client/main.cpp with one socket and no rate limit: it sends a packet, whose echo comes.
use mathlib.Core.Path.{subst}
use mathlib.Core.Option.{some-injective}
use win_udpsharded_echo.Prelude.{
  ℕ, zero, suc, ◌+◌, ◌<◌, ◌≡◌, refl, ap, List, [], ◌∷◌, ◌++◌, none, some, arith, length, member,
}
use win_udpsharded_echo.Float.Fixed.{Fixed, fixed_double}
use win_udpsharded_echo.Cc.Null.{null_congestion_controller}
use win_udpsharded_echo.Pacer.{Pacer, new_pacer}
use win_udpsharded_echo.SocketUtils.Io.{
  IoContext, recv, accepted, max_packet_size, post_recv, post_send,
}
use win_udpsharded_echo.SocketUtils.Contexts.{pool, count}
use win_udpsharded_echo.SocketUtils.Packet.{put_header}
use win_udpsharded_echo.Client.Worker.{
  Config, Client, Tick, Completion, Progress, runs, breaks, send_packet, build_packet,
  sample_pacing, count_send, take_completion, complete_at, handle_completion, count_echo, take_echo,
  rearm, wind_up,
}
use win_udpsharded_echo.Client.Loop.{launch, post_down}
use win_udpsharded_echo.Client.Reach.{
  IsFresh, IsReady, Note, sent, answers, Reached, launched, packet, completed, Reached-IsReady,
}
use win_udpsharded_echo.Client.Stats.{Ended, nobody, one_more}
use win_udpsharded_echo.Client.Wire.{HasSentPacket, send_packet-wire}
use win_udpsharded_echo.Client.Sequences.{is_open, packets_of, echoed_of, Reached-accounts}

abbrev pub zeros : ℕ → List ℕ
zeros zero = []
zeros (suc n) = 0 ∷ zeros n

pub length-zeros : (n : ℕ) → length (zeros n) ≡ n
length-zeros zero = refl
length-zeros (suc n) = ap suc (length-zeros n)

abbrev pub fresh : ℕ → IoContext
fresh j = record {
  operation = recv;
  buffer = zeros max_packet_size;
  len = max_packet_size;
  remote_addr = 0;
}

pub fresh-IsFresh : IsFresh fresh
fresh-IsFresh = record { operation_recv = λ j. refl; sized = λ j. length-zeros max_packet_size }

abbrev pub config : Config
config = record { sockets = 5 ∷ []; server_addr = 9; per_worker_rate = 0; payload_size = 4 }

abbrev pub unpaced : Pacer Fixed Unit
unpaced = new_pacer null_congestion_controller 0 (fixed_double.lit 0 0)

abbrev pub at_start : Client Fixed Unit
at_start = launch null_congestion_controller config unpaced (λ j. accepted) fresh

abbrev pub tick : Tick
tick = record { check_ns = 1; stamp_ns = 100; record_ns = 2; on_send = accepted }

abbrev pub client_of : Progress Fixed Unit → Client Fixed Unit
client_of (runs c) = c
client_of (breaks c) = c

abbrev pub on_its_way : Client Fixed Unit
on_its_way = client_of (send_packet null_congestion_controller config tick 31 (pool 15) at_start)

pub on_its_way-Reached :
    Reached null_congestion_controller config on_its_way (sent at_start.next_sequence ∷ [])
unfolding send_packet count_send build_packet sample_pacing launch post_send
on_its_way-Reached =
    packet tick 31 (pool 15) (launched unpaced (λ j. accepted) fresh fresh-IsFresh) refl refl

Reached-IsReady_example : IsReady on_its_way
Reached-IsReady_example = Reached-IsReady null_congestion_controller config on_its_way-Reached

-- The echo of the packet: its number 0, its time 100, then its 4 bytes.
abbrev echo : Completion
echo = record {
  overlapped = some 3;
  completion_key = 5;
  bytes_transferred = 20;
  payload = zeros 8 ++ 100 ∷ zeros 11;
  source = 9;
  recv_time = 350;
  on_recv = accepted;
}

abbrev echoed : Client Fixed Unit
echoed = client_of (take_completion null_congestion_controller config echo on_its_way)

pub pending_3 : count 3 on_its_way.io.pending ≡ 1
unfolding send_packet count_send build_packet sample_pacing launch post_send post_down post_recv
pending_3 = refl

abbrev notes : List Note
notes = answers null_congestion_controller config echo on_its_way ++ sent 0 ∷ []

echoed-Reached : Reached null_congestion_controller config echoed notes
unfolding send_packet count_send build_packet sample_pacing launch post_send post_down
    take_completion complete_at handle_completion count_echo take_echo rearm put_header post_recv
    member
echoed-Reached =
    completed echo on_its_way-Reached
      (λ i h.
        subst (λ j. 0 < count j on_its_way.io.pending) (some-injective 3 i h)
          (omega (arith, pending_3)))
      (refl, omega arith) refl

-- It is answered, and the next packet would be dropped.
abbrev final : Client Fixed Unit
final = wind_up null_congestion_controller config echoed

notes-packets_of : packets_of notes ≡ 1
unfolding send_packet count_send build_packet sample_pacing launch post_send post_down post_recv
notes-packets_of = refl

Reached-accounts_example :
    (echoed.packets_sent ≡ packets_of notes)
    × ((j : ℕ) → member j echoed.outstanding_sequences ≡ is_open j notes)
    × (final.packets_dropped + echoed_of notes ≡ echoed.packets_sent)
Reached-accounts_example =
    Reached-accounts null_congestion_controller config echoed-Reached
      (omega (arith, notes-packets_of))

-- A round in which packets are sent, an entry comes that is of no context, and the next one stops.
abbrev nothing : Completion
nothing = record {
  overlapped = none;
  completion_key = 5;
  bytes_transferred = 0;
  payload = [];
  source = 0;
  recv_time = 0;
  on_recv = accepted;
}

send_packet-wire_example :
    HasSentPacket null_congestion_controller config
      (record { sequence_number = 0; timestamp_ns = 100 })
      at_start
      on_its_way
unfolding send_packet count_send build_packet sample_pacing launch post_send
send_packet-wire_example =
    send_packet-wire null_congestion_controller config tick 31 (pool 15) (omega arith)
      (omega arith, omega arith) (launched unpaced (λ j. accepted) fresh fresh-IsFresh) refl refl

-- One worker whose packet was answered, and one whose packet was not.
ends_apart :
    Ended null_congestion_controller
      (final ∷ wind_up null_congestion_controller config on_its_way ∷ [])
      (echoed_of notes + 0)
      (packets_of notes + 1)
ends_apart = one_more config echoed-Reached (one_more config on_its_way-Reached nobody)
