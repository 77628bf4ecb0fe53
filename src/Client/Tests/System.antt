-- ===== src/Client/Tests/System.antt =====
-- A run of the threads of client/main.cpp with one worker, which sends a packet: its pacer is reset
-- while it runs, and it leaves its loop when the duration is over.
use mathlib.Core.Path.{subst}
use win_udpsharded_echo.Prelude.{
  ℕ, true, ◌*◌, ◌≤◌, ◌⊎◌, ◌+◌, ◌<◌, ◌≡◌, refl, [], ◌∷◌, false, none, arith, u64_mod,
}
use win_udpsharded_echo.Float.Fixed.{Fixed, fixed_double}
use win_udpsharded_echo.Cc.Null.{null_congestion_controller}
use win_udpsharded_echo.Pacer.{Pacer, new_pacer, can_send, refill, adjust, retargets, record_send}
use win_udpsharded_echo.SocketUtils.Io.{accepted, post_send}
use win_udpsharded_echo.SocketUtils.Contexts.{pool}
use win_udpsharded_echo.Client.Worker.{
  Config, Client, reset_pacer, Tick, runs, send_all, send_packet, build_packet, sample_pacing,
  count_send, check,
}
use win_udpsharded_echo.Client.Loop.{Turn, launch, take_turn, take_answers}
use win_udpsharded_echo.Client.Reach.{sent}
use win_udpsharded_echo.Client.Tests.Worker.{config, client_of, fresh, fresh-IsFresh}
use win_udpsharded_echo.Client.Turns.{Moves, stays, checked, packet}
use win_udpsharded_echo.Client.System.{
  printed, System, reset_phase, IsDone, spawn, start_all, reset_one, measure, end_run, request,
  join, join_merger, print, signal, merger_ends, begin, go, turn, leave, Reach, start, later, stats,
}
use win_udpsharded_echo.Client.Printed.{
  IsUnbroken, handed_over, answered, printed-IsDone, printed-stats,
}
use win_udpsharded_echo.Client.Settled.{Works, rest, works, CanWork, Works-settles-all}
use win_udpsharded_echo.Client.Fills.{Fills, send_all-Fills}

abbrev paced : Pacer Fixed Unit
paced = new_pacer null_congestion_controller 0 (fixed_double.lit 1 0)

abbrev began : Client Fixed Unit
began = launch null_congestion_controller config paced (λ j. accepted) fresh

abbrev tick : Tick
tick = record {
  check_ns = 1_000_000_000;
  stamp_ns = 100;
  record_ns = 1_000_000_000;
  on_send = accepted;
}

abbrev round : Turn
round = record {
  shutdown = false;
  stop_sending = false;
  ticks = λ k. tick;
  batch = none;
  poll_ns = 400;
}

abbrev first_check : Client Fixed Unit
first_check = check null_congestion_controller config 1_000_000_000 began

abbrev sent_one : Client Fixed Unit
sent_one = client_of (send_packet null_congestion_controller config tick 31 (pool 15) first_check)

abbrev moved : Client Fixed Unit
moved = check null_congestion_controller config 1_000_000_000 sent_one

moved-take_turn : take_turn null_congestion_controller config round began ≡ runs moved
unfolding take_turn take_answers send_all send_packet count_send build_packet sample_pacing launch
    post_send can_send refill adjust retargets record_send check new_pacer
moved-take_turn = refl

moved-Moves : Moves null_congestion_controller config began moved (sent 0 ∷ [])
unfolding send_packet count_send build_packet sample_pacing launch post_send can_send refill adjust
    retargets record_send check new_pacer
moved-Moves =
    checked 1_000_000_000
      (packet tick 31 (pool 15) {c = first_check} (checked 1_000_000_000 stays) refl refl)

abbrev configs : ℕ → Config
configs i = config

abbrev IsReachable : System Fixed Unit → Type 0
IsReachable s = Reach null_congestion_controller configs 1 s

abbrev run : (s : System Fixed Unit) × IsReachable s × (s.main ≡ printed)
unfolding reset_phase
run =
    let r =
      later
        (later
          (later
            (later
              (later
                (later
                  (later
                    (later
                      (later
                        (later
                          (later
                            (later (later start (spawn 0 paced refl (omega arith)))
                              (start_all refl))
                            (begin 0 paced (λ j. accepted) fresh refl fresh-IsFresh))
                          (go 0 began refl refl))
                        (turn 0 round began moved [] (sent 0 ∷ []) refl refl moved-take_turn
                          moved-Moves))
                      (reset_one 0 5 refl (omega arith)))
                    (measure refl))
                  (end_run refl))
                (leave 0 (reset_pacer null_congestion_controller config 5 moved) (sent 0 ∷ []) refl
                  refl))
              (request refl))
            (join 0 refl (omega arith) tt))
          (merger_ends refl refl))
        (join_merger refl refl) in
    (_, later r (print refl), refl)

abbrev finished : System Fixed Unit
finished = run.0

printed-IsDone_example : IsDone (finished.workers 0)
printed-IsDone_example =
    printed-IsDone null_congestion_controller configs 1 0 run.1 run.2 (omega arith)

none_broke : (i : ℕ) → i < 1 → IsUnbroken (finished.workers i)
unfolding run reset_phase
none_broke i h = let e : 0 ≡ i = omega arith in subst (λ k. IsUnbroken (finished.workers k)) e tt

one_sent : handed_over 0 1 finished.workers < u64_mod
unfolding run reset_phase
one_sent = omega arith

printed-stats_example :
    ((stats null_congestion_controller configs 1 finished).total_sent
      ≡ handed_over 0 1 finished.workers)
    × ((stats null_congestion_controller configs 1 finished).total_dropped
          + answered 0 1 finished.workers
        ≡ (stats null_congestion_controller configs 1 finished).total_sent)
printed-stats_example =
    printed-stats null_congestion_controller configs 1 run.1 run.2 none_broke one_sent

-- A signal comes when the only worker has a thread; two steps after it.
abbrev stopped : (s : System Fixed Unit) × IsReachable s × (s.shutdown ≡ true)
stopped = (_, later (later start (spawn 0 paced refl (omega arith))) signal, refl)

abbrev two_later :
    (t : System Fixed Unit) × Works null_congestion_controller configs 1 stopped.0 2 t
two_later = (
  _,
  works (works rest (begin 0 paced (λ j. accepted) fresh refl fresh-IsFresh) tt) (start_all refl)
      tt,
)

Works-settles-all_example :
    (2 ≤ 9 * 1 + 7)
    × ((two_later.0.main ≡ printed) ⊎ CanWork null_congestion_controller configs 1 two_later.0)
Works-settles-all_example =
    Works-settles-all null_congestion_controller configs 1 (λ j. accepted) fresh paced fresh-IsFresh
      stopped.1 stopped.2 two_later.1

send_all-Fills_example : Fills null_congestion_controller config round.ticks 0 began moved
unfolding send_all send_packet count_send build_packet sample_pacing launch post_send can_send
    refill adjust retargets record_send check new_pacer
send_all-Fills_example =
    send_all-Fills null_congestion_controller config round.ticks began moved refl
