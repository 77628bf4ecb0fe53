-- ===== src/Server/Tests/System.antt =====
-- A run of the threads of server/main.cpp with one worker, to which a datagram comes; the duration of 5
-- seconds ends it, after one line of the printing thread.
use mathlib.Core.Path.{subst}
use win_udpsharded_echo.Prelude.{
  ℕ, true, ◌+◌, ◌*◌, ◌≤◌, ◌⊎◌, ◌%◌, ◌<◌, ◌≡◌, refl, sym, [], ◌∷◌, false, some, arith, u64_mod,
}
use win_udpsharded_echo.SocketUtils.Io.{max_packet_size, post_recv, post_send}
use win_udpsharded_echo.SocketUtils.Contexts.{complete}
use win_udpsharded_echo.Server.Worker.{
  going, serve, serve_all, serve_at, handle, handle_recv_completion, reply, reply_async,
  count_reply, start, post_all,
}
use win_udpsharded_echo.Server.Loop.{Kept, take_batch, IsOrderlyBatch}
use win_udpsharded_echo.Server.System.{
  printed, System, IsDone, IsOver, IsAwake, IsFresh, spawn, start_timer, create_rps_thread, wake,
  join_rps, join_timer, join, print, signal, fire, doze, tell, printer_ends, begin, turn, leave,
  Reach, at_first, later, stats,
}
use win_udpsharded_echo.Server.Settled.{Works, rest, works, CanWork, Works-settles}
use win_udpsharded_echo.Server.Printed.{IsUnbroken, on_wire, printed-quiet, printed-wire}
use win_udpsharded_echo.Server.Tests.{
  fresh, length-zeros, outcomes, arrival, after, served_going, arrival-IsDue,
}

fresh-IsFresh : IsFresh outcomes fresh
fresh-IsFresh = record {
  answered = refl;
  operation_recv = λ j. refl;
  sized = λ j. length-zeros max_packet_size;
}

after-take_batch : take_batch false (some (arrival ∷ [])) (start outcomes fresh) ≡ going after
unfolding take_batch serve_all serve serve_at handle handle_recv_completion reply reply_async
    count_reply complete start post_all post_recv post_send
after-take_batch = refl

arrival-IsOrderly : IsOrderlyBatch false outcomes fresh (some (arrival ∷ [])) (start outcomes fresh)
arrival-IsOrderly =
    (arrival-IsDue, (refl, omega arith), subst (Kept (λ w. Unit)) (sym served_going) tt)

abbrev run : (s : System) × Reach false 5 1 s × (s.main ≡ printed)
run =
    let r =
      later
        (later
          (later
            (later
              (later
                (later
                  (later
                    (later
                      (later
                        (later
                          (later
                            (later
                              (later (later at_first (spawn 0 refl (omega arith)))
                                (start_timer refl))
                              (create_rps_thread refl))
                            (begin 0 outcomes fresh refl fresh-IsFresh))
                          (doze 0 refl refl))
                        (turn 0 (some (arrival ∷ [])) outcomes fresh (start outcomes fresh) after
                          refl refl arrival-IsOrderly after-take_batch))
                      (fire refl))
                    (tell 0 _ refl refl))
                  (printer_ends _ refl refl))
                (wake refl refl))
              (leave 0 outcomes fresh after refl refl))
            (join_rps refl tt))
          (join_timer refl tt))
        (join 0 refl (omega arith) tt) in
    (_, later r (print refl), refl)

abbrev finished : System
finished = run.0

printed-quiet_example :
    ((i : ℕ) → i < 1 → IsDone (finished.workers i))
    × IsOver finished.printer
    × IsAwake finished.timer
printed-quiet_example = printed-quiet false 5 1 run.1 run.2

none_broke : (i : ℕ) → i < 1 → IsUnbroken (finished.workers i)
none_broke i h = let e : 0 ≡ i = omega arith in subst (λ k. IsUnbroken (finished.workers k)) e tt

printed-wire_example :
    (stats false 5 1 finished).total_sent ≡ on_wire 0 1 finished.workers % u64_mod
printed-wire_example = printed-wire false 5 1 run.1 run.2 none_broke

-- A signal comes when the only worker has a thread; two steps after it.
abbrev stopped : (s : System) × Reach false 5 1 s × (s.shutdown ≡ true)
stopped = (_, later (later at_first (spawn 0 refl (omega arith))) signal, refl)

abbrev two_later : (t : System) × Works false 5 1 stopped.0 2 t
two_later =
    (_, works (works rest (begin 0 outcomes fresh refl fresh-IsFresh) tt) (start_timer refl) tt)

Works-settles_example :
    (2 ≤ 6 * 1 + 11) × ((two_later.0.main ≡ printed) ⊎ CanWork false 5 1 two_later.0)
Works-settles_example =
    Works-settles false 5 1 outcomes fresh fresh-IsFresh stopped.1 stopped.2 two_later.1
