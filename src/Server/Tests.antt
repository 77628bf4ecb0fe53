-- ===== src/Server/Tests.antt =====
-- A worker of server/main.cpp at work: a datagram of two bytes comes to context 3.
pub mod Boot
pub mod System
use mathlib.Core.Path.{subst}
use mathlib.Core.Option.{some-injective}
use win_udpsharded_echo.Prelude.{
  ◌%◌, u64_mod, ℕ, zero, suc, ◌<◌, ◌≡◌, refl, ap, List, [], ◌∷◌, true, ◌+◌, false, none, some,
  length, arith,
}
use win_udpsharded_echo.SocketUtils.Io.{
  IoContext, recv, Outcome, accepted, connreset, error, max_packet_size, post_recv, post_send,
}
use win_udpsharded_echo.Server.Worker.{
  Worker, Entry, going, serve, serve_all, serve_at, handle, handle_recv_completion, reply,
  reply_async, count_reply, start, post_all,
}
use win_udpsharded_echo.SocketUtils.Contexts.{complete, count}
use win_udpsharded_echo.Server.Reach.{started, served, IsDue, IsWell, Reached-IsWell}
use win_udpsharded_echo.Server.Echo.{HasSent, worker_of, replies, Reached-serve-replies}
use win_udpsharded_echo.Server.Count.{Reached-packets_sent}
use win_udpsharded_echo.Server.Loop.{Round, loop}
use win_udpsharded_echo.Server.Echoes.{Went, before_shutdown, is_stopped, loop-Went}
use win_udpsharded_echo.Server.Stats.{nobody, one_more, print_final_stats, print_final_stats-wire}

abbrev zeros : ℕ → List ℕ
zeros zero = []
zeros (suc n) = 0 ∷ zeros n

length-zeros : (n : ℕ) → length (zeros n) ≡ n
length-zeros zero = refl
length-zeros (suc n) = ap suc (length-zeros n)

-- A context as its constructor leaves it.
abbrev fresh : ℕ → IoContext
fresh j = record {
  operation = recv;
  buffer = zeros max_packet_size;
  len = max_packet_size;
  remote_addr = 0;
}

abbrev pub outcomes : List Outcome
outcomes =
    accepted ∷ accepted ∷ connreset ∷ accepted ∷ accepted ∷ accepted ∷ accepted ∷ accepted
    ∷ accepted ∷ accepted ∷ accepted ∷ accepted ∷ accepted ∷ error ∷ accepted ∷ accepted ∷ []

abbrev arrival : Entry
arrival = record {
  overlapped = some 3;
  bytes_transferred = 2;
  payload = 104 ∷ 105 ∷ [];
  source = 77;
  sent = none;
  on_send = accepted;
  on_recv = accepted;
}

abbrev after : Worker
after = worker_of (serve false arrival (start outcomes fresh))

served_going : serve false arrival (start outcomes fresh) ≡ going after
unfolding serve serve_at handle handle_recv_completion reply reply_async count_reply complete start
    post_all post_recv post_send
served_going = refl

arrival-IsDue : IsDue arrival (start outcomes fresh).io
unfolding start post_all post_recv
arrival-IsDue c h =
    subst (λ j. 0 < count j (start outcomes fresh).io.pending) (some-injective _ _ h) (omega arith)

Reached-IsWell_example : IsWell after
Reached-IsWell_example =
    Reached-IsWell false outcomes fresh after refl (λ j. refl) (λ j. length-zeros max_packet_size)
      (served started arrival arrival-IsDue (refl, omega arith) served_going)

Reached-serve-replies_example :
    HasSent (start outcomes fresh) after (replies false arrival (start outcomes fresh))
Reached-serve-replies_example =
    Reached-serve-replies false outcomes fresh (start outcomes fresh) arrival refl (λ j. refl)
      (λ j. length-zeros max_packet_size) started (refl, omega arith)

-- With `g_sync_reply` the same datagram comes, and `sendto` takes its two bytes; nothing comes in the
-- second round; then `g_shutdown` is set.
abbrev rounds : List Round
rounds =
    record { shutdown = false; batch = some (record arrival { sent = some 2 } ∷ []) }
    ∷ record { shutdown = false; batch = none }
    ∷ record { shutdown = true; batch = none }
    ∷ []

loop-Went_example :
    Went
      (before_shutdown rounds)
      (is_stopped rounds)
      (start outcomes fresh)
      (loop true rounds (start outcomes fresh))
loop-Went_example =
    loop-Went rounds outcomes fresh (λ j. refl) (λ j. length-zeros max_packet_size)
      ((refl, omega arith), tt)
