-- ===== src/Server/Closing.antt =====
-- `main` of server/main.cpp where it closes what the workers own, and from the start of Winsock to the
-- end of the program. The threads that run in between neither open nor close a handle.
use win_udpsharded_echo.Prelude.{ℕ, List, [], ◌∷◌, ◌++◌, Option}
use win_udpsharded_echo.SocketUtils.Calls.{
  Result, ok, thrown, World, close_socket, reset_port, cleanup_winsock,
}
use win_udpsharded_echo.Server.Boot.{WorkerContext, boot}

-- The completion ports, which wakes the workers.
unfoldable pub close_iocps : List WorkerContext → World → World
close_iocps [] w = w
close_iocps (ctx ∷ workers) w = close_iocps workers (reset_port ctx.iocp w)

-- The destructor of `unique_socket` after the end of Winsock: `closesocket` fails, and its answer is not
-- looked at.
abbrev pub reset_late : ℕ → World → World
reset_late s w = record w { calls = w.calls ++ close_socket s ∷ [] }

-- The end of the vector of the workers. The ports are closed already; the order of destruction is not
-- laid down, and is from first to last here.
unfoldable pub drop_workers : List WorkerContext → World → World
drop_workers [] w = w
drop_workers (ctx ∷ workers) w = drop_workers workers (reset_late ctx.socket w)

module _ (answer : ℕ → Option ℕ) where
  unfoldable pub shut_down : List WorkerContext → World → World
  shut_down workers w = drop_workers workers ((cleanup_winsock answer (close_iocps workers w)).1)

  -- What comes when the workers are created, with the exit code. Without a worker it is an exception.
  unfoldable pub end_main : Result (List WorkerContext) → World → ℕ × World
  end_main (thrown e) w = (1, w)
  end_main (ok []) w = (1, w)
  end_main (ok (ctx ∷ workers)) w = (0, shut_down (ctx ∷ workers) w)

  unfoldable pub run : ℕ → ℕ → ℕ → World → ℕ × World
  run port recvbuf num_workers w =
      let (r, w') = boot answer port recvbuf num_workers w in end_main r w'
