-- ===== src/Client/Closing.antt =====
-- `main` of client/main.cpp where it closes what the workers own, and from the start of Winsock to its
-- end. The threads that run in between neither open nor close a handle.
use win_udpsharded_echo.Prelude.{Bool, ℕ, List, [], ◌∷◌, Option}
use win_udpsharded_echo.SocketUtils.Calls.{
  Action, Result, ok, thrown, World, reset_port, initialize_winsock, cleanup_winsock,
}
use win_udpsharded_echo.SocketUtils.Handles.{close_sockets}
use win_udpsharded_echo.Client.Boot.{WorkerContext, create_workers}

-- How the process ends: by a return from `main` with a code, or by `std::terminate`.
pub data Exit : Type 0 where
  exits : ℕ → Exit
  terminates : Exit

-- The completion ports, which wakes the workers.
unfoldable pub close_iocps : List WorkerContext → World → World
close_iocps [] w = w
close_iocps (ctx ∷ workers) w = close_iocps workers (reset_port ctx.iocp w)

-- The sockets, when the workers have ended.
unfoldable pub clear_sockets : List WorkerContext → World → World
clear_sockets [] w = w
clear_sockets (ctx ∷ workers) w = clear_sockets workers (close_sockets ctx.sockets w)

module _ (answer : ℕ → Option ℕ) where
  unfoldable pub shut_down : List WorkerContext → Action (Unit {0})
  shut_down workers w = cleanup_winsock answer (clear_sockets workers (close_iocps workers w))

  -- What comes when the workers are created, or an exception of that has closed their handles. The thread
  -- of the merger is running: only a run to the end joins it, and where `main` is left before, by the
  -- exception or because there is no worker, its destructor calls `std::terminate`.
  unfoldable pub end_main : Result (List WorkerContext) → World → Exit × World
  end_main (thrown e) w = (terminates, w)
  end_main (ok []) w = (terminates, (cleanup_winsock answer w).1)
  end_main (ok (ctx ∷ workers)) w = (exits 0, (shut_down (ctx ∷ workers) w).1)

  module _ (verbose : Bool) (family recvbuf sockets_per_worker num_workers : ℕ) where
    -- An exception of the start of Winsock comes before that thread is started, and is handled.
    unfoldable pub after_startup : Result (Unit {0}) → World → Exit × World
    after_startup (thrown e) w = (exits 1, w)
    after_startup (ok _) w =
        let (r, w') =
          create_workers answer verbose family recvbuf sockets_per_worker 0 num_workers w in
        end_main r w'

    unfoldable pub run : World → Exit × World
    run w = let (r, w') = initialize_winsock answer w in after_startup r w'
