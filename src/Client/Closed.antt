-- ===== src/Client/Closed.antt =====
-- What a run of client/main.cpp leaves open, and what it asks of Windows at its end.
use win_udpsharded_echo.Prelude.{
  none, some, Option-cases, inl, inr, Bool, ℕ, zero, suc, ◌<◌, arith, ◌≡◌, refl, sym, ap, ◌∙◌, List,
  [], ◌∷◌, ◌++◌, map, Option, ◌⊎◌,
}
use win_udpsharded_echo.SocketUtils.Contexts.{count}
use win_udpsharded_echo.SocketUtils.Calls.{
  perform, invoke, attempt, Call, World, Result, ok, thrown, nothing_open, af_inet, af_inet6,
  reset_port, wsa_startup, wsa_cleanup, close_handle, close_socket, initialize_winsock,
  cleanup_winsock,
}
use win_udpsharded_echo.SocketUtils.Handles.{
  close_ports, close_sockets, sockets-close_ports, ports-close_sockets, count-nil,
}
use win_udpsharded_echo.SocketUtils.Closing.{
  calls-release, close_sockets-append, no_ports-close_ports, no_sockets-close_sockets,
}
use win_udpsharded_echo.Client.Boot.{WorkerContext, boot, create_workers}
use win_udpsharded_echo.Client.Opened.{
  sockets_of, ports_of, calls_for_all, IsLaidOut, Opened, boot-Opened-all,
}
use win_udpsharded_echo.Client.Closing.{
  Exit, exits, terminates, close_iocps, clear_sockets, shut_down, end_main, after_startup, run,
}

close_iocps_lem :
    (cs : List WorkerContext) (w : World) → close_iocps cs w ≡ close_ports (ports_of cs) w
unfolding close_iocps
close_iocps_lem [] w = refl
close_iocps_lem (c ∷ cs) w = close_iocps_lem cs (reset_port c.iocp w)

clear_sockets_lem :
    (cs : List WorkerContext) (w : World) → clear_sockets cs w ≡ close_sockets (sockets_of cs) w
unfolding clear_sockets
clear_sockets_lem [] w = refl
clear_sockets_lem (c ∷ cs) w =
    clear_sockets_lem cs (close_sockets c.sockets w)
    ∙ sym (close_sockets-append c.sockets (sockets_of cs) w)

module _ (answer : ℕ → Option ℕ) (verbose : Bool) (family recvbuf : ℕ)
    (known : (family ≡ af_inet) ⊎ (family ≡ af_inet6)) (m n : ℕ) where
  -- The last calls of a run.
  abbrev pub ending : List WorkerContext → List Call
  ending cs =
      map close_handle (ports_of cs) ++ (map close_socket (sockets_of cs) ++ wsa_cleanup ∷ [])

  -- How a run ends: nothing is open, and a run to its end has asked for all of it to be closed.
  abbrev pub Closed : Exit × World → Type 0
  Closed (exits zero, w) =
      (w.sockets ≡ [])
      × (w.ports ≡ [])
      × (0 < n)
      × ((cs : List WorkerContext) × IsLaidOut answer verbose family recvbuf known m 0 n cs
          × (w.calls
              ≡ (wsa_startup ∷ calls_for_all answer verbose family recvbuf known 0 cs)
                ++ ending cs))
  Closed (exits (suc k), w) =
      (w.sockets ≡ []) × (w.ports ≡ []) × (k ≡ 0) × ((code : ℕ) × (answer 0 ≡ some code))
  Closed (terminates, w) = (w.sockets ≡ []) × (w.ports ≡ []) × (answer 0 ≡ none)

  -- What the result of the first call says of Windows' answer.
  abbrev Began : Result (Unit {0}) → Type 0
  Began (ok _) = answer 0 ≡ none
  Began (thrown e) = (code : ℕ) × (answer 0 ≡ some code)

  initialize_winsock-Began : Began (initialize_winsock answer nothing_open).0
  unfolding initialize_winsock invoke perform attempt
  initialize_winsock-Began = elim (Option-cases (answer 0)) [
    | inl n ↦ rw (n, Began) n
    | inr (code, n) ↦ rw (n, Began) (code, n)
  ]

  some_worker :
      (k : ℕ) (c : WorkerContext) (cs : List WorkerContext)
      → IsLaidOut answer verbose family recvbuf known m 0 k (c ∷ cs)
      → 0 < k
  some_worker zero c cs q = absurd q
  some_worker (suc k) c cs q = omega arith

  Closed-shut_down :
      (c : WorkerContext) (workers : List WorkerContext) (w : World)
      → Opened answer verbose family recvbuf known m n (ok (c ∷ workers), w)
      → Closed (exits 0, (shut_down answer (c ∷ workers) w).1)
  unfolding shut_down cleanup_winsock
  Closed-shut_down c₀ workers w (q, s, p, c) =
      let cs = c₀ ∷ workers in
      let w₁ = close_ports (ports_of cs) w in
      let closed = close_sockets (sockets_of cs) w₁ in
      let e : clear_sockets cs (close_iocps cs w) ≡ closed =
        ap (clear_sockets cs) (close_iocps_lem cs w) ∙ clear_sockets_lem cs w₁ in
      rw e (
        no_sockets-close_sockets (sockets_of cs) w₁
            (λ h. ap (count h) (sockets-close_ports (ports_of cs) w) ∙ s h),
        ports-close_sockets (sockets_of cs) w₁ ∙ no_ports-close_ports (ports_of cs) w p,
        some_worker n c₀ workers q,
        (
          cs,
          q,
          calls-release (sockets_of cs) (ports_of cs) w (wsa_cleanup ∷ [])
              ∙ ap (λ l. l ++ ending cs) c,
        ),
      )

  Closed-end_main :
      (r : Result (List WorkerContext)) (w : World)
      → Opened answer verbose family recvbuf known m n (r, w)
      → answer 0 ≡ none
      → Closed (end_main answer r w)
  unfolding end_main cleanup_winsock
  Closed-end_main (ok []) w (q, s, p, c) b = (count-nil w.sockets s, count-nil w.ports p, b)
  Closed-end_main (ok (c ∷ cs)) w o b = Closed-shut_down c cs w o
  Closed-end_main (thrown e) w o b = (o.0, o.1, b)

  Closed-after_startup :
      (r : Result (Unit {0})) (w : World)
      → Opened answer verbose family recvbuf known m n (elim r [
        | ok _ ↦ create_workers answer verbose family recvbuf m 0 n w
        | thrown e ↦ (thrown e, w)
      ])
      → Began r
      → Closed (after_startup answer verbose family recvbuf m n r w)
  unfolding after_startup
  Closed-after_startup (thrown e) w o b = (o.0, o.1, refl, b)
  Closed-after_startup (ok _) w o b =
      let (r, w') = create_workers answer verbose family recvbuf m 0 n w in Closed-end_main r w' o b

  -- Whichever calls fail, a run of the client with an address of IPv4 or IPv6, if nothing fails after
  -- its start, leaves no socket and no completion port open. It ends in one of three ways: with the exit
  -- code 0, when there is a worker, and then it has asked Windows, after the calls of a complete start,
  -- to close each completion port, then each socket, both in the order of the workers, and last to end
  -- Winsock; with the exit code 1, only when Windows did not start Winsock; or by `std::terminate`, only
  -- when it did.
  pub run-Closed : Closed (run answer verbose family recvbuf m n nothing_open)
  unfolding run boot
  run-Closed =
      let (r, w) = initialize_winsock answer nothing_open in
      Closed-after_startup r w (boot-Opened-all answer verbose family recvbuf known m n)
        initialize_winsock-Began
