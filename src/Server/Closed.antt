-- ===== src/Server/Closed.antt =====
-- What a run of server/main.cpp leaves open, and what it asks of Windows at its end.
use mathlib.Core.List.{append_assoc, append-nil}
use win_udpsharded_echo.Prelude.{
  ℕ, zero, suc, ◌<◌, sym, arith, ◌≤◌, ◌≡◌, refl, ap, ◌∙◌, List, [], ◌∷◌, ◌++◌, map, Option, length,
}
use win_udpsharded_echo.SocketUtils.Contexts.{count}
use win_udpsharded_echo.SocketUtils.Calls.{
  Call, World, Result, ok, thrown, nothing_open, reset_port, wsa_startup, wsa_cleanup, close_handle,
  close_socket, cleanup_winsock,
}
use win_udpsharded_echo.SocketUtils.Handles.{close_ports, sockets-close_ports, count-nil}
use win_udpsharded_echo.SocketUtils.Closing.{calls-close_ports, no_ports-close_ports}
use win_udpsharded_echo.Server.Boot.{WorkerContext, sockets_of, ports_of, boot}
use win_udpsharded_echo.Server.Opened.{calls_for_all, IsLaidOut, Opened, boot-Opened}
use win_udpsharded_echo.Server.Closing.{
  reset_late, close_iocps, drop_workers, shut_down, end_main, run,
}

close_iocps_lem :
    (cs : List WorkerContext) (w : World) → close_iocps cs w ≡ close_ports (ports_of cs) w
unfolding close_iocps
close_iocps_lem [] w = refl
close_iocps_lem (c ∷ cs) w = close_iocps_lem cs (reset_port c.iocp w)

-- None of the sockets is closed by that.
ports-drop_workers : (cs : List WorkerContext) (w : World) → (drop_workers cs w).ports ≡ w.ports
unfolding drop_workers
ports-drop_workers [] w = refl
ports-drop_workers (c ∷ cs) w = ports-drop_workers cs (reset_late c.socket w)

sockets-drop_workers :
    (cs : List WorkerContext) (w : World) → (drop_workers cs w).sockets ≡ w.sockets
unfolding drop_workers
sockets-drop_workers [] w = refl
sockets-drop_workers (c ∷ cs) w = sockets-drop_workers cs (reset_late c.socket w)

calls-drop_workers :
    (cs : List WorkerContext) (w : World)
    → (drop_workers cs w).calls ≡ w.calls ++ map close_socket (sockets_of cs)
unfolding drop_workers
calls-drop_workers [] w = sym (append-nil w.calls)
calls-drop_workers (c ∷ cs) w =
    calls-drop_workers cs (reset_late c.socket w)
    ∙ append_assoc w.calls (close_socket c.socket ∷ []) (map close_socket (sockets_of cs))

module _ (answer : ℕ → Option ℕ) (port recvbuf n : ℕ) where
  -- The last calls of a run.
  abbrev pub ending : List WorkerContext → List Call
  ending cs = map close_handle (ports_of cs) ++ (wsa_cleanup ∷ map close_socket (sockets_of cs))

  -- How a run ends.
  abbrev pub Closed : ℕ × World → Type 0
  Closed (zero, w) =
      (w.ports ≡ [])
      × (0 < n)
      × ((cs : List WorkerContext) × IsLaidOut answer port recvbuf 0 n cs
          × ((h : ℕ) → count h w.sockets ≡ count h (sockets_of cs))
          × (w.calls ≡ (wsa_startup ∷ calls_for_all answer port recvbuf 0 cs) ++ ending cs))
  Closed (suc k, w) = (w.sockets ≡ []) × (length w.ports ≤ 1) × (k ≡ 0)

  some_worker :
      (k : ℕ) (c : WorkerContext) (cs : List WorkerContext)
      → IsLaidOut answer port recvbuf 0 k (c ∷ cs)
      → 0 < k
  some_worker zero c cs q = absurd q
  some_worker (suc k) c cs q = omega arith

  Closed-shut_down :
      (c : WorkerContext) (workers : List WorkerContext) (w : World)
      → Opened answer port recvbuf n (ok (c ∷ workers), w)
      → Closed (0, shut_down answer (c ∷ workers) w)
  unfolding shut_down cleanup_winsock
  Closed-shut_down c₀ workers w (q, s, p, c) =
      let cs = c₀ ∷ workers in
      let ss = sockets_of cs in
      let ps = ports_of cs in
      let w₁ : World = close_ports ps w in
      let w₂ : World = record w₁ { calls = w₁.calls ++ wsa_cleanup ∷ [] } in
      rw (close_iocps_lem cs w) (
        ports-drop_workers cs w₂ ∙ no_ports-close_ports ps w p,
        some_worker n c₀ workers q,
        (
          cs,
          q,
          λ h. ap (count h) (sockets-drop_workers cs w₂ ∙ sockets-close_ports ps w) ∙ s h,
          calls-drop_workers cs w₂
              ∙ append_assoc w₁.calls (wsa_cleanup ∷ []) (map close_socket ss)
              ∙ ap (λ l. l ++ (wsa_cleanup ∷ map close_socket ss)) (calls-close_ports ps w)
              ∙ append_assoc w.calls (map close_handle ps) (wsa_cleanup ∷ map close_socket ss)
              ∙ ap (λ l. l ++ ending cs) c,
        ),
      )

  Closed-end_main :
      (r : Result (List WorkerContext)) (w : World)
      → Opened answer port recvbuf n (r, w)
      → Closed (end_main answer r w)
  unfolding end_main
  Closed-end_main (ok []) w (q, s, p, c) =
      (count-nil w.sockets s, omega (arith, ap length (count-nil w.ports p)), refl)
  Closed-end_main (ok (c ∷ cs)) w o = Closed-shut_down c cs w o
  Closed-end_main (thrown e) w (s, p) = (s, p, refl)

  -- Whichever calls fail, a run of the server in which nothing fails after its start ends with the exit
  -- code 0 or 1. With 0 there is a worker, and no completion port is left open; Windows was asked, after
  -- the calls of a complete start, to close each completion port in the order of the workers, to end
  -- Winsock, and only after that, when it cannot be done, to close each socket, so that just these are
  -- left to the end of Winsock. With 1 no socket and at most one completion port is left open.
  pub shut_down-Closed : Closed (run answer port recvbuf n nothing_open)
  unfolding run
  shut_down-Closed =
      let (r, w) = boot answer port recvbuf n nothing_open in
      Closed-end_main r w (boot-Opened answer port recvbuf n)
