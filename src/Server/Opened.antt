-- ===== src/Server/Opened.antt =====
-- What the start of server/main.cpp opens and asks of Windows, and what it leaves when it fails.
use mathlib.Core.List.{append-nil}
use win_udpsharded_echo.Prelude.{
  ℕ, zero, suc, ◌+◌, ◌%◌, ◌≤◌, ◌≡◌, refl, sym, List, [], ◌∷◌, ◌++◌, Option, none, arith, length,
  inl, inr, ◌⊎◌,
}
use win_udpsharded_echo.SocketUtils.Contexts.{count}
use win_udpsharded_echo.SocketUtils.Calls.{
  Call, wsa_startup, wsa_socket, set_modes, wsa_ioctl, associate, bind_to, set_sockopt, Result, ok,
  thrown, World, nothing_open, af_inet, af_inet6,
}
use win_udpsharded_echo.SocketUtils.Handles.{
  count-nil, count-length, Spec, Leaves, Keeps, pair, after, Keeps-then, Keeps-apply, Keeps-owning,
}
use win_udpsharded_echo.SocketUtils.Wrappers.{
  opens_socket, opens_port_for, Keeps-create_udp_socket, Keeps-set_socket_cpu_affinity,
  Keeps-set_socket_option, Keeps-bind_socket, Keeps-create_iocp_and_associate,
  Keeps-initialize_winsock,
}
use win_udpsharded_echo.Server.Boot.{
  WorkerContext, sockets_of, ports_of, context_of, cons_two, sol_socket, so_rcvbuf, so_sndbuf,
  set_up, create_worker, create_workers, boot,
}

module _ (answer : ℕ → Option ℕ) (port recvbuf : ℕ) where
  abbrev pub calls_with : ℕ → ℕ → ℕ → List Call
  calls_with cpu_id family s =
      wsa_ioctl s (cpu_id % 65536)
      ∷ set_sockopt s sol_socket so_rcvbuf recvbuf
      ∷ set_sockopt s sol_socket so_sndbuf recvbuf
      ∷ bind_to s family (port % 65536)
      ∷ associate s none 0
      ∷ set_modes s
      ∷ []

  -- All calls for one context.
  abbrev pub calls_for : ℕ → ℕ → WorkerContext → List Call
  calls_for cpu_id family c = wsa_socket family ∷ calls_with cpu_id family c.socket

  abbrev opens : ℕ → ℕ → Spec WorkerContext
  opens cpu_id family = record {
    good = λ c. c.processor_id ≡ cpu_id;
    sockets = λ c. c.socket ∷ [];
    ports = λ c. c.iocp ∷ [];
    calls = calls_for cpu_id family;
    lost = 1;
  }

  abbrev sets_up : ℕ → ℕ → ℕ → Spec ℕ
  sets_up cpu_id family s = record (opens_port_for s) { calls = λ _. calls_with cpu_id family s }

  Keeps-set_up :
      (cpu_id family s : ℕ)
      → (family ≡ af_inet) ⊎ (family ≡ af_inet6)
      → Keeps (sets_up cpu_id family s) (set_up answer port recvbuf cpu_id family s)
  unfolding set_up
  Keeps-set_up cpu_id family s f =
      Keeps-then (wsa_ioctl s (cpu_id % 65536) ∷ []) _ (Keeps-set_socket_cpu_affinity answer s _) (
        Keeps-then (set_sockopt s sol_socket so_rcvbuf recvbuf ∷ []) _
          (Keeps-set_socket_option answer s _ _ _)
          (Keeps-then (set_sockopt s sol_socket so_sndbuf recvbuf ∷ []) _
            (Keeps-set_socket_option answer s _ _ _)
            (Keeps-then (bind_to s family (port % 65536) ∷ []) (opens_port_for s)
              (Keeps-bind_socket answer s _ family f) (Keeps-create_iocp_and_associate answer s))))

  Keeps-create_worker :
      (cpu_id family : ℕ)
      → (family ≡ af_inet) ⊎ (family ≡ af_inet6)
      → Keeps (opens cpu_id family) (create_worker answer port recvbuf cpu_id family)
  unfolding create_worker
  Keeps-create_worker cpu_id family f =
      Keeps-apply (pair (opens_socket family) (sets_up cpu_id family) 1) (opens cpu_id family)
        (context_of cpu_id)
        (record {
          good_if = λ a q. refl;
          same_sockets = λ a h. refl;
          same_ports = λ a h. refl;
          same_calls = λ a q. refl;
          no_more_lost = omega arith;
        })
        (Keeps-owning (opens_socket family) (sets_up cpu_id family) 1 (omega arith)
          (λ s. omega arith) (Keeps-create_udp_socket answer family f)
          (λ s q. Keeps-set_up cpu_id family s f))

  -- Two contexts for each processor from `i` on, in order.
  abbrev pub IsLaidOut : ℕ → ℕ → List WorkerContext → Type 0
  IsLaidOut i zero [] = Unit {0}
  IsLaidOut i zero (c ∷ cs) = ⊥
  IsLaidOut i (suc n) [] = ⊥
  IsLaidOut i (suc n) (a ∷ []) = ⊥
  IsLaidOut i (suc n) (a ∷ b ∷ cs) =
      (a.processor_id ≡ i) × (b.processor_id ≡ i) × IsLaidOut (i + 1) n cs

  abbrev pub calls_for_all : ℕ → List WorkerContext → List Call
  calls_for_all i [] = []
  calls_for_all i (a ∷ []) = calls_for i af_inet a
  calls_for_all i (a ∷ b ∷ cs) =
      calls_for i af_inet a ++ (calls_for i af_inet6 b ++ calls_for_all (i + 1) cs)

  abbrev opens_all : ℕ → ℕ → Spec (List WorkerContext)
  opens_all i n = record {
    good = IsLaidOut i n;
    sockets = sockets_of;
    ports = ports_of;
    calls = calls_for_all i;
    lost = 1;
  }

  Keeps-create_workers : (i n : ℕ) → Keeps (opens_all i n) (create_workers answer port recvbuf i n)
  unfolding create_workers
  Keeps-create_workers i zero = record {
    at = λ w. (tt, λ h. omega arith, λ h. omega arith, sym (append-nil w.calls));
  }
  Keeps-create_workers i (suc n) =
      let rest = opens_all (i + 1) n in
      let second = pair (opens i af_inet6) (λ _. rest) 1 in
      Keeps-apply (pair (opens i af_inet) (λ _. second) 1) (opens_all i (suc n)) cons_two
        (record {
          good_if = λ a q. (q.0, q.1.0, q.1.1);
          same_sockets = λ a h. refl;
          same_ports = λ a h. refl;
          same_calls = λ a q. refl;
          no_more_lost = omega arith;
        })
        (Keeps-owning (opens i af_inet) (λ _. second) 1 (omega arith) (λ a. omega arith)
          (Keeps-create_worker i af_inet (inl refl))
          (λ a q.
            Keeps-owning (opens i af_inet6) (λ _. rest) 1 (omega arith) (λ b. omega arith)
              (Keeps-create_worker i af_inet6 (inr refl)) (λ b q'. Keeps-create_workers (i + 1) n)))

  -- How the start ends, for `n` processors.
  abbrev pub Opened : ℕ → Result (List WorkerContext) × World → Type 0
  Opened n (ok cs, w) =
      IsLaidOut 0 n cs
      × ((h : ℕ) → count h w.sockets ≡ count h (sockets_of cs))
      × ((h : ℕ) → count h w.ports ≡ count h (ports_of cs))
      × (w.calls ≡ wsa_startup ∷ calls_for_all 0 cs)
  Opened n (thrown e, w) = (w.sockets ≡ []) × (length w.ports ≤ 1)

  Opened-Leaves :
      (n : ℕ) (r : Result (List WorkerContext)) (w : World)
      → Leaves (after (wsa_startup ∷ []) (opens_all 0 n)) nothing_open (r, w)
      → Opened n (r, w)
  Opened-Leaves n (ok cs) w (q, s, p, c) = (q, λ h. omega (arith, s h), λ h. omega (arith, p h), c)
  Opened-Leaves n (thrown e) w (s, (lost, few, p)) = (
    count-nil w.sockets (λ h. omega (arith, s h)),
    omega (arith, few, count-length lost w.ports (λ h. omega (arith, p h))),
  )

  -- For `n` processors the start of the server ends in one of two ways, whichever calls fail. Either
  -- there are two contexts for each processor, in order, each with an open socket and an open
  -- completion port, nothing else is open, and what Windows was asked is, for each context in turn: a
  -- socket of its family, its affinity to the processor, both buffer sizes, the port to bind to, a
  -- completion port with the socket, and its modes. Or an exception came, no socket is left open, and
  -- at most one completion port is.
  pub boot-Opened : (n : ℕ) → Opened n (boot answer port recvbuf n nothing_open)
  unfolding boot
  boot-Opened n =
      let (r, w) = boot answer port recvbuf n nothing_open in
      Opened-Leaves n r w (
        (Keeps-then (wsa_startup ∷ []) (opens_all 0 n) (Keeps-initialize_winsock answer)
            (Keeps-create_workers 0 n)).at
          nothing_open)
