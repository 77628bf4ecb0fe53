-- ===== src/Client/Boot.antt =====
-- `main` of client/main.cpp where it creates the contexts of its workers, one for each processor with
-- several sockets.
use win_udpsharded_echo.Prelude.{Bool, false, true, ℕ, zero, suc, ◌+◌, ◌%◌, List, [], ◌∷◌, Option}
use win_udpsharded_echo.SocketUtils.Calls.{
  Action, pure, ◌>>=◌, ◌>>◌, apply, initialize_winsock, create_udp_socket, set_socket_cpu_affinity,
  set_socket_option, bind_socket, create_iocp, associate_socket_with_iocp, get_socket_name,
}
use win_udpsharded_echo.SocketUtils.Handles.{owning}

abbrev pub sol_socket : ℕ
sol_socket = 65535

abbrev pub so_rcvbuf : ℕ
so_rcvbuf = 4098

abbrev pub so_sndbuf : ℕ
so_sndbuf = 4097

-- What `client_worker_context` owns before its thread starts.
pub record WorkerContext : Type 0 where
  pub processor_id : ℕ
  pub sockets : List ℕ
  pub iocp : ℕ

abbrev pub cons_pair : {A : Type 0} → A × List A → List A
cons_pair (s, ss) = s ∷ ss

abbrev pub context_of : ℕ → List ℕ × ℕ → WorkerContext
context_of i (ss, p) = record { processor_id = i; sockets = ss; iocp = p }

module _ (answer : ℕ → Option ℕ) (verbose : Bool) (family recvbuf : ℕ) where
  -- The first loop over the sockets of a worker, `n` of them.
  unfoldable pub open_sockets : ℕ → ℕ → Action (List ℕ)
  open_sockets i zero = pure []
  open_sockets i (suc n) = apply cons_pair (
      owning (λ s. s ∷ []) (λ _. []) (create_udp_socket answer family)
        (λ s. set_socket_cpu_affinity answer s (i % 65536) >> open_sockets i n))

  -- The second one: buffers and an ephemeral port for each.
  unfoldable pub bind_sockets : List ℕ → Action (Unit {0})
  bind_sockets [] = pure tt
  bind_sockets (s ∷ ss) =
      set_socket_option answer s sol_socket so_rcvbuf recvbuf
      >> (set_socket_option answer s sol_socket so_sndbuf recvbuf
          >> (bind_socket answer s 0 family >> bind_sockets ss))

  -- In verbose mode, the names of the sockets; what is written of them is left out.
  unfoldable pub show_names : Bool → List ℕ → Action (Unit {0})
  show_names false ss = pure tt
  show_names true [] = pure tt
  show_names true (s ∷ ss) = (get_socket_name answer s >>= λ _. pure tt) >> show_names true ss

  -- The third one, with the socket as the key.
  unfoldable pub associate_sockets : ℕ → List ℕ → Action (Unit {0})
  associate_sockets p [] = pure tt
  associate_sockets p (s ∷ ss) = associate_socket_with_iocp answer s p s >> associate_sockets p ss

  -- The port is owned as soon as it is created.
  unfoldable pub create_port_for : List ℕ → Action ℕ
  create_port_for ss =
      apply (λ (p, _). p)
        (owning (λ _. []) (λ p. p ∷ []) (create_iocp answer) (λ p. associate_sockets p ss))

  unfoldable pub create_worker : ℕ → ℕ → Action WorkerContext
  create_worker sockets_per_worker i = apply (context_of i) (
      owning (λ ss. ss) (λ _. []) (open_sockets i sockets_per_worker)
        (λ ss. bind_sockets ss >> (show_names verbose ss >> create_port_for ss)))

  -- The loop over the workers, from the `i`th one on for `n` of them.
  unfoldable pub create_workers : ℕ → ℕ → ℕ → Action (List WorkerContext)
  create_workers sockets_per_worker i zero = pure []
  create_workers sockets_per_worker i (suc n) = apply cons_pair (
      owning (λ c. c.sockets) (λ c. c.iocp ∷ []) (create_worker sockets_per_worker i)
        (λ _. create_workers sockets_per_worker (i + 1) n))

  unfoldable pub boot : ℕ → ℕ → Action (List WorkerContext)
  boot sockets_per_worker num_workers =
      initialize_winsock answer >> create_workers sockets_per_worker 0 num_workers
