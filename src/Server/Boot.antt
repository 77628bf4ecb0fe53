-- ===== src/Server/Boot.antt =====
-- `main` of server/main.cpp from the start of Winsock to the contexts of its workers, two for each
-- processor: one for IPv4, one for IPv6. The messages are left out.
use win_udpsharded_echo.Prelude.{ℕ, zero, suc, ◌+◌, ◌%◌, List, [], ◌∷◌, Option}
use win_udpsharded_echo.SocketUtils.Calls.{
  Action, pure, ◌>>◌, apply, af_inet, af_inet6, initialize_winsock, create_udp_socket,
  set_socket_cpu_affinity, set_socket_option, bind_socket, create_iocp_and_associate,
}
use win_udpsharded_echo.SocketUtils.Handles.{owning}

abbrev pub sol_socket : ℕ
sol_socket = 65535

abbrev pub so_rcvbuf : ℕ
so_rcvbuf = 4098

abbrev pub so_sndbuf : ℕ
so_sndbuf = 4097

-- What `server_worker_context` owns before its thread starts.
pub record WorkerContext : Type 0 where
  pub processor_id : ℕ
  pub socket : ℕ
  pub iocp : ℕ

abbrev pub sockets_of : List WorkerContext → List ℕ
sockets_of [] = []
sockets_of (c ∷ cs) = c.socket ∷ sockets_of cs

abbrev pub ports_of : List WorkerContext → List ℕ
ports_of [] = []
ports_of (c ∷ cs) = c.iocp ∷ ports_of cs

abbrev pub context_of : ℕ → ℕ × ℕ → WorkerContext
context_of cpu_id (s, p) = record { processor_id = cpu_id; socket = s; iocp = p }

abbrev pub cons_two : WorkerContext × (WorkerContext × List WorkerContext) → List WorkerContext
cons_two (a, (b, cs)) = a ∷ b ∷ cs

module _ (answer : ℕ → Option ℕ) (port recvbuf : ℕ) where
  -- What is done with the socket of a context; the casts are to 16 bits.
  unfoldable pub set_up : ℕ → ℕ → ℕ → Action ℕ
  set_up cpu_id family s =
      set_socket_cpu_affinity answer s (cpu_id % 65536)
      >> (set_socket_option answer s sol_socket so_rcvbuf recvbuf
          >> (set_socket_option answer s sol_socket so_sndbuf recvbuf
              >> (bind_socket answer s (port % 65536) family
                  >> create_iocp_and_associate answer s)))

  unfoldable pub create_worker : ℕ → ℕ → Action WorkerContext
  create_worker cpu_id family =
      apply (context_of cpu_id)
        (owning (λ s. s ∷ []) (λ s. []) (create_udp_socket answer family) (set_up cpu_id family))

  -- The loop, from processor `i` on for `n` of them. An exception destroys the vector, whose order of
  -- destruction is not laid down; here the last context goes first.
  unfoldable pub create_workers : ℕ → ℕ → Action (List WorkerContext)
  create_workers i zero = pure []
  create_workers i (suc n) = apply cons_two (
      owning (λ c. c.socket ∷ []) (λ c. c.iocp ∷ []) (create_worker i af_inet)
        (λ _.
          owning (λ c. c.socket ∷ []) (λ c. c.iocp ∷ []) (create_worker i af_inet6)
            (λ _. create_workers (i + 1) n)))

  unfoldable pub boot : ℕ → Action (List WorkerContext)
  boot num_workers = initialize_winsock answer >> create_workers 0 num_workers
