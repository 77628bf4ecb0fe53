-- ===== src/Client/Opened.antt =====
-- What the start of client/main.cpp opens and asks of Windows, and what it leaves when it fails.
use mathlib.Core.List.{append-nil}
use win_udpsharded_echo.Prelude.{
  Bool, false, true, ℕ, zero, suc, ◌+◌, ◌%◌, ◌≡◌, refl, sym, ap, List, [], ◌∷◌, ◌++◌, Option, some,
  arith, length, ◌⊎◌,
}
use win_udpsharded_echo.SocketUtils.Contexts.{count}
use win_udpsharded_echo.SocketUtils.Calls.{
  Call, wsa_startup, getsockname, wsa_socket, set_modes, wsa_ioctl, associate, create_port, bind_to,
  set_sockopt, Result, ok, thrown, World, nothing_open, af_inet, af_inet6,
}
use win_udpsharded_echo.SocketUtils.Handles.{
  count-nil, Spec, Leaves, Keeps, pair, says, after, Keeps-then, Keeps-apply, Keeps-owning,
}
use win_udpsharded_echo.SocketUtils.Wrappers.{
  opens_socket, opens_port, Keeps-create_udp_socket, Keeps-set_socket_cpu_affinity,
  Keeps-set_socket_option, Keeps-bind_socket, Keeps-create_iocp, Keeps-associate_socket_with_iocp,
  Keeps-initialize_winsock, Keeps-get_socket_name,
}
use win_udpsharded_echo.Client.Boot.{
  WorkerContext, cons_pair, context_of, sol_socket, so_rcvbuf, so_sndbuf, open_sockets,
  bind_sockets, associate_sockets, create_port_for, create_worker, create_workers, boot, show_names,
}

abbrev pub sockets_of : List WorkerContext → List ℕ
sockets_of [] = []
sockets_of (c ∷ cs) = c.sockets ++ sockets_of cs

abbrev pub ports_of : List WorkerContext → List ℕ
ports_of [] = []
ports_of (c ∷ cs) = c.iocp ∷ ports_of cs

module _ (answer : ℕ → Option ℕ) (verbose : Bool) (family recvbuf : ℕ)
    (known : (family ≡ af_inet) ⊎ (family ≡ af_inet6)) where
  -- The calls of the three loops over the sockets of a worker.
  abbrev pub opening : ℕ → List ℕ → List Call
  opening i [] = []
  opening i (s ∷ ss) = wsa_socket family ∷ wsa_ioctl s (i % 65536) ∷ opening i ss

  abbrev pub binding : List ℕ → List Call
  binding [] = []
  binding (s ∷ ss) =
      set_sockopt s sol_socket so_rcvbuf recvbuf
      ∷ set_sockopt s sol_socket so_sndbuf recvbuf
      ∷ bind_to s family 0
      ∷ binding ss

  abbrev pub naming : Bool → List ℕ → List Call
  naming false ss = []
  naming true [] = []
  naming true (s ∷ ss) = getsockname s ∷ naming true ss

  abbrev pub associating : ℕ → List ℕ → List Call
  associating p [] = []
  associating p (s ∷ ss) = associate s (some p) s ∷ set_modes s ∷ associating p ss

  abbrev pub calls_for : ℕ → WorkerContext → List Call
  calls_for i c =
      opening i c.sockets
      ++ (binding c.sockets
          ++ (naming verbose c.sockets ++ create_port ∷ associating c.iocp c.sockets))

  abbrev opens_sockets : ℕ → ℕ → Spec (List ℕ)
  opens_sockets i n = record {
    good = λ ss. length ss ≡ n;
    sockets = λ ss. ss;
    ports = λ _. [];
    calls = opening i;
    lost = 0;
  }

  Keeps-open_sockets :
      (i n : ℕ) → Keeps (opens_sockets i n) (open_sockets answer verbose family recvbuf i n)
  unfolding open_sockets
  Keeps-open_sockets i zero = record {
    at = λ w. (refl, λ h. omega arith, λ h. omega arith, sym (append-nil w.calls));
  }
  Keeps-open_sockets i (suc n) =
      let rest : ℕ → Spec (List ℕ) =
        λ s. after (wsa_ioctl s (i % 65536) ∷ []) (opens_sockets i n) in
      Keeps-apply (pair (opens_socket family) rest 0) (opens_sockets i (suc n)) cons_pair
        (record {
          good_if = λ a q. ap suc q.1;
          same_sockets = λ a h. refl;
          same_ports = λ a h. refl;
          same_calls = λ a q. refl;
          no_more_lost = omega arith;
        })
        (Keeps-owning (opens_socket family) rest 0 (omega arith) (λ s. omega arith)
          (Keeps-create_udp_socket answer family known)
          (λ s q.
            Keeps-then (wsa_ioctl s (i % 65536) ∷ []) (opens_sockets i n)
              (Keeps-set_socket_cpu_affinity answer s _) (Keeps-open_sockets i n)))

  Keeps-bind_sockets :
      (ss : List ℕ) → Keeps (says (binding ss)) (bind_sockets answer verbose family recvbuf ss)
  unfolding bind_sockets
  Keeps-bind_sockets [] = record {
    at = λ w. (tt, λ h. omega arith, λ h. omega arith, sym (append-nil w.calls));
  }
  Keeps-bind_sockets (s ∷ ss) =
      Keeps-then (set_sockopt s sol_socket so_rcvbuf recvbuf ∷ []) _
        (Keeps-set_socket_option answer s _ _ _)
        (Keeps-then (set_sockopt s sol_socket so_sndbuf recvbuf ∷ []) _
          (Keeps-set_socket_option answer s _ _ _)
          (Keeps-then (bind_to s family 0 ∷ []) (says (binding ss))
            (Keeps-bind_socket answer s 0 family known) (Keeps-bind_sockets ss)))

  Keeps-show_names :
      (b : Bool) (ss : List ℕ)
      → Keeps (says (naming b ss)) (show_names answer verbose family recvbuf b ss)
  unfolding show_names
  Keeps-show_names false ss = record {
    at = λ w. (tt, λ h. omega arith, λ h. omega arith, sym (append-nil w.calls));
  }
  Keeps-show_names true [] = record {
    at = λ w. (tt, λ h. omega arith, λ h. omega arith, sym (append-nil w.calls));
  }
  Keeps-show_names true (s ∷ ss) =
      Keeps-then (getsockname s ∷ []) (says (naming true ss)) (Keeps-get_socket_name answer s)
        (Keeps-show_names true ss)

  Keeps-associate_sockets :
      (p : ℕ) (ss : List ℕ)
      → Keeps (says (associating p ss)) (associate_sockets answer verbose family recvbuf p ss)
  unfolding associate_sockets
  Keeps-associate_sockets p [] = record {
    at = λ w. (tt, λ h. omega arith, λ h. omega arith, sym (append-nil w.calls));
  }
  Keeps-associate_sockets p (s ∷ ss) =
      Keeps-then (associate s (some p) s ∷ set_modes s ∷ []) (says (associating p ss))
        (Keeps-associate_socket_with_iocp answer s p s) (Keeps-associate_sockets p ss)

  abbrev opens_port_with : List ℕ → Spec ℕ
  opens_port_with ss = record opens_port { calls = λ p. create_port ∷ associating p ss }

  Keeps-create_port_for :
      (ss : List ℕ) → Keeps (opens_port_with ss) (create_port_for answer verbose family recvbuf ss)
  unfolding create_port_for
  Keeps-create_port_for ss =
      let with_sockets : ℕ → Spec (Unit {0}) = λ p. says (associating p ss) in
      Keeps-apply (pair opens_port with_sockets 0) (opens_port_with ss) (λ a. a.0)
        (record {
          good_if = λ a q. tt;
          same_sockets = λ a h. refl;
          same_ports = λ a h. refl;
          same_calls = λ a q. refl;
          no_more_lost = omega arith;
        })
        (Keeps-owning opens_port with_sockets 0 (omega arith) (λ p. omega arith)
          (Keeps-create_iocp answer) (λ p q. Keeps-associate_sockets p ss))

  abbrev opens : ℕ → ℕ → Spec WorkerContext
  opens n i = record {
    good = λ c. (c.processor_id ≡ i) × (length c.sockets ≡ n);
    sockets = λ c. c.sockets;
    ports = λ c. c.iocp ∷ [];
    calls = calls_for i;
    lost = 0;
  }

  Keeps-create_worker :
      (n i : ℕ) → Keeps (opens n i) (create_worker answer verbose family recvbuf n i)
  unfolding create_worker
  Keeps-create_worker n i =
      let rest : List ℕ → Spec ℕ =
        λ ss. after (binding ss) (after (naming verbose ss) (opens_port_with ss)) in
      Keeps-apply (pair (opens_sockets i n) rest 0) (opens n i) (context_of i)
        (record {
          good_if = λ a q. (refl, q.0);
          same_sockets = λ a h. ap (count h) (sym (append-nil a.0));
          same_ports = λ a h. refl;
          same_calls = λ a q. refl;
          no_more_lost = omega arith;
        })
        (Keeps-owning (opens_sockets i n) rest 0 (omega arith) (λ ss. omega arith)
          (Keeps-open_sockets i n)
          (λ ss q.
            Keeps-then (binding ss) (after (naming verbose ss) (opens_port_with ss))
              (Keeps-bind_sockets ss)
              (Keeps-then (naming verbose ss) (opens_port_with ss) (Keeps-show_names verbose ss)
                (Keeps-create_port_for ss))))

  -- One context for each processor from `i` on, in order, each with so many sockets.
  abbrev pub IsLaidOut : ℕ → ℕ → ℕ → List WorkerContext → Type 0
  IsLaidOut sockets_per_worker i zero [] = Unit {0}
  IsLaidOut sockets_per_worker i zero (c ∷ cs) = ⊥
  IsLaidOut sockets_per_worker i (suc n) [] = ⊥
  IsLaidOut sockets_per_worker i (suc n) (c ∷ cs) =
      (c.processor_id ≡ i)
      × (length c.sockets ≡ sockets_per_worker)
      × IsLaidOut sockets_per_worker (i + 1) n cs

  abbrev pub calls_for_all : ℕ → List WorkerContext → List Call
  calls_for_all i [] = []
  calls_for_all i (c ∷ cs) = calls_for i c ++ calls_for_all (i + 1) cs

  abbrev opens_all : ℕ → ℕ → ℕ → Spec (List WorkerContext)
  opens_all sockets_per_worker i n = record {
    good = IsLaidOut sockets_per_worker i n;
    sockets = sockets_of;
    ports = ports_of;
    calls = calls_for_all i;
    lost = 0;
  }

  Keeps-create_workers :
      (m i n : ℕ) → Keeps (opens_all m i n) (create_workers answer verbose family recvbuf m i n)
  unfolding create_workers
  Keeps-create_workers m i zero = record {
    at = λ w. (tt, λ h. omega arith, λ h. omega arith, sym (append-nil w.calls));
  }
  Keeps-create_workers m i (suc n) =
      let rest : WorkerContext → Spec (List WorkerContext) = λ _. opens_all m (i + 1) n in
      Keeps-apply (pair (opens m i) rest 0) (opens_all m i (suc n)) cons_pair
        (record {
          good_if = λ a q. (q.0.0, q.0.1, q.1);
          same_sockets = λ a h. refl;
          same_ports = λ a h. refl;
          same_calls = λ a q. refl;
          no_more_lost = omega arith;
        })
        (Keeps-owning (opens m i) rest 0 (omega arith) (λ c. omega arith) (Keeps-create_worker m i)
          (λ c q. Keeps-create_workers m (i + 1) n))

  -- How the start ends, for `n` processors and `m` sockets each.
  abbrev pub Opened : ℕ → ℕ → Result (List WorkerContext) × World → Type 0
  Opened m n (ok cs, w) =
      IsLaidOut m 0 n cs
      × ((h : ℕ) → count h w.sockets ≡ count h (sockets_of cs))
      × ((h : ℕ) → count h w.ports ≡ count h (ports_of cs))
      × (w.calls ≡ wsa_startup ∷ calls_for_all 0 cs)
  Opened m n (thrown e, w) = (w.sockets ≡ []) × (w.ports ≡ [])

  Opened-Leaves :
      (m n : ℕ) (r : Result (List WorkerContext)) (w : World)
      → Leaves (after (wsa_startup ∷ []) (opens_all m 0 n)) nothing_open (r, w)
      → Opened m n (r, w)
  Opened-Leaves m n (ok cs) w (q, s, p, c) =
      (q, λ h. omega (arith, s h), λ h. omega (arith, p h), c)
  Opened-Leaves m n (thrown e) w (s, ([], few, p)) =
      (count-nil w.sockets (λ h. omega (arith, s h)), count-nil w.ports (λ h. omega (arith, p h)))
  Opened-Leaves m n (thrown e) w (s, (x ∷ lost, few, p)) = absurd (omega (arith, few))

  -- For `n` processors, `m` sockets each and an address of IPv4 or IPv6, the start of the client ends
  -- in one of two ways, whichever calls fail. Either there is one context for each processor, in order,
  -- with `m` open sockets and an open completion port, nothing else is open, and what Windows was asked
  -- is, for each context in turn: `m` sockets of the family, each with its affinity to the processor;
  -- for each of them both buffer sizes and an ephemeral port; in verbose mode the name of each; a
  -- completion port; and for each socket to be associated with that port, under itself as the key, and
  -- its modes. Or an exception came, and no socket and no completion port is left open.
  pub boot-Opened-all : (m n : ℕ) → Opened m n (boot answer verbose family recvbuf m n nothing_open)
  unfolding boot
  boot-Opened-all m n =
      let (r, w) = boot answer verbose family recvbuf m n nothing_open in
      Opened-Leaves m n r w (
        (Keeps-then (wsa_startup ∷ []) (opens_all m 0 n) (Keeps-initialize_winsock answer)
            (Keeps-create_workers m 0 n)).at
          nothing_open)
