-- ===== src/SocketUtils/Wrappers.antt =====
-- What each function of Calls opens and asks of Windows, and what it leaves when it throws.
use mathlib.Core.List.{append_assoc}
use win_udpsharded_echo.Prelude.{
  ℕ, suc, ◌≡◌, refl, ap, [], ◌∷◌, ◌++◌, Option, none, some, arith, inl, inr, ◌⊎◌,
}
use win_udpsharded_echo.SocketUtils.Calls.{
  Call, wsa_startup, create_port, wsa_socket, set_modes, set_modes_failed, wsa_ioctl, associate,
  bind_to, set_sockopt, create_port_failed, Failure, ok, World, Action, pure, ◌>>=◌, af_inet,
  af_inet6, attempt, perform, invoke, initialize_winsock, create_udp_socket,
  set_socket_cpu_affinity, set_file_completion_notification_modes, create_iocp,
  create_iocp_and_associate, associate_socket_with_iocp, bind_socket, set_socket_option,
  getsockname, getsockname_failed, get_socket_name,
}
use win_udpsharded_echo.SocketUtils.Handles.{Spec, Leaves, Keeps, says, Keeps-then}

abbrev pub opens_socket : ℕ → Spec ℕ
opens_socket family = record {
  good = λ _. Unit;
  sockets = λ s. s ∷ [];
  ports = λ _. [];
  calls = λ _. wsa_socket family ∷ [];
  lost = 0;
}

abbrev pub opens_port : Spec ℕ
opens_port = record {
  good = λ _. Unit;
  sockets = λ _. [];
  ports = λ p. p ∷ [];
  calls = λ _. create_port ∷ [];
  lost = 0;
}

abbrev pub opens_port_for : ℕ → Spec ℕ
opens_port_for s = record {
  good = λ _. Unit;
  sockets = λ _. [];
  ports = λ p. p ∷ [];
  calls = λ _. associate s none 0 ∷ set_modes s ∷ [];
  lost = 1;
}

-- A call that opens nothing by itself, and what is done with its number.
Leaves-attempt :
    {A : Type 0} (x : Spec A) (o : Option ℕ) (c : Call) (failure : Failure) (k : ℕ → Action A)
    (w : World)
    → Leaves x w (k w.made (record w { calls = w.calls ++ c ∷ []; made = suc w.made }))
    → Leaves x w ((attempt o c failure >>= k) w)
unfolding attempt
Leaves-attempt x none c failure k w l = l
Leaves-attempt x (some code) c failure k w l =
    (λ h. omega arith, ([], omega arith, λ h. omega arith))

-- The port `p` is open, and does not get closed.
Leaves-set_modes :
    (s : ℕ) (w : World) (o : Option ℕ)
    → let p = w.made in
      Leaves (opens_port_for s) w (
        ((attempt o (set_modes s) set_modes_failed >>= λ _. pure tt) >>= λ _. pure p) (record w {
          ports = p ∷ w.ports;
          calls = w.calls ++ associate s none 0 ∷ [];
          made = suc p;
        }))
unfolding attempt
Leaves-set_modes s w none = (
  tt,
  λ h. omega arith,
  λ h. omega arith,
  append_assoc w.calls (associate s none 0 ∷ []) (set_modes s ∷ []),
)
Leaves-set_modes s w (some code) = (λ h. omega arith, (w.made ∷ [], omega arith, λ h. omega arith))

module _ (answer : ℕ → Option ℕ) where
  Keeps-perform :
      {A : Type 0} (x : Spec A) (c : Call) (failure : Failure) (k : ℕ → Action A)
      → ((w : World)
          → Leaves x w (k w.made (record w { calls = w.calls ++ c ∷ []; made = suc w.made })))
      → Keeps x (perform answer c failure >>= k)
  unfolding perform
  Keeps-perform x c failure k l = record {
    at = λ w. Leaves-attempt x (answer w.made) c failure k w (l w);
  }

  pub Keeps-invoke :
      (c : Call) (failure : Failure) → Keeps (says (c ∷ [])) (invoke answer c failure)
  unfolding invoke
  Keeps-invoke c failure =
      Keeps-perform (says (c ∷ [])) c failure (λ _. pure tt)
        (λ w. (tt, λ h. omega arith, λ h. omega arith, refl))

  pub Keeps-create_udp_socket :
      (family : ℕ)
      → (family ≡ af_inet) ⊎ (family ≡ af_inet6)
      → Keeps (opens_socket family) (create_udp_socket answer family)
  unfolding create_udp_socket
  Keeps-create_udp_socket family f =
      Keeps-perform (opens_socket family) _ _
        (λ s. λ w. (ok s, record w { sockets = s ∷ w.sockets }))
        (λ w. (
          tt,
          λ h. omega arith,
          λ h. omega arith,
          ap (λ f. w.calls ++ wsa_socket f ∷ []) (ground (arith, f)),
        ))

  pub Keeps-create_iocp : Keeps opens_port (create_iocp answer)
  unfolding create_iocp
  Keeps-create_iocp =
      Keeps-perform opens_port _ _ (λ p. λ w. (ok p, record w { ports = p ∷ w.ports }))
        (λ w. (tt, λ h. omega arith, λ h. omega arith, refl))

  pub Keeps-create_iocp_and_associate :
      (s : ℕ) → Keeps (opens_port_for s) (create_iocp_and_associate answer s)
  unfolding create_iocp_and_associate set_file_completion_notification_modes invoke perform
  Keeps-create_iocp_and_associate s =
      Keeps-perform (opens_port_for s) (associate s none 0) create_port_failed
        (λ p. (λ w. (ok tt, record w { ports = p ∷ w.ports })) >>= λ _.
          set_file_completion_notification_modes answer s >>= λ _. pure p)
        (λ w. Leaves-set_modes s w (answer (suc w.made)))

  pub Keeps-initialize_winsock : Keeps (says (wsa_startup ∷ [])) (initialize_winsock answer)
  unfolding initialize_winsock
  Keeps-initialize_winsock = Keeps-invoke _ _

  pub Keeps-set_socket_cpu_affinity :
      (s processor_id : ℕ)
      → Keeps (says (wsa_ioctl s processor_id ∷ [])) (set_socket_cpu_affinity answer s processor_id)
  unfolding set_socket_cpu_affinity
  Keeps-set_socket_cpu_affinity s processor_id = Keeps-invoke _ _

  pub Keeps-set_socket_option :
      (s level optname optval : ℕ)
      → Keeps
          (says (set_sockopt s level optname optval ∷ []))
          (set_socket_option answer s level optname optval)
  unfolding set_socket_option
  Keeps-set_socket_option s level optname optval = Keeps-invoke _ _

  pub Keeps-bind_socket :
      (s port family : ℕ)
      → (family ≡ af_inet) ⊎ (family ≡ af_inet6)
      → Keeps (says (bind_to s family port ∷ [])) (bind_socket answer s port family)
  unfolding bind_socket
  Keeps-bind_socket s port family (inl f) = rw f (Keeps-invoke _ _)
  Keeps-bind_socket s port family (inr f) = rw f (Keeps-invoke _ _)

  pub Keeps-get_socket_name :
      (s : ℕ) → Keeps (says (getsockname s ∷ [])) (get_socket_name answer s >>= λ _. pure tt)
  unfolding get_socket_name
  Keeps-get_socket_name s =
      Keeps-perform (says (getsockname s ∷ [])) (getsockname s) getsockname_failed (λ _. pure tt)
        (λ w. (tt, λ h. omega arith, λ h. omega arith, refl))

  pub Keeps-associate_socket_with_iocp :
      (s p completion_key : ℕ)
      → Keeps
          (says (associate s (some p) completion_key ∷ set_modes s ∷ []))
          (associate_socket_with_iocp answer s p completion_key)
  unfolding associate_socket_with_iocp set_file_completion_notification_modes
  Keeps-associate_socket_with_iocp s p completion_key =
      Keeps-then (associate s (some p) completion_key ∷ []) (says (set_modes s ∷ []))
        (Keeps-invoke _ _) (Keeps-invoke _ _)
