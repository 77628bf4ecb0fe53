-- ===== src/SocketUtils/Calls.antt =====
-- The functions of common/socket_utils.cpp that call Winsock and the kernel, as actions on what
-- Windows keeps for the process. A handle is known by the number of the call that made it. Which calls
-- succeed is a parameter: for the number of a call, `none` or the code of the error.
use win_udpsharded_echo.Prelude.{
  ℕ, suc, List, [], ◌∷◌, ◌++◌, Option, none, some, ◌==◌, ◌||◌, if◌then◌else◌,
}
use win_udpsharded_echo.SocketUtils.Contexts.{remove}

-- What is asked of Windows. `wsa_ioctl` is the processor affinity of a socket.
pub data Call : Type 0 where
  wsa_startup wsa_cleanup create_port : Call
  wsa_socket set_modes getsockname close_socket close_handle : ℕ → Call
  wsa_ioctl : ℕ → ℕ → Call
  associate : ℕ → Option ℕ → ℕ → Call
  bind_to : ℕ → ℕ → ℕ → Call
  set_sockopt : ℕ → ℕ → ℕ → ℕ → Call

-- A `socket_exception`: its text up to the error, and the code of the error.
pub data Failure : Type 0 where
  wsa_startup_failed wsa_socket_failed wsa_ioctl_failed create_port_failed associate_failed :
      Failure
  set_modes_failed bind_failed getsockname_failed : Failure
  unsupported_family : ℕ → Failure
  set_sockopt_failed : ℕ → ℕ → Failure

pub record SocketException : Type 0 where
  pub failure : Failure
  pub code : ℕ

pub data Result (A : Type 0) : Type 0 where
  ok : A → Result A
  thrown : SocketException → Result A

-- The open sockets and completion ports, all calls so far, and how many of them could fail.
pub record World : Type 0 where
  pub sockets : List ℕ
  pub ports : List ℕ
  pub calls : List Call
  pub made : ℕ

abbrev pub nothing_open : World
nothing_open = record { sockets = []; ports = []; calls = []; made = 0 }

abbrev pub Action : Type 0 → Type 0
Action A = World → Result A × World

abbrev pub pure : {A : Type 0} → A → Action A
pure a w = (ok a, w)

abbrev pub raise : {A : Type 0} → SocketException → Action A
raise e w = (thrown e, w)

infixl 5 ◌>>=◌ ◌>>◌
abbrev pub ◌>>=◌ : {A B : Type 0} → Action A → (A → Action B) → Action B
◌>>=◌ m f w = let (r, w') = m w in elim r [ ok a ↦ f a w' | thrown e ↦ raise e w' ]

abbrev pub ◌>>◌ : {B : Type 0} → Action (Unit {0}) → Action B → Action B
m >> k = m >>= λ _. k

abbrev pub apply : {A B : Type 0} → (A → B) → Action A → Action B
apply f m = m >>= λ a. pure (f a)

-- A scope whose objects close their handles when an exception leaves it.
unfoldable pub scope : {A : Type 0} → (World → World) → Action A → Action A
scope close m w =
    let (r, w') = m w in elim r [ ok a ↦ (ok a, w') | thrown e ↦ (thrown e, close w') ]

-- The destructors of `unique_socket` and `unique_iocp`.
unfoldable pub reset_socket : ℕ → World → World
reset_socket s w = record w { sockets = remove s w.sockets; calls = w.calls ++ close_socket s ∷ [] }

unfoldable pub reset_port : ℕ → World → World
reset_port p w = record w { ports = remove p w.ports; calls = w.calls ++ close_handle p ∷ [] }

abbrev pub af_inet : ℕ
af_inet = 2

abbrev pub af_inet6 : ℕ
af_inet6 = 23

-- A call and its answer: its number, or an exception with the code of the error.
unfoldable pub attempt : Option ℕ → Call → Failure → Action ℕ
attempt none c failure w = (ok w.made, record w { calls = w.calls ++ c ∷ []; made = suc w.made })
attempt (some code) c failure w = (
  thrown (record { failure = failure; code = code }),
  record w { calls = w.calls ++ c ∷ []; made = suc w.made },
)

module _ (answer : ℕ → Option ℕ) where
  unfoldable pub perform : Call → Failure → Action ℕ
  perform c failure w = attempt (answer w.made) c failure w

  -- A call that gives nothing back.
  unfoldable pub invoke : Call → Failure → Action (Unit {0})
  invoke c failure = perform c failure >>= λ _. pure tt

  unfoldable pub initialize_winsock : Action (Unit {0})
  initialize_winsock = invoke wsa_startup wsa_startup_failed

  unfoldable pub cleanup_winsock : Action (Unit {0})
  cleanup_winsock w = (ok tt, record w { calls = w.calls ++ wsa_cleanup ∷ [] })

  unfoldable pub create_udp_socket : ℕ → Action ℕ
  create_udp_socket family =
      let af = if family == af_inet || family == af_inet6 then family else af_inet in
      perform (wsa_socket af) wsa_socket_failed >>= λ s.
      λ w. (ok s, record w { sockets = s ∷ w.sockets })

  unfoldable pub set_socket_cpu_affinity : ℕ → ℕ → Action (Unit {0})
  set_socket_cpu_affinity s processor_id = invoke (wsa_ioctl s processor_id) wsa_ioctl_failed

  unfoldable pub set_file_completion_notification_modes : ℕ → Action (Unit {0})
  set_file_completion_notification_modes s = invoke (set_modes s) set_modes_failed

  unfoldable pub create_iocp : Action ℕ
  create_iocp =
      perform create_port create_port_failed >>= λ p. λ w. (ok p, record w { ports = p ∷ w.ports })

  -- The new port is a plain handle until the end: an exception in between leaves it open.
  unfoldable pub create_iocp_and_associate : ℕ → Action ℕ
  create_iocp_and_associate s = do
    p ← perform (associate s none 0) create_port_failed
    λ w. (ok tt, record w { ports = p ∷ w.ports })
    set_file_completion_notification_modes s
    pure p

  unfoldable pub associate_socket_with_iocp : ℕ → ℕ → ℕ → Action (Unit {0})
  associate_socket_with_iocp s p completion_key =
      invoke (associate s (some p) completion_key) associate_failed
      >> set_file_completion_notification_modes s

  unfoldable pub bind_socket : ℕ → ℕ → ℕ → Action (Unit {0})
  bind_socket s port family =
      if family == af_inet
      then invoke (bind_to s af_inet port) bind_failed
      else if family == af_inet6
      then invoke (bind_to s af_inet6 port) bind_failed
      else raise (record { failure = unsupported_family family; code = 0 })

  unfoldable pub set_socket_option : ℕ → ℕ → ℕ → ℕ → Action (Unit {0})
  set_socket_option s level optname optval =
      invoke (set_sockopt s level optname optval) (set_sockopt_failed level optname)

  -- The name is what Windows gave for this call, and is only shown.
  unfoldable pub get_socket_name : ℕ → Action ℕ
  get_socket_name s = perform (getsockname s) getsockname_failed
