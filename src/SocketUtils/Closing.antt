-- ===== src/SocketUtils/Closing.antt =====
-- What is asked of Windows, and what stays open, when handles are closed one after the other.
use mathlib.Core.List.{append_assoc, append-nil}
use win_udpsharded_echo.Prelude.{ℕ, ◌≡◌, refl, sym, ◌∙◌, List, [], ◌∷◌, ◌++◌, map, arith}
use win_udpsharded_echo.SocketUtils.Contexts.{count}
use win_udpsharded_echo.SocketUtils.Calls.{
  Call, World, close_handle, close_socket, reset_port, reset_socket,
}
use win_udpsharded_echo.SocketUtils.Handles.{
  close_ports, close_sockets, count-close_ports, count-close_sockets, count-nil,
}

pub calls-close_ports :
    (ps : List ℕ) (w : World) → (close_ports ps w).calls ≡ w.calls ++ map close_handle ps
unfolding reset_port
calls-close_ports [] w = sym (append-nil w.calls)
calls-close_ports (p ∷ ps) w =
    calls-close_ports ps (reset_port p w)
    ∙ append_assoc w.calls (close_handle p ∷ []) (map close_handle ps)

pub calls-close_sockets :
    (ss : List ℕ) (w : World) → (close_sockets ss w).calls ≡ w.calls ++ map close_socket ss
unfolding reset_socket
calls-close_sockets [] w = sym (append-nil w.calls)
calls-close_sockets (s ∷ ss) w =
    calls-close_sockets ss (reset_socket s w)
    ∙ append_assoc w.calls (close_socket s ∷ []) (map close_socket ss)

pub close_sockets-append :
    (ss ts : List ℕ) (w : World)
    → close_sockets (ss ++ ts) w ≡ close_sockets ts (close_sockets ss w)
close_sockets-append [] ts w = refl
close_sockets-append (s ∷ ss) ts w = close_sockets-append ss ts (reset_socket s w)

-- Closing the ports and the sockets that are open leaves none.
pub no_ports-close_ports :
    (ps : List ℕ) (w : World)
    → ((h : ℕ) → count h w.ports ≡ count h ps)
    → (close_ports ps w).ports ≡ []
no_ports-close_ports ps w e =
    count-nil (close_ports ps w).ports (λ h. omega (arith, count-close_ports h ps w, e h))

pub no_sockets-close_sockets :
    (ss : List ℕ) (w : World)
    → ((h : ℕ) → count h w.sockets ≡ count h ss)
    → (close_sockets ss w).sockets ≡ []
no_sockets-close_sockets ss w e =
    count-nil (close_sockets ss w).sockets (λ h. omega (arith, count-close_sockets h ss w, e h))

pub calls-release :
    (ss ps : List ℕ) (w : World) (more : List Call)
    → (close_sockets ss (close_ports ps w)).calls ++ more
      ≡ w.calls ++ (map close_handle ps ++ (map close_socket ss ++ more))
calls-release ss ps w more =
    let w₁ = close_ports ps w in
    let closed : List Call = map close_socket ss in
    rw (calls-close_sockets ss w₁, calls-close_ports ps w)
      (append_assoc (w.calls ++ map close_handle ps) closed more
        ∙ append_assoc w.calls (map close_handle ps) (closed ++ more))
