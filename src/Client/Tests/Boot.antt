-- ===== src/Client/Tests/Boot.antt =====
-- A run of the client on two processors with two IPv4 sockets each, in verbose mode, in which no call
-- fails.
use win_udpsharded_echo.Prelude.{◌==◌, some, if◌then◌else◌, ℕ, true, refl, inl, Option, none}
use win_udpsharded_echo.SocketUtils.Calls.{nothing_open, af_inet}
use win_udpsharded_echo.Client.Boot.{boot}
use win_udpsharded_echo.Client.Opened.{Opened, boot-Opened-all}
use win_udpsharded_echo.Client.Closing.{run}
use win_udpsharded_echo.Client.Closed.{Closed, run-Closed}

abbrev no_error : ℕ → Option ℕ
no_error _ = none

run-Closed_example :
    Closed no_error true af_inet 4_194_304
      (inl refl)
      2
      2
      (run no_error true af_inet 4_194_304 2 2 nothing_open)
run-Closed_example = run-Closed no_error true af_inet 4_194_304 (inl refl) 2 2

-- Windows does not give the name of the second socket.
abbrev answer : ℕ → Option ℕ
answer k = if k == 12 then some 10048 else none

boot-Opened-all_example :
    Opened answer true af_inet 4_194_304
      (inl refl)
      2
      2
      (boot answer true af_inet 4_194_304 2 2 nothing_open)
boot-Opened-all_example = boot-Opened-all answer true af_inet 4_194_304 (inl refl) 2 2
