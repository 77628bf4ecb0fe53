-- ===== src/Server/Tests/Boot.antt =====
-- The start of the server on two processors: Windows refuses the twelfth call, which creates a socket.
-- A run in which no call fails.
use win_udpsharded_echo.Prelude.{ℕ, ◌==◌, Option, none, some, if◌then◌else◌}
use win_udpsharded_echo.SocketUtils.Calls.{nothing_open}
use win_udpsharded_echo.Server.Boot.{boot}
use win_udpsharded_echo.Server.Opened.{Opened, boot-Opened}
use win_udpsharded_echo.Server.Closing.{run}
use win_udpsharded_echo.Server.Closed.{Closed, shut_down-Closed}

abbrev answer : ℕ → Option ℕ
answer k = if k == 11 then some 10055 else none

boot-Opened_example : Opened answer 7 4_194_304 2 (boot answer 7 4_194_304 2 nothing_open)
boot-Opened_example = boot-Opened answer 7 4_194_304 2

abbrev no_error : ℕ → Option ℕ
no_error _ = none

shut_down-Closed_example : Closed no_error 7 4_194_304 2 (run no_error 7 4_194_304 2 nothing_open)
shut_down-Closed_example = shut_down-Closed no_error 7 4_194_304 2
