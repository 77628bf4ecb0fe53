-- ===== src/Server/Stats.antt =====
-- What server/main.cpp prints: the final totals over all workers, and the requests of each second.
use win_udpsharded_echo.Prelude.{
  ℕ, ◌+◌, ◌-◌, ◌%◌, ◌≤◌, ◌<◌, ◌≡◌, ◌∙◌, List, [], ◌∷◌, Bool, arith, leb, if◌then◌else◌, add64,
  u64_mod, length,
}
use win_udpsharded_echo.SocketUtils.Io.{IoContext, recv, Outcome, outstanding_ops, max_packet_size}
use win_udpsharded_echo.Server.Worker.{Worker}
use win_udpsharded_echo.Server.Reach.{Reached}
use win_udpsharded_echo.Server.Count.{Reached-packets_sent}

pub record Totals : Type 0 where
  pub total_recv : ℕ
  pub total_sent : ℕ
  pub total_bytes_recv : ℕ
  pub total_bytes_sent : ℕ

unfoldable pub add_worker : Totals → Worker → Totals
add_worker t w = record {
  total_recv = add64 t.total_recv w.packets_received;
  total_sent = add64 t.total_sent w.packets_sent;
  total_bytes_recv = add64 t.total_bytes_recv w.bytes_received;
  total_bytes_sent = add64 t.total_bytes_sent w.bytes_sent;
}

unfoldable pub add_workers : Totals → List Worker → Totals
add_workers t [] = t
add_workers t (w ∷ ws) = add_workers (add_worker t w) ws

pub print_final_stats : List Worker → Totals
print_final_stats ws =
    add_workers
      (record { total_recv = 0; total_sent = 0; total_bytes_recv = 0; total_bytes_sent = 0 }) ws

-- `std::accumulate` of the receive counters.
unfoldable pub total_received : ℕ → List Worker → ℕ
total_received sum [] = sum
total_received sum (w ∷ ws) = total_received (add64 sum w.packets_received) ws

-- One reading of the printing thread: the requests of the last second.
pub rps : ℕ → ℕ → ℕ
rps prev_total total_recv = if leb prev_total total_recv then total_recv - prev_total else 0

-- All that it prints; in each second it reads the counters of the workers.
unfoldable pub rps_lines : ℕ → List (List Worker) → List ℕ
rps_lines prev_total [] = []
rps_lines prev_total (ws ∷ seconds) =
    let total_recv = total_received 0 ws in rps prev_total total_recv ∷ rps_lines total_recv seconds

-- Workers in states that they reach, with the number of datagrams that Windows took of all of them.
pub data Ran (sync_reply : Bool) : List Worker → ℕ → Type 0 where
  nobody : Ran sync_reply [] 0
  one_more :
      (outcomes : List Outcome) (contexts : ℕ → IoContext) {w : Worker} {ws : List Worker} {n : ℕ}
      → length outcomes ≡ outstanding_ops
      → ((j : ℕ) → (contexts j).operation ≡ recv)
      → ((j : ℕ) → length (contexts j).buffer ≡ max_packet_size)
      → Reached sync_reply outcomes contexts w
      → Ran sync_reply ws n
      → Ran sync_reply (w ∷ ws) (length w.io.wire + n)

add_workers-sent :
    {sync_reply : Bool} {ws : List Worker} {n : ℕ} (t : Totals)
    → t.total_sent < u64_mod
    → Ran sync_reply ws n
    → (add_workers t ws).total_sent ≡ (t.total_sent + n) % u64_mod
unfolding add_workers add_worker
add_workers-sent t h nobody = omega arith
add_workers-sent {sync_reply} t h (one_more outcomes contexts {w} n z b r rest) =
    let counted = Reached-packets_sent sync_reply outcomes contexts w n z b r in
    add_workers-sent (add_worker t w) (omega arith) rest ∙ omega (arith, counted)

-- When the workers of a server are in states that they reach from a start with fresh contexts and 16
-- receives, the printed total of packets sent is the number of datagrams that Windows has taken from
-- all of them, modulo 2^64.
pub print_final_stats-wire :
    {sync_reply : Bool} {ws : List Worker} {n : ℕ}
    → Ran sync_reply ws n
    → (print_final_stats ws).total_sent ≡ n % u64_mod
unfolding print_final_stats
print_final_stats-wire r = add_workers-sent _ (omega arith) r ∙ omega arith

-- The readings of the total never go down.
abbrev pub IsRising : ℕ → List (List Worker) → Type 0
IsRising prev [] = Unit {0}
IsRising prev (ws ∷ seconds) = (prev ≤ total_received 0 ws) × IsRising (total_received 0 ws) seconds

abbrev pub sum : List ℕ → ℕ
sum [] = 0
sum (x ∷ xs) = x + sum xs

abbrev pub last_of : ℕ → List (List Worker) → ℕ
last_of prev [] = prev
last_of prev (ws ∷ seconds) = last_of (total_received 0 ws) seconds

-- While the total of received packets does not go down from one reading to the next, the printed
-- numbers of requests a second add up to what was received between the first reading and the last.
pub rps_lines-sum :
    (prev : ℕ) (seconds : List (List Worker))
    → IsRising prev seconds
    → prev + sum (rps_lines prev seconds) ≡ last_of prev seconds
unfolding rps_lines rps
rps_lines-sum prev [] h = omega arith
rps_lines-sum prev (ws ∷ seconds) (h, k) =
    ground (arith, rps_lines-sum (total_received 0 ws) seconds k)
