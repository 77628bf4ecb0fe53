-- ===== src/Client/Stats.antt =====
-- The final statistics of `main` in client/main.cpp: the counters of all workers after they ended.
use win_udpsharded_echo.Prelude.{
  ℕ, ◌+◌, ◌<◌, ◌≡◌, refl, List, [], ◌∷◌, arith, ltb, if◌then◌else◌, add64, u64_mod,
}
use win_udpsharded_echo.Float.{Double}
use win_udpsharded_echo.Cc.{Controller}
use win_udpsharded_echo.Client.Worker.{Config, Client, wind_up}
use win_udpsharded_echo.Client.Reach.{Note, Reached}
use win_udpsharded_echo.Client.Sequences.{packets_of, echoed_of, Reached-accounts}

pub record Totals : Type 0 where
  pub total_sent : ℕ
  pub total_recv : ℕ
  pub total_dropped : ℕ
  pub total_bytes_sent : ℕ
  pub total_bytes_recv : ℕ
  pub total_rtt : ℕ
  pub min_rtt : ℕ
  pub max_rtt : ℕ

abbrev pub no_totals : Totals
no_totals = record {
  total_sent = 0;
  total_recv = 0;
  total_dropped = 0;
  total_bytes_sent = 0;
  total_bytes_recv = 0;
  total_rtt = 0;
  min_rtt = 18_446_744_073_709_551_615;
  max_rtt = 0;
}

unfoldable pub add_worker : {F C : Type 0} → Totals → Client F C → Totals
add_worker t c = record {
  total_sent = add64 t.total_sent c.packets_sent;
  total_recv = add64 t.total_recv c.packets_received;
  total_dropped = add64 t.total_dropped c.packets_dropped;
  total_bytes_sent = add64 t.total_bytes_sent c.bytes_sent;
  total_bytes_recv = add64 t.total_bytes_recv c.bytes_received;
  total_rtt = add64 t.total_rtt c.total_rtt_ns;
  min_rtt = if ltb c.min_rtt_ns t.min_rtt then c.min_rtt_ns else t.min_rtt;
  max_rtt = if ltb t.max_rtt c.max_rtt_ns then c.max_rtt_ns else t.max_rtt;
}

unfoldable pub add_workers : {F C : Type 0} → Totals → List (Client F C) → Totals
add_workers t [] = t
add_workers t (c ∷ cs) = add_workers (add_worker t c) cs

pub final_stats : {F C : Type 0} → List (Client F C) → Totals
final_stats cs = add_workers no_totals cs

module _ {F C : Type 0} ⦃d : Double F⦄ (controller : Controller F C) where
  -- Workers that all ended without an exception, each with its own sockets, with how many packets
  -- were answered and how many were handed over, all together.
  pub data Ended : List (Client F C) → ℕ → ℕ → Type 0 where
    nobody : Ended [] 0 0
    one_more :
        (config : Config) {c : Client F C} {h : List Note} {cs : List (Client F C)} {a s : ℕ}
        → Reached controller config c h
        → Ended cs a s
        → Ended (wind_up controller config c ∷ cs) (echoed_of h + a) (packets_of h + s)

  packets_sent-wind_up :
      (config : Config) (c : Client F C)
      → (wind_up controller config c).packets_sent ≡ c.packets_sent
  unfolding wind_up
  packets_sent-wind_up config c = refl

  add_workers-Ended :
      {cs : List (Client F C)} {a s : ℕ} (t : Totals)
      → Ended cs a s
      → t.total_sent + s < u64_mod
      → t.total_dropped + s < u64_mod
      → ((add_workers t cs).total_sent ≡ t.total_sent + s)
        × ((add_workers t cs).total_dropped + a ≡ t.total_dropped + s)
  unfolding add_workers add_worker
  add_workers-Ended t nobody m n = (omega arith, omega arith)
  add_workers-Ended t (one_more config {c} {h} {cs} {a} {s} r e) m n =
      let w = wind_up controller config c in
      let (sent_eq, _, dropped_eq) = Reached-accounts controller config r (omega arith) in
      let kept = packets_sent-wind_up config c in
      let (x, y) =
        add_workers-Ended (add_worker t w) e (omega (arith, sent_eq, kept))
          (omega (arith, sent_eq, dropped_eq)) in
      (omega (arith, x, sent_eq, kept), omega (arith, y, sent_eq, dropped_eq))

  -- When all workers ended without an exception, with fewer than 2^64 packets together, the printed
  -- number of packets sent is that of the packets that were handed over, and the printed number
  -- dropped, with the packets that were answered, makes the number sent: none is lost or counted twice.
  pub final_stats-accounts :
      {cs : List (Client F C)} {a s : ℕ}
      → Ended cs a s
      → s < u64_mod
      → ((final_stats cs).total_sent ≡ s)
        × ((final_stats cs).total_dropped + a ≡ (final_stats cs).total_sent)
  unfolding final_stats
  final_stats-accounts e m =
      let (x, y) = add_workers-Ended no_totals e (omega arith) (omega arith) in
      (omega (arith, x), omega (arith, x, y))
