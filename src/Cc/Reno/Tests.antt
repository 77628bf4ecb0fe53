-- ===== src/Cc/Reno/Tests.antt =====
-- Runs of common/reno.hpp in fixed point, and the theorems at concrete inputs.
use win_udpsharded_echo.Prelude.{ℕ, ◌≡◌, refl, true, false, List, [], ◌∷◌}
use win_udpsharded_echo.Float.{one}
use win_udpsharded_echo.Float.Fixed.{Fixed, fixed_double, Fixed-IsIeee}
use win_udpsharded_echo.Cc.{Event, sent, acked, polled, run}
use win_udpsharded_echo.Cc.Reno.{
  Reno, set_initial_rate, on_send, on_ack, acknowledge, observe_rtt, grow_cwnd, update_target_rate,
  clamp_rate, on_poll, is_inflated, decrease, target_rate_pps, reno_congestion_controller,
  default_reno,
}
use win_udpsharded_echo.Cc.Reno.Window.{IsBounded, run-IsBounded}
use win_udpsharded_echo.Cc.Reno.Decrease.{polls, run-polls-halved}

abbrev whole : ℕ → Fixed
whole n = fixed_double.lit n 0

-- Two sends, an acknowledgement after 1 ms and one after 2 ms, and a poll.
abbrev history : List Event
history =
    sent 1000 0
    ∷ sent 2000 1
    ∷ acked 1_001_000 0 1_000_000
    ∷ acked 2_002_000 1 2_000_000
    ∷ polled 3_000_000
    ∷ []

abbrev started_reno : Reno Fixed
started_reno = set_initial_rate (whole 5000) default_reno

reno_halves : (run reno_congestion_controller started_reno history).cwnd_packets ≡ whole 6
unfolding run set_initial_rate on_send on_ack acknowledge observe_rtt grow_cwnd update_target_rate
    clamp_rate on_poll is_inflated decrease
reno_halves = refl

run-IsBounded_example :
    let s = run reno_congestion_controller started_reno history in
    IsBounded (whole 5000) s
    × (fixed_double.lt (target_rate_pps s) one ≡ false)
    × (fixed_double.lt (whole 5000) (target_rate_pps s) ≡ false)
run-IsBounded_example = run-IsBounded Fixed-IsIeee (whole 5000) refl history

abbrev inflated_reno : Reno Fixed
inflated_reno = record default_reno {
  last_rtt_ns = 2_000_000;
  min_rtt_ns = 1_000_000;
  cwnd_packets = whole 40;
}

run-polls-halved_example :
    let t = run reno_congestion_controller inflated_reno (polls (1 ∷ 2 ∷ 3 ∷ [])) in
    (t.cwnd_packets ≡ whole 5) × (is_inflated t ≡ true)
unfolding is_inflated
run-polls-halved_example = run-polls-halved (1 ∷ 2 ∷ 3 ∷ []) inflated_reno refl refl
