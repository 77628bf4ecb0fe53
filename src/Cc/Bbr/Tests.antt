-- ===== src/Cc/Bbr/Tests.antt =====
-- Runs of common/bbr.hpp in fixed point, and the theorems at concrete inputs.
use win_udpsharded_echo.Prelude.{arith, ℕ, ◌≡◌, refl, false, List, [], ◌∷◌, some}
use win_udpsharded_echo.Float.Fixed.{Fixed, fixed_double, Fixed-IsIeee}
use win_udpsharded_echo.Cc.{Event, sent, acked, polled, run}
use win_udpsharded_echo.Cc.Bbr.{
  Bbr, set_initial_rate, on_ack, on_poll, is_stale, target_rate_pps, bbr_congestion_controller,
  default_bbr,
}
use win_udpsharded_echo.Cc.Bbr.History.{on_ack_history}
use win_udpsharded_echo.Cc.Bbr.Target.{run-le-initial}

abbrev whole : ℕ → Fixed
whole n = fixed_double.lit n 0

-- Two sends, an acknowledgement after 1 ms and one after 2 ms, and a poll.
abbrev history : List Event
history =
    sent 1000 0
    ∷ sent 2000 1
    ∷ acked 1_001_000 0 1_000_000
    ∷ acked 2_002_000 1 2_000_000
    ∷ polled 3_000_000
    ∷ []

run-le-initial_example :
    fixed_double.lt (whole 5000) (
      target_rate_pps (
        run bbr_congestion_controller
          (set_initial_rate (whole 5000) default_bbr)
          (sent 1000 0 ∷ acked 2000 0 1000 ∷ [])))
    ≡ false
run-le-initial_example =
    run-le-initial Fixed-IsIeee (whole 5000) (sent 1000 0 ∷ acked 2000 0 1000 ∷ []) refl tt

abbrev slow_bbr : Bbr Fixed
slow_bbr = record default_bbr {
  initial_rate_pps = whole 10;
  bandwidth_pps = whole 10;
  last_poll_ns = 1;
}

-- The same with a rate above 100: the poll's target is 1.1875 times the initial rate.
poll_above_ceiling :
    target_rate_pps (
      on_poll 300_000_000
        (record slow_bbr { initial_rate_pps = whole 1000; bandwidth_pps = whole 1000 }))
    ≡ some 1_187_500_000_000_000
unfolding target_rate_pps on_poll is_stale
poll_above_ceiling = refl

on_ack_history_example :
    (on_ack 300_000_000 7 1000 (record slow_bbr { ack_history = 5 ∷ 150_000_000 ∷ [] })).ack_history
    ≡ 150_000_000 ∷ 300_000_000 ∷ []
on_ack_history_example =
    on_ack_history 300_000_000 200_000_000 7 1000
      (record slow_bbr { ack_history = 5 ∷ 150_000_000 ∷ [] }) (omega arith) (omega arith)
      (omega arith)
