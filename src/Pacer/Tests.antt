-- ===== src/Pacer/Tests.antt =====
-- Runs of common/pacer.hpp in fixed point, and the theorems at concrete inputs.
use win_udpsharded_echo.Prelude.{ℕ, ◌≡◌, refl, true, false, List, [], ◌∷◌, inr, ◌&&◌, not}
use win_udpsharded_echo.Float.{one}
use win_udpsharded_echo.Float.Fixed.{Fixed, fixed_double, Fixed-IsIeee}
use win_udpsharded_echo.Cc.Null.{null_congestion_controller}
use win_udpsharded_echo.Cc.Reno.{reno_congestion_controller}
use win_udpsharded_echo.Pacer.{
  Pacer, tokens_at, refill, get_next_send_time_ns, new_pacer, retargets, adjust, can_send,
  record_send, poll, Call, checks, records, polls, resets, acks, run,
}
use win_udpsharded_echo.Pacer.Bucket.{IsFilled, run-IsFilled}
use win_udpsharded_echo.Pacer.Wait.{can_send-wait}
use win_udpsharded_echo.Pacer.Rate.{reno_rate_le}

abbrev whole : ℕ → Fixed
whole n = fixed_double.lit n 0

-- One packet per millisecond with no congestion control.
abbrev thousand : Pacer Fixed (Unit {0})
thousand = record {
  rate_pps = whole 1000;
  unlimited = false;
  capacity = whole 5;
  tokens = whole 0;
  last_refill_ns = 0;
  cc = tt;
}

made : new_pacer null_congestion_controller 0 (whole 1000) ≡ thousand
unfolding new_pacer
made = refl

-- Half a millisecond after the start half a token is there, and the wait is the other half.
waits :
    (get_next_send_time_ns 500_000 thousand ≡ 500_000)
    × ((can_send null_congestion_controller 500_000 thousand).1 ≡ false)
    × ((can_send null_congestion_controller 1_000_000 thousand).1 ≡ true)
unfolding get_next_send_time_ns tokens_at can_send adjust retargets refill
waits = (refl, refl, refl)

-- However long it idles, a burst is five packets.
burst : (poll null_congestion_controller 9_000_000_000 thousand).tokens ≡ whole 5
unfolding poll refill
burst = refl

-- A send without a token leaves none, and no debt.
overshoot : (record_send null_congestion_controller 500_000 1 thousand).tokens ≡ whole 0
unfolding record_send refill
overshoot = refl

abbrev calls : List Call
calls = polls 3_000_000 ∷ checks 4_000_000 ∷ records 4_000_100 0 ∷ resets 5_000_000 ∷ []

run-IsFilled_example :
    IsFilled
      (run null_congestion_controller (new_pacer null_congestion_controller 0 (whole 1000)) calls)
unfolding new_pacer retargets
run-IsFilled_example =
    run-IsFilled Fixed-IsIeee null_congestion_controller 0 (whole 1000) calls refl (inr refl, tt)

can_send-wait_example :
    let (q, sendable) = can_send null_congestion_controller 500_000 thousand in
    (get_next_send_time_ns 500_000 thousand ≡ 500_000)
    × ((fixed_double.le one q.tokens && not sendable) ≡ false)
unfolding retargets can_send adjust refill
can_send-wait_example =
    can_send-wait Fixed-IsIeee null_congestion_controller 500_000 thousand refl refl

reno_rate_le_example :
    let start = new_pacer reno_congestion_controller 0 (whole 1000) in
    fixed_double.lt
      (whole 1000)
      (run reno_congestion_controller start (acks 1000 0 1_000_000 ∷ checks 2000 ∷ [])).rate_pps
    ≡ false
reno_rate_le_example =
    reno_rate_le Fixed-IsIeee 0 (whole 1000) (acks 1000 0 1_000_000 ∷ checks 2000 ∷ []) refl
