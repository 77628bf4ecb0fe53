-- ===== src/Cc/Reno/Decrease.antt =====
-- Repeated polls of common/reno.hpp: the test for RTT inflation reads the last sample, which a poll
-- leaves in place.
use win_udpsharded_echo.Prelude.{ℕ, ◌≡◌, refl, ap, ◌∙◌, true, false, List, [], ◌∷◌, arith}
use win_udpsharded_echo.Float.{Double, std_max}
use win_udpsharded_echo.Cc.{Event, polled, run}
use win_udpsharded_echo.Cc.Reno.{Reno, is_inflated, decrease, on_poll, reno_congestion_controller}
use win_udpsharded_echo.Cc.Reno.Tracking.{update_target_rate_keeps}

abbrev pub polls : List ℕ → List Event
polls [] = []
polls (now ∷ times) = polled now ∷ polls times

module _ {F : Type 0} ⦃d : Double F⦄ where
  -- The window after so many halvings, each stopped at 2.
  abbrev pub halved : List ℕ → F → F
  halved [] cwnd = cwnd
  halved (_ ∷ times) cwnd = halved times (std_max (d.lit 2 0) (d.div cwnd (d.lit 2 0)))

  on_poll_inflated :
      (now : ℕ) (s : Reno F)
      → s.unlimited ≡ false
      → is_inflated s ≡ true
      → let t = on_poll now s in
        (t.unlimited ≡ false)
        × (is_inflated t ≡ true)
        × (t.cwnd_packets ≡ std_max (d.lit 2 0) (d.div s.cwnd_packets (d.lit 2 0)))
  unfolding on_poll decrease is_inflated
  on_poll_inflated now s h i = ground (arith, update_target_rate_keeps (decrease s))

  -- One inflated sample of a limited controller is acted on at every poll: without a new
  -- acknowledgement each poll halves the window again, down to 2, and the last sample still counts
  -- as inflated.
  pub run-polls-halved :
      (times : List ℕ) (s : Reno F)
      → s.unlimited ≡ false
      → is_inflated s ≡ true
      → let t = run reno_congestion_controller s (polls times) in
        (t.cwnd_packets ≡ halved times s.cwnd_packets) × (is_inflated t ≡ true)
  unfolding run
  run-polls-halved [] s h i = (refl, i)
  run-polls-halved (now ∷ times) s h i =
      let (limited, still, half) = on_poll_inflated now s h i in
      let ih = run-polls-halved times (on_poll now s) limited still in
      (ih.0 ∙ ap (halved times) half, ih.1)
