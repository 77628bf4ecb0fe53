-- ===== src/Cc/Bbr/Target.antt =====
-- The target rate of common/bbr.hpp against the initial rate, its ceiling.
use win_udpsharded_echo.Prelude.{ℕ, ◌≡◌, ◌<◌, refl, false, List, [], ◌∷◌, ◌≢◌, arith, sub64}
use win_udpsharded_echo.Float.{Double, nought, ◌≼◌, ◌≺◌}
use win_udpsharded_echo.Float.Laws.{IsIeee, lit_self, le_of_not_lt}
use win_udpsharded_echo.Cc.{Event, sent, acked, polled, run}
use win_udpsharded_echo.Cc.Bbr.{
  Bbr, default_bbr, set_initial_rate, on_send, bounded_target, on_ack, is_stale, on_poll,
  target_rate_pps, bbr_congestion_controller, min_pps, pacing_gain, decay_interval_ns,
}

-- A history with no poll in it.
abbrev pub NoPolls : List Event → Type 0
NoPolls [] = Unit {0}
NoPolls (polled now ∷ es) = ⊥
NoPolls (sent now seq ∷ es) = NoPolls es
NoPolls (acked now seq rtt ∷ es) = NoPolls es

module _ {F : Type 0} ⦃d : Double F⦄ (laws : IsIeee F) where
  open laws use {refl_of_le, le_of_lt, le_trans, lt_le_trans, not_lt_of_le, mul_lit}

  not-lt-bounded_target :
      (bandwidth initial : F)
      → nought ≺ initial
      → d.lt initial (bounded_target bandwidth initial) ≡ false
  unfolding bounded_target
  not-lt-bounded_target bandwidth initial h =
      let self : initial ≼ initial = (refl_of_le nought initial (le_of_lt _ _ h)).1 in
      ground (arith, not_lt_of_le initial initial self)

  on_ack_target :
      (initial : F) (now seq rtt : ℕ) (s : Bbr F)
      → nought ≺ initial
      → s.initial_rate_pps ≡ initial
      → let t = on_ack now seq rtt s in
        (t.initial_rate_pps ≡ initial) × (d.lt initial t.target_rate ≡ false)
  unfolding on_ack
  on_ack_target initial now seq rtt s pos e = (e, rw e (not-lt-bounded_target _ initial pos))

  run_target :
      (initial : F) (s : Bbr F) (es : List Event)
      → nought ≺ initial
      → s.initial_rate_pps ≡ initial
      → NoPolls es
      → d.lt initial s.target_rate ≡ false
      → d.lt initial (run bbr_congestion_controller s es).target_rate ≡ false
  unfolding run on_send
  run_target initial s [] pos e p h = h
  run_target initial s (sent now seq ∷ es) pos e p h =
      run_target initial (on_send now seq s) es pos e p h
  run_target initial s (acked now seq rtt ∷ es) pos e p h =
      let (e', h') = on_ack_target initial now seq rtt s pos e in
      run_target initial (on_ack now seq rtt s) es pos e' p h'
  run_target initial s (polled now ∷ es) pos e p h = absurd p

  -- From a positive initial rate, sends and acknowledgements alone never take the target above it.
  pub run-le-initial :
      (initial : F) (es : List Event)
      → nought ≺ initial
      → NoPolls es
      → d.lt initial (
          target_rate_pps (run bbr_congestion_controller (set_initial_rate initial default_bbr) es))
        ≡ false
  unfolding target_rate_pps set_initial_rate
  run-le-initial initial es pos p =
      let self : initial ≼ initial = (refl_of_le nought initial (le_of_lt _ _ pos)).1 in
      run_target initial _ es pos refl p (not_lt_of_le initial initial self)

  -- A poll can take the target above the initial rate: a later poll more than 200 ms after the last
  -- one, with a positive bandwidth estimate, does so whenever that rate is below 100.
  pub on_poll_exceeds :
      (now : ℕ) (s : Bbr F)
      → s.last_poll_ns ≢ 0
      → s.last_poll_ns < now
      → decay_interval_ns < sub64 now s.last_poll_ns
      → nought ≺ s.bandwidth_pps
      → s.initial_rate_pps ≺ min_pps
      → s.initial_rate_pps ≺ target_rate_pps (on_poll now s)
  unfolding on_poll target_rate_pps is_stale
  on_poll_exceeds now s h₁ h₂ h₃ h₄ h₅ =
      let decayed = d.mul s.bandwidth_pps (d.lit 95 2) in
      let gained = d.mul decayed pacing_gain in
      let low : nought ≼ decayed =
        mul_lit s.bandwidth_pps 95 2 (le_of_lt _ _ h₄) (omega arith) (omega arith) (omega arith) in
      let num : nought ≼ gained =
        mul_lit decayed 125 2 low (omega arith) (omega arith) (omega arith) in
      let floor = le_of_not_lt laws min_pps gained (lit_self laws 100 0) (refl_of_le _ _ num).1 in
      ground (arith, floor, lt_le_trans s.initial_rate_pps min_pps gained h₅)
