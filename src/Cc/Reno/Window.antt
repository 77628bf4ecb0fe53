-- ===== src/Cc/Reno/Window.antt =====
-- The window and the pacing rate of common/reno.hpp stay in their bounds.
use win_udpsharded_echo.Prelude.{ℕ, ◌≡◌, false, inl, inr, List, arith, Bool-cases, if◌then◌else◌}
use win_udpsharded_echo.Float.{Double, std_max, nought, one, ◌≼◌, ◌≺◌}
use win_udpsharded_echo.Float.Laws.{IsIeee, lit_self, le_of_not_lt, not_le_of_lt, le-std_max}
use win_udpsharded_echo.Cc.{Event, sent, acked, polled, notify, run, run_inv}
use win_udpsharded_echo.Cc.Reno.{
  Reno, default_reno, set_initial_rate, clamp_rate, update_target_rate, on_send, observe_rtt,
  grow_cwnd, acknowledge, on_ack, decrease, on_poll, target_rate_pps, reno_congestion_controller,
  max_cwnd,
}

module _ {F : Type 0} ⦃d : Double F⦄ where
  -- The window is a number from 1 to 1e6, and the rate is neither below 1 nor above the initial rate.
  pub record IsBounded (initial : F) (s : Reno F) : Type 0 where
    pub limited : s.unlimited ≡ false
    pub requested : s.initial_rate_pps ≡ initial
    pub window_ge : one ≼ s.cwnd_packets
    pub window_le : s.cwnd_packets ≼ max_cwnd
    pub rate_ge : d.lt s.pacing_rate_pps one ≡ false
    pub rate_le : d.lt initial s.pacing_rate_pps ≡ false

  module _ (laws : IsIeee F) where
    open laws use {
      le_trans, le_lt_trans, lt_le_trans, le_of_lt, refl_of_le, not_lt_of_le, lit_mono, lit_lt,
      le_add, half_le, lit_div, mul_one,
    }

    nought_lt_one : ◌≺◌ {F = F} nought one
    nought_lt_one = lit_lt 0 1 (omega arith) (omega arith)

    nought_lt : (x : F) → one ≼ x → nought ≺ x
    nought_lt x h = lt_le_trans nought one x nought_lt_one h

    nought_le : (x : F) → one ≼ x → nought ≼ x
    nought_le x h = le_of_lt nought x (nought_lt x h)

    -- Whatever rate the window gives, NaN included, the clamps put it in the range.
    clamp_rate_bounds :
        (initial rate : F)
        → one ≼ initial
        → (d.lt (clamp_rate initial rate) one ≡ false)
          × (d.lt initial (clamp_rate initial rate) ≡ false)
    unfolding clamp_rate
    clamp_rate_bounds initial rate h =
        let self : initial ≼ initial = (refl_of_le one initial h).1 in
        rw (mul_one initial) (
          ground (
            arith,
            nought_lt initial h,
            not_lt_of_le one one (lit_self laws 1 0),
            not_lt_of_le one initial h,
            not_lt_of_le initial initial self,
          ))

    -- The clamp to [1, 1e6] of a number that is at least 1.
    clamp_cwnd_bounds :
        (grown : F)
        → one ≼ grown
        → let floored = if d.lt grown one then one else grown in
          let clamped = if d.lt max_cwnd floored then max_cwnd else floored in
          (one ≼ clamped) × (clamped ≼ max_cwnd)
    clamp_cwnd_bounds grown h =
        let top : ◌≼◌ {F = F} max_cwnd max_cwnd = lit_self laws 1_000_000 0 in
        ground (
          arith,
          not_lt_of_le one grown h,
          lit_mono 1 1_000_000 0,
          le_of_not_lt laws grown max_cwnd (refl_of_le one grown h).1 top,
        )

    grow_cwnd_bounds :
        (cwnd ssthresh : F)
        → one ≼ cwnd
        → (one ≼ grow_cwnd cwnd ssthresh) × (grow_cwnd cwnd ssthresh ≼ max_cwnd)
    unfolding grow_cwnd
    grow_cwnd_bounds cwnd ssthresh h =
        let floor = le-std_max laws one cwnd (lit_self laws 1 0) in
        let share = d.div one (std_max one cwnd) in
        let part : nought ≼ share =
          lit_div 1 (std_max one cwnd) (omega arith) (nought_lt _ floor) in
        let unit : ◌≼◌ {F = F} nought one = le_of_lt _ _ nought_lt_one in
        elim (Bool-cases (d.lt cwnd ssthresh)) [
          | inl e ↦
              rw e
                (clamp_cwnd_bounds _ (le_trans _ _ _ h (le_add cwnd one (nought_le cwnd h) unit)))
          | inr e ↦
              rw e
                (clamp_cwnd_bounds _ (le_trans _ _ _ h (le_add cwnd share (nought_le cwnd h) part)))
        ]

    decreased_bounds :
        (cwnd : F)
        → one ≼ cwnd
        → cwnd ≼ max_cwnd
        → let half = std_max (d.lit 2 0) (d.div cwnd (d.lit 2 0)) in
          (one ≼ half) × (half ≼ max_cwnd)
    decreased_bounds cwnd h k =
        let halved = half_le cwnd (nought_le cwnd h) in
        let two = le-std_max laws (d.lit 2 0) (d.div cwnd (d.lit 2 0)) (lit_self laws 2 0) in
        let low : one ≼ std_max (d.lit 2 0) (d.div cwnd (d.lit 2 0)) =
          le_trans _ _ _ (lit_mono 1 2 0 (omega arith)) two in
        (low, ground (arith, le_trans _ _ _ halved k, lit_mono 2 1_000_000 0))

    module _ (initial : F) (above : one ≼ initial) where
      update_target_rate-IsBounded :
          (s : Reno F) → IsBounded initial s → IsBounded initial (update_target_rate s)
      unfolding update_target_rate
      update_target_rate-IsBounded s b =
          let r =
            clamp_rate_bounds initial
              (d.div s.cwnd_packets (d.div (d.of_u64 s.min_rtt_ns) (d.lit 1_000_000_000 0)))
              above in
          ground (arith, r)

      on_send-IsBounded :
          (now seq : ℕ) (s : Reno F) → IsBounded initial s → IsBounded initial (on_send now seq s)
      unfolding on_send
      on_send-IsBounded now seq s b = ground arith

      acknowledge-IsBounded :
          (seq rtt : ℕ) (s : Reno F)
          → IsBounded initial s
          → IsBounded initial (acknowledge seq rtt s)
      unfolding acknowledge observe_rtt
      acknowledge-IsBounded seq rtt s b =
          let g = grow_cwnd_bounds s.cwnd_packets s.ssthresh b.window_ge in ground (arith, g)

      on_ack-IsBounded :
          (now seq rtt : ℕ) (s : Reno F)
          → IsBounded initial s
          → IsBounded initial (on_ack now seq rtt s)
      unfolding on_ack
      on_ack-IsBounded now seq rtt s b =
          let step = update_target_rate-IsBounded _ (acknowledge-IsBounded seq rtt s b) in
          ground (arith, step)

      decrease-IsBounded : (s : Reno F) → IsBounded initial s → IsBounded initial (decrease s)
      unfolding decrease
      decrease-IsBounded s b =
          let h = decreased_bounds s.cwnd_packets b.window_ge b.window_le in
          record {
            limited = b.limited;
            requested = b.requested;
            window_ge = h.0;
            window_le = h.1;
            rate_ge = b.rate_ge;
            rate_le = b.rate_le;
          }

      on_poll-IsBounded :
          (now : ℕ) (s : Reno F) → IsBounded initial s → IsBounded initial (on_poll now s)
      unfolding on_poll
      on_poll-IsBounded now s b =
          let step = update_target_rate-IsBounded _ (decrease-IsBounded s b) in ground (arith, step)

      pub notify-IsBounded :
          (s : Reno F) (e : Event)
          → IsBounded initial s
          → IsBounded initial (notify reno_congestion_controller s e)
      notify-IsBounded s (sent now seq) b = on_send-IsBounded now seq s b
      notify-IsBounded s (acked now seq rtt) b = on_ack-IsBounded now seq rtt s b
      notify-IsBounded s (polled now) b = on_poll-IsBounded now s b

      pub set_initial_rate-IsBounded : IsBounded initial (set_initial_rate initial default_reno)
      unfolding set_initial_rate
      set_initial_rate-IsBounded =
          let self : initial ≼ initial = (refl_of_le one initial above).1 in
          ground (
            arith,
            lit_mono 1 10 0,
            lit_mono 10 1_000_000 0,
            not_lt_of_le one initial above,
            not_lt_of_le initial initial self,
            not_le_of_lt laws nought initial (nought_lt initial above),
          )

      pub target-bounds :
          (s : Reno F)
          → IsBounded initial s
          → (d.lt (target_rate_pps s) one ≡ false) × (d.lt initial (target_rate_pps s) ≡ false)
      unfolding target_rate_pps
      target-bounds s b = ground arith

      -- A controller that was given a rate of at least one packet per second keeps, after any
      -- history of sends, acknowledgements and polls, a window from 1 to 1e6 packets, and its target
      -- rate is neither below one packet per second nor above the rate it was given.
      pub run-IsBounded :
          (es : List Event)
          → let s = run reno_congestion_controller (set_initial_rate initial default_reno) es in
            IsBounded initial s
            × (d.lt (target_rate_pps s) one ≡ false)
            × (d.lt initial (target_rate_pps s) ≡ false)
      run-IsBounded es =
          let b =
            run_inv reno_congestion_controller (IsBounded initial) notify-IsBounded _ es
              set_initial_rate-IsBounded in
          let t = target-bounds _ b in (b, t.0, t.1)
