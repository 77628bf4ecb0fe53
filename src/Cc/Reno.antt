-- ===== src/Cc/Reno.antt =====
-- common/reno.hpp: the window-based controller.
pub mod Window
pub mod Tracking
pub mod Decrease
pub mod Tests
use win_udpsharded_echo.Prelude.{
  ℕ, List, [], Bool, true, false, ◌&&◌, ◌||◌, ltb, ◌==◌, if◌then◌else◌, insert, erase,
}
use win_udpsharded_echo.Float.{Double, std_max, nought, one}
use win_udpsharded_echo.Cc.{Controller}

pub record Reno (F : Type 0) : Type 0 where
  pub unlimited : Bool
  pub last_rtt_ns : ℕ
  pub min_rtt_ns : ℕ
  pub cwnd_packets : F
  pub ssthresh : F
  pub pacing_rate_pps : F
  pub send_times : List (ℕ × ℕ)
  pub initial_rate_pps : F

module _ {F : Type 0} ⦃d : Double F⦄ where
  open d use {lt, le, add, mul, div, lit, of_u64}

  -- The constants 1.6, 1.0 and 1e6 of the class.
  abbrev pub rtt_inflation_threshold : F
  rtt_inflation_threshold = lit 16 1

  abbrev pub max_mult : F
  max_mult = lit 1 0

  abbrev pub max_cwnd : F
  max_cwnd = lit 1_000_000 0

  abbrev pub default_reno : Reno F
  default_reno = record {
    unlimited = false;
    last_rtt_ns = 0;
    min_rtt_ns = 0;
    cwnd_packets = lit 10 0;
    ssthresh = lit 1000 0;
    pacing_rate_pps = nought;
    send_times = [];
    initial_rate_pps = nought;
  }

  pub set_initial_rate : F → Reno F → Reno F
  set_initial_rate pps s = if le pps nought then record s { unlimited = true } else record s {
    unlimited = false;
    cwnd_packets = lit 10 0;
    ssthresh = lit 1000 0;
    initial_rate_pps = pps;
    pacing_rate_pps = pps;
  }

  -- The two clamps at the end of `update_target_rate`.
  clamp_rate : F → F → F
  clamp_rate initial rate =
      let limit = mul initial max_mult in
      let capped = if lt nought initial && lt limit rate then limit else rate in
      if lt capped one then one else capped

  pub update_target_rate : Reno F → Reno F
  update_target_rate s =
      let min_rtt_s = div (of_u64 s.min_rtt_ns) (lit 1_000_000_000 0) in
      if s.min_rtt_ns == 0 || le min_rtt_s nought then s else record s {
        pacing_rate_pps = clamp_rate s.initial_rate_pps (div s.cwnd_packets min_rtt_s);
      }

  pub on_send : ℕ → ℕ → Reno F → Reno F
  on_send now seq s =
      if s.unlimited then s else record s { send_times = insert seq now s.send_times }

  -- The first step of `on_ack`: a sample of 0 is no sample.
  observe_rtt : ℕ → Reno F → Reno F
  observe_rtt rtt s =
      if ltb 0 rtt
      then record s {
        min_rtt_ns = if s.min_rtt_ns == 0 || ltb rtt s.min_rtt_ns then rtt else s.min_rtt_ns;
        last_rtt_ns = rtt;
      }
      else s

  -- Slow start or congestion avoidance, then the clamp to [1, 1e6].
  grow_cwnd : F → F → F
  grow_cwnd cwnd ssthresh =
      let grown =
        if lt cwnd ssthresh then add cwnd one else add cwnd (div one (std_max one cwnd)) in
      let floored = if lt grown one then one else grown in
      if lt max_cwnd floored then max_cwnd else floored

  -- What `on_ack` does before it recomputes the rate.
  acknowledge : ℕ → ℕ → Reno F → Reno F
  acknowledge seq rtt s =
      let seen = observe_rtt rtt s in
      record seen {
        send_times = erase seq seen.send_times;
        cwnd_packets = grow_cwnd seen.cwnd_packets seen.ssthresh;
      }

  pub on_ack : ℕ → ℕ → ℕ → Reno F → Reno F
  on_ack now seq rtt s = if s.unlimited then s else update_target_rate (acknowledge seq rtt s)

  -- The test for RTT inflation.
  pub is_inflated : Reno F → Bool
  is_inflated s =
      ltb 0 s.last_rtt_ns
      && ltb 0 s.min_rtt_ns
      && lt (mul (of_u64 s.min_rtt_ns) rtt_inflation_threshold) (of_u64 s.last_rtt_ns)

  -- The multiplicative decrease.
  decrease : Reno F → Reno F
  decrease s =
      let half = std_max (lit 2 0) (div s.cwnd_packets (lit 2 0)) in
      record s { ssthresh = half; cwnd_packets = half }

  pub on_poll : ℕ → Reno F → Reno F
  on_poll now s =
      if s.unlimited then s else if is_inflated s then update_target_rate (decrease s) else s

  pub target_rate_pps : Reno F → F
  target_rate_pps s = if s.unlimited then nought else s.pacing_rate_pps

  abbrev pub reno_congestion_controller : Controller F (Reno F)
  reno_congestion_controller = record {
    default = default_reno;
    set_initial_rate = set_initial_rate;
    on_send = on_send;
    on_ack = on_ack;
    on_poll = on_poll;
    target_rate_pps = target_rate_pps;
  }
