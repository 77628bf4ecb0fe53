-- ===== src/Cc/Bbr.antt =====
-- common/bbr.hpp: the rate-based controller. The atomic `target_rate_` is a field: one thread at a
-- time calls the controller.
pub mod Target
pub mod History
pub mod Tests
use Prim.Native.Nat.{max}
use win_udpsharded_echo.Prelude.{
  ℕ, List, [], ◌∷◌, ◌++◌, Bool, ◌&&◌, not, ltb, ◌==◌, if◌then◌else◌, add64, sub64, length,
}
use win_udpsharded_echo.Float.{Double, std_max, std_min, nought}
use win_udpsharded_echo.Cc.{Controller}

pub record Bbr (F : Type 0) : Type 0 where
  pub target_rate : F
  pub bandwidth_pps : F
  pub rtt_est_ns : ℕ
  pub last_poll_ns : ℕ
  pub sent_history : List (ℕ × ℕ)
  pub ack_history : List ℕ
  pub initial_rate_pps : F

-- The constants of the class.
abbrev pub decay_interval_ns : ℕ
decay_interval_ns = 200_000_000

abbrev pub max_history : ℕ
max_history = 1024

abbrev pub ack_window_ns : ℕ
ack_window_ns = 200_000_000

-- `while (size() > max_history_) pop_front();`
trim : List (ℕ × ℕ) → List (ℕ × ℕ)
trim [] = []
trim (x ∷ xs) = let rest = trim xs in if ltb max_history (length (x ∷ xs)) then rest else x ∷ xs

-- `while (!empty() && front() + window_ns < now_ns) pop_front();`
evict : ℕ → List ℕ → List ℕ
evict now [] = []
evict now (t ∷ ts) =
    let rest = evict now ts in if ltb (add64 t ack_window_ns) now then rest else t ∷ ts

smoothed_rtt : (F : Type 0) ⦃d : Double F⦄ → ℕ → ℕ → ℕ
smoothed_rtt F ⦃d⦄ est rtt =
    if est == 0
    then rtt
    else d.to_u64 (d.add (d.mul (d.of_u64 est) (d.lit 875 3)) (d.mul (d.of_u64 rtt) (d.lit 125 3)))

module _ {F : Type 0} ⦃d : Double F⦄ where
  open d use {lt, eq, add, mul, div, lit, of_u64}

  abbrev pub pacing_gain : F
  pacing_gain = lit 125 2

  abbrev pub min_pps : F
  min_pps = lit 100 0

  abbrev pub default_bbr : Bbr F
  default_bbr = record {
    target_rate = lit 1000 0;
    bandwidth_pps = nought;
    rtt_est_ns = 0;
    last_poll_ns = 0;
    sent_history = [];
    ack_history = [];
    initial_rate_pps = nought;
  }

  pub set_initial_rate : F → Bbr F → Bbr F
  set_initial_rate pps s = record s {
    initial_rate_pps = pps;
    target_rate = pps;
    bandwidth_pps = pps;
  }

  pub on_send : ℕ → ℕ → Bbr F → Bbr F
  unfolding trim
  on_send now seq s = record s { sent_history = trim (s.sent_history ++ (seq, now) ∷ []) }

  -- The delivered packets per second over the window.
  sample_pps : ℕ → List ℕ → F
  sample_pps now [] = nought
  sample_pps now (t ∷ ts) =
      let window_s = mul (of_u64 (max 1 (sub64 now t))) (lit 1 9) in
      if lt nought window_s then div (of_u64 (length (t ∷ ts))) window_s else nought

  blend : F → F → F
  blend bandwidth sample =
      if eq bandwidth nought then sample else add (mul bandwidth (lit 9 1)) (mul sample (lit 1 1))

  -- The new target of `on_ack`.
  bounded_target : F → F → F
  bounded_target bandwidth initial =
      let target = std_max (mul bandwidth pacing_gain) min_pps in
      if lt nought initial then std_min target initial else target

  pub on_ack : ℕ → ℕ → ℕ → Bbr F → Bbr F
  unfolding smoothed_rtt evict sample_pps blend bounded_target
  on_ack now seq rtt s =
      let history = evict now (s.ack_history ++ now ∷ []) in
      let bandwidth = blend s.bandwidth_pps (sample_pps now history) in
      record s {
        rtt_est_ns = smoothed_rtt F s.rtt_est_ns rtt;
        ack_history = history;
        bandwidth_pps = bandwidth;
        target_rate = bounded_target bandwidth s.initial_rate_pps;
      }

  -- Whether the poll decays the estimate.
  is_stale : ℕ → Bbr F → Bool
  is_stale now s =
      not (s.last_poll_ns == 0)
      && ltb s.last_poll_ns now
      && ltb decay_interval_ns (sub64 now s.last_poll_ns)
      && lt nought s.bandwidth_pps

  pub on_poll : ℕ → Bbr F → Bbr F
  unfolding is_stale
  on_poll now s =
      let decayed = mul s.bandwidth_pps (lit 95 2) in
      let polled = record s { last_poll_ns = now } in
      if is_stale now s
      then record polled {
        bandwidth_pps = decayed;
        target_rate = std_max (mul decayed pacing_gain) min_pps;
      }
      else polled

  pub target_rate_pps : Bbr F → F
  target_rate_pps s = s.target_rate

  abbrev pub bbr_congestion_controller : Controller F (Bbr F)
  bbr_congestion_controller = record {
    default = default_bbr;
    set_initial_rate = set_initial_rate;
    on_send = on_send;
    on_ack = on_ack;
    on_poll = on_poll;
    target_rate_pps = target_rate_pps;
  }
