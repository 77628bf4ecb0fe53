-- ===== src/Pacer.antt =====
-- common/pacer.hpp: the token bucket `client_send_pacer`, over any congestion controller. Each
-- method reads the steady clock once; that reading is its argument `now`. The virtual base class
-- is the set of these methods. `uint64_t` differences are only taken of a later reading and an
-- earlier one.
pub mod Bucket
pub mod Wait
pub mod Rate
pub mod Tests
use win_udpsharded_echo.Prelude.{ℕ, ◌-◌, List, [], ◌∷◌, Bool, true, ◌&&◌, not, ltb, if◌then◌else◌}
use win_udpsharded_echo.Float.{Double, std_max, std_min, nought, one}
use win_udpsharded_echo.Cc.{Controller}

pub record Pacer (F C : Type 0) : Type 0 where
  pub rate_pps : F
  pub unlimited : Bool
  pub capacity : F
  pub tokens : F
  pub last_refill_ns : ℕ
  pub cc : C

-- The burst window is 5 ms.
abbrev pub capacity_for : {F : Type 0} ⦃d : Double F⦄ → F → F
capacity_for ⦃d⦄ rate = std_max one (d.mul rate (d.lit 5 3))

module _ {F C : Type 0} ⦃d : Double F⦄ where
  open d use {lt, le, eq, add, sub, mul, div, lit, of_u64, to_u64}

  -- The tokens at a reading: both `refill` and `get_next_send_time_ns` compute this.
  tokens_at : ℕ → Pacer F C → F
  tokens_at now p =
      let delta_s = div (of_u64 (now - p.last_refill_ns)) (lit 1_000_000_000 0) in
      if ltb p.last_refill_ns now
      then std_min p.capacity (add p.tokens (mul p.rate_pps delta_s))
      else p.tokens

  unfoldable pub refill : ℕ → Pacer F C → Pacer F C
  refill now p =
      if ltb p.last_refill_ns now
      then record p {
        tokens = std_min p.capacity (
            add p.tokens
              (mul p.rate_pps (div (of_u64 (now - p.last_refill_ns)) (lit 1_000_000_000 0))));
        last_refill_ns = now;
      }
      else p

  pub get_next_send_time_ns : ℕ → Pacer F C → ℕ
  get_next_send_time_ns now p =
      let tokens_at_now = tokens_at now p in
      let wait_s = div (sub one tokens_at_now) p.rate_pps in
      if p.unlimited
      then 0
      else if le one tokens_at_now
      then 0
      else to_u64 (mul wait_s (lit 1_000_000_000 0))

  pub reset_to_now : ℕ → Pacer F C → Pacer F C
  reset_to_now now p = if p.unlimited then p else record p { tokens = nought; last_refill_ns = now }

  module _ (controller : Controller F C) where
    unfoldable pub new_pacer : ℕ → F → Pacer F C
    new_pacer now pps = record {
      rate_pps = pps;
      unlimited = eq pps nought;
      capacity = capacity_for pps;
      tokens = nought;
      last_refill_ns = now;
      cc = controller.set_initial_rate pps controller.default;
    }

    -- Whether the controller asks for another rate.
    unfoldable pub retargets : Pacer F C → Bool
    retargets p =
        let target = controller.target_rate_pps p.cc in
        lt nought target && not (eq target p.rate_pps)

    unfoldable pub adjust : Pacer F C → Pacer F C
    adjust p =
        let target = controller.target_rate_pps p.cc in
        if retargets p then record p { rate_pps = target; capacity = capacity_for target } else p

    unfoldable pub can_send : ℕ → Pacer F C → Pacer F C × Bool
    can_send now p =
        let q = refill now (adjust p) in
        if p.unlimited then (p, true) else (q, le (sub one (lit 1 12)) q.tokens)

    unfoldable pub record_send : ℕ → ℕ → Pacer F C → Pacer F C
    record_send now seq p =
        let q = refill now p in
        if p.unlimited then p else record q {
          tokens = std_max nought (sub q.tokens one);
          cc = controller.on_send now seq q.cc;
        }

    pub poll : ℕ → Pacer F C → Pacer F C
    poll now p =
        let q = refill now p in
        if p.unlimited then p else record q { cc = controller.on_poll now q.cc }

    -- The time of the acknowledgement is the caller's.
    pub on_ack : ℕ → ℕ → ℕ → Pacer F C → Pacer F C
    on_ack now seq rtt p =
        if p.unlimited then p else record p { cc = controller.on_ack now seq rtt p.cc }

    pub get_target_rate_pps : Pacer F C → F
    get_target_rate_pps p = controller.target_rate_pps p.cc

-- A call of a method that may change the pacer, with the clock's reading.
pub data Call : Type 0 where
  checks : ℕ → Call
  records : ℕ → ℕ → Call
  polls : ℕ → Call
  resets : ℕ → Call
  acks : ℕ → ℕ → ℕ → Call

module _ {F C : Type 0} ⦃d : Double F⦄ (controller : Controller F C) where
  abbrev pub step : Pacer F C → Call → Pacer F C
  step p (checks now) = (can_send controller now p).0
  step p (records now seq) = record_send controller now seq p
  step p (polls now) = poll controller now p
  step p (resets now) = reset_to_now now p
  step p (acks now seq rtt) = on_ack controller now seq rtt p

  pub run : Pacer F C → List Call → Pacer F C
  run p [] = p
  run p (c ∷ cs) = run (step p c) cs
