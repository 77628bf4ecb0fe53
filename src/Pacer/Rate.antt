-- ===== src/Pacer/Rate.antt =====
-- The rate of common/pacer.hpp follows the controller's target, and so its bounds.
use mathlib.Core.Path.{subst}
use win_udpsharded_echo.Prelude.{
  ℕ, ◌≡◌, sym, Bool, true, false, List, [], ◌∷◌, arith, if◌then◌else◌,
}
use win_udpsharded_echo.Float.{Double, one, ◌≼◌}
use win_udpsharded_echo.Float.Laws.{IsIeee}
use win_udpsharded_echo.Cc.{Controller, Event, sent, acked, polled, notify}
use win_udpsharded_echo.Cc.Reno.{reno_congestion_controller}
use win_udpsharded_echo.Cc.Reno.Window.{
  IsBounded, notify-IsBounded, set_initial_rate-IsBounded, target-bounds,
}
use win_udpsharded_echo.Pacer.{
  Pacer, refill, reset_to_now, new_pacer, retargets, adjust, can_send, record_send, poll, on_ack,
  Call, checks, records, polls, resets, acks, step, run,
}

-- An invariant `P` of the controller under which its targets do not exceed `limit`.
module _ {F C : Type 0} ⦃d : Double F⦄ (controller : Controller F C) (limit : F) (P : C → Type 0)
    (keep : (c : C) (e : Event) → P c → P (notify controller c e))
    (below : (c : C) → P c → d.lt limit (controller.target_rate_pps c) ≡ false) where
  record IsPaced (p : Pacer F C) : Type 0 where
    controlled : P p.cc
    rate_le : d.lt limit p.rate_pps ≡ false

  refill_keeps :
      (now : ℕ) (p : Pacer F C)
      → ((refill now p).cc ≡ p.cc) × ((refill now p).rate_pps ≡ p.rate_pps)
  unfolding refill
  refill_keeps now p = ground arith

  adjust_parts :
      (p : Pacer F C)
      → ((adjust controller p).cc ≡ p.cc)
        × ((adjust controller p).rate_pps
            ≡ (if retargets controller p then controller.target_rate_pps p.cc else p.rate_pps))
  unfolding adjust
  adjust_parts p = ground arith

  P-if : (b : Bool) (c c' : C) → P c → P c' → P (if b then c else c')
  P-if true c c' h h' = h
  P-if false c c' h h' = h'

  can_send_parts :
      (now : ℕ) (p : Pacer F C)
      → let q = (can_send controller now p).0 in
        (q.cc ≡ p.cc)
        × (q.rate_pps ≡ (if p.unlimited then p.rate_pps else (adjust controller p).rate_pps))
  unfolding can_send
  can_send_parts now p = ground (arith, adjust_parts p, refill_keeps now (adjust controller p))

  record_send_parts :
      (now seq : ℕ) (p : Pacer F C)
      → let q = record_send controller now seq p in
        (q.cc ≡ (if p.unlimited then p.cc else controller.on_send now seq p.cc))
        × (q.rate_pps ≡ p.rate_pps)
  unfolding record_send
  record_send_parts now seq p = ground (arith, refill_keeps now p)

  poll_parts :
      (now : ℕ) (p : Pacer F C)
      → let q = poll controller now p in
        (q.cc ≡ (if p.unlimited then p.cc else controller.on_poll now p.cc))
        × (q.rate_pps ≡ p.rate_pps)
  unfolding poll
  poll_parts now p = ground (arith, refill_keeps now p)

  reset_to_now_parts :
      (now : ℕ) (p : Pacer F C)
      → let q = reset_to_now now p in (q.cc ≡ p.cc) × (q.rate_pps ≡ p.rate_pps)
  unfolding reset_to_now
  reset_to_now_parts now p = ground arith

  on_ack_parts :
      (now seq rtt : ℕ) (p : Pacer F C)
      → let q = on_ack controller now seq rtt p in
        (q.cc ≡ (if p.unlimited then p.cc else controller.on_ack now seq rtt p.cc))
        × (q.rate_pps ≡ p.rate_pps)
  unfolding on_ack
  on_ack_parts now seq rtt p = ground arith

  -- A step that takes the controller to `c` and keeps the rate.
  paced :
      (p q : Pacer F C) (c : C)
      → IsPaced p
      → P c
      → (q.cc ≡ (if p.unlimited then p.cc else c)) × (q.rate_pps ≡ p.rate_pps)
      → IsPaced q
  paced p q c i h (e, r) = record {
    controlled = subst P (sym e) (P-if p.unlimited p.cc c i.controlled h);
    rate_le = rw r i.rate_le;
  }

  step-IsPaced : (p : Pacer F C) (c : Call) → IsPaced p → IsPaced (step controller p c)
  step-IsPaced p (checks now) i =
      let parts = can_send_parts now p in
      let target = below p.cc i.controlled in
      record {
        controlled = subst P (sym parts.0) i.controlled;
        rate_le = rw parts.1 (ground (arith, adjust_parts p, target));
      }
  step-IsPaced p (records now seq) i =
      paced p _ _ i (keep p.cc (sent now seq) i.controlled) (record_send_parts now seq p)
  step-IsPaced p (polls now) i =
      paced p _ _ i (keep p.cc (polled now) i.controlled) (poll_parts now p)
  step-IsPaced p (resets now) i =
      let parts = reset_to_now_parts now p in
      record { controlled = subst P (sym parts.0) i.controlled; rate_le = rw parts.1 i.rate_le }
  step-IsPaced p (acks now seq rtt) i =
      paced p _ _ i (keep p.cc (acked now seq rtt) i.controlled) (on_ack_parts now seq rtt p)

  run-IsPaced : (p : Pacer F C) (cs : List Call) → IsPaced p → IsPaced (run controller p cs)
  unfolding run
  run-IsPaced p [] i = i
  run-IsPaced p (c ∷ cs) i = run-IsPaced (step controller p c) cs (step-IsPaced p c i)

module _ {F : Type 0} ⦃d : Double F⦄ (laws : IsIeee F) where
  open laws use {refl_of_le, not_lt_of_le}

  -- A pacer over the Reno controller that was made for at least one packet per second never paces
  -- above that rate, whatever calls are made of it at whatever times.
  pub reno_rate_le :
      (now : ℕ) (pps : F) (cs : List Call)
      → one ≼ pps
      → let start = new_pacer reno_congestion_controller now pps in
        d.lt pps (run reno_congestion_controller start cs).rate_pps ≡ false
  unfolding new_pacer
  reno_rate_le now pps cs h =
      let self : pps ≼ pps = (refl_of_le one pps h).1 in
      (run-IsPaced reno_congestion_controller pps (IsBounded pps) (notify-IsBounded laws pps h)
        (λ s b. (target-bounds laws pps h s b).1) (new_pacer reno_congestion_controller now pps) cs
        (record {
          controlled = set_initial_rate-IsBounded laws pps h;
          rate_le = not_lt_of_le pps pps self;
        })).rate_le
