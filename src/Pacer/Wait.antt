-- ===== src/Pacer/Wait.antt =====
-- The answers of common/pacer.hpp to "now?" and "how long?".
use win_udpsharded_echo.Prelude.{ℕ, ◌≡◌, true, false, arith, ◌&&◌, not, if◌then◌else◌}
use win_udpsharded_echo.Float.{Double, one}
use win_udpsharded_echo.Float.Laws.{IsIeee}
use win_udpsharded_echo.Cc.{Controller}
use win_udpsharded_echo.Pacer.{
  Pacer, tokens_at, refill, get_next_send_time_ns, reset_to_now, retargets, adjust, can_send,
  record_send, poll, on_ack, Call, checks, records, polls, resets, acks, step,
}

module _ {F C : Type 0} ⦃d : Double F⦄ where
  -- The look ahead without a change of state is the refill.
  tokens_at-eq-refill : (now : ℕ) (p : Pacer F C) → tokens_at now p ≡ (refill now p).tokens
  unfolding tokens_at refill
  tokens_at-eq-refill now p = ground arith

  module _ (laws : IsIeee F) (controller : Controller F C) where
    open laws use {le_trans, lit_sub_le}

    -- A limited pacer whose controller keeps its rate answers both questions from one bucket, the
    -- tokens that a check at `now` leaves in the state: with a whole token the wait is 0, with less
    -- it is the missing part at the current rate, and a check is never refused at a whole token.
    pub can_send-wait :
        (now : ℕ) (p : Pacer F C)
        → p.unlimited ≡ false
        → retargets controller p ≡ false
        → let (q, sendable) = can_send controller now p in
          (get_next_send_time_ns now p ≡ (
            if d.le one q.tokens
            then 0
            else d.to_u64 (d.mul (d.div (d.sub one q.tokens) p.rate_pps) (d.lit 1_000_000_000 0))))
          × ((d.le one q.tokens && not sendable) ≡ false)
    unfolding can_send get_next_send_time_ns adjust
    can_send-wait now p h e =
        let tokens = (refill now p).tokens in
        ground (
          arith,
          tokens_at-eq-refill now p,
          lit_sub_le 1 1 0 12,
          le_trans (d.sub one (d.lit 1 12)) one tokens,
        )

  module _ (controller : Controller F C) where
    -- A pacer with no limit always lets a packet through at once, and no call changes it.
    pub unlimited_inert :
        (p : Pacer F C) (c : Call) (now : ℕ)
        → p.unlimited ≡ true
        → (step controller p c ≡ p)
          × ((can_send controller now p).1 ≡ true)
          × (get_next_send_time_ns now p ≡ 0)
    unfolding can_send record_send poll on_ack reset_to_now get_next_send_time_ns
    unlimited_inert p (checks now) t h = ground arith
    unlimited_inert p (records now seq) t h = ground arith
    unlimited_inert p (polls now) t h = ground arith
    unlimited_inert p (resets now) t h = ground arith
    unlimited_inert p (acks now seq rtt) t h = ground arith
