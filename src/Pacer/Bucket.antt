-- ===== src/Pacer/Bucket.antt =====
-- The bucket of common/pacer.hpp: what bounds the tokens.
use native.Mathlib.Decide.{dec_lt}
use win_udpsharded_echo.Prelude.{ℕ, ◌-◌, ◌<◌, ◌≡◌, ◌⊎◌, inl, inr, false, List, [], ◌∷◌, arith}
use win_udpsharded_echo.Float.{Double, nought, one, std_max, ◌≼◌}
use win_udpsharded_echo.Float.Laws.{
  IsIeee, lit_self, le-std_max, std_min-le, std_min_nonneg, le_of_not_lt,
}
use win_udpsharded_echo.Cc.{Controller}
use win_udpsharded_echo.Pacer.{
  Pacer, capacity_for, refill, reset_to_now, new_pacer, retargets, adjust, can_send, record_send,
  poll, on_ack, Call, checks, records, polls, resets, acks, step, run,
}

module _ {F : Type 0} ⦃d : Double F⦄ (laws : IsIeee F) where
  open laws use {
    lit_lt, lit_mono, of_u64-eq-lit, div_nonneg, le_of_lt, le_trans, refl_of_le, sub_le,
  }

  nought_le : (x : F) → one ≼ x → nought ≼ x
  nought_le x h = le_trans nought one x (le_of_lt _ _ (lit_lt 0 1 (omega arith) (omega arith))) h

  -- A token spent from a bucket that is not over its capacity.
  spent-le :
      (tokens capacity : F)
      → nought ≼ tokens
      → tokens ≼ capacity
      → std_max nought (d.sub tokens one) ≼ capacity
  spent-le tokens capacity low high =
      let spent = d.sub tokens one in
      let unit : ◌≼◌ {F = F} nought one = le_of_lt _ _ (lit_lt 0 1 (omega arith) (omega arith)) in
      let down = sub_le tokens one unit in
      ground (
        arith,
        le_trans nought tokens capacity low high,
        le_of_lt nought spent,
        refl_of_le nought spent,
        refl_of_le tokens capacity high,
        le_of_not_lt laws spent tokens,
        le_trans spent tokens capacity,
      )

  elapsed_nonneg : (n : ℕ) → d.lt (d.div (d.of_u64 n) (d.lit 1_000_000_000 0)) nought ≡ false
  elapsed_nonneg n = rw (of_u64-eq-lit n) (
      div_nonneg (d.lit n 0) (d.lit 1_000_000_000 0) (lit_mono 0 n 0 (omega arith))
        (lit_lt 0 1_000_000_000 (omega arith) (omega arith)))

-- At each check either the clock has moved on since the last refill, or the controller keeps its rate.
abbrev pub IsTimely :
    {F C : Type 0} ⦃d : Double F⦄ → Controller F C → Pacer F C → List Call → Type 0
IsTimely controller p [] = Unit {0}
IsTimely controller p (checks now ∷ cs) =
    ((p.last_refill_ns < now) ⊎ (retargets controller p ≡ false))
    × IsTimely controller (step controller p (checks now)) cs
IsTimely controller p (records now seq ∷ cs) =
    IsTimely controller (step controller p (records now seq)) cs
IsTimely controller p (polls now ∷ cs) = IsTimely controller (step controller p (polls now)) cs
IsTimely controller p (resets now ∷ cs) = IsTimely controller (step controller p (resets now)) cs
IsTimely controller p (acks now seq rtt ∷ cs) =
    IsTimely controller (step controller p (acks now seq rtt)) cs

module _ {F C : Type 0} ⦃d : Double F⦄ where
  -- There is no debt, the burst is limited, and the limit is at least one packet.
  pub record IsFilled (p : Pacer F C) : Type 0 where
    pub no_debt : nought ≼ p.tokens
    pub no_excess : p.tokens ≼ p.capacity
    pub room : one ≼ p.capacity
    pub rate_ge : nought ≼ p.rate_pps

  module _ (laws : IsIeee F) where
    open laws use {refl_of_le, le_of_lt, mul_nonneg, add_nonneg}

    refill_still : (now : ℕ) (p : Pacer F C) → ¬ (p.last_refill_ns < now) → refill now p ≡ p
    unfolding refill
    refill_still now p h = ground arith

    -- After a refill that the clock lets through, no excess is left even if there was one.
    refill_clears :
        (now : ℕ) (p : Pacer F C)
        → p.last_refill_ns < now
        → nought ≼ p.tokens
        → one ≼ p.capacity
        → nought ≼ p.rate_pps
        → IsFilled (refill now p)
    unfolding refill
    refill_clears now p h t c r =
        let self : p.capacity ≼ p.capacity = (refl_of_le one p.capacity c).1 in
        let zero_le : nought ≼ p.capacity = nought_le laws p.capacity c in
        let gain =
          d.mul p.rate_pps (d.div (d.of_u64 (now - p.last_refill_ns)) (d.lit 1_000_000_000 0)) in
        let sum = d.add p.tokens gain in
        let gained : d.lt gain nought ≡ false =
          mul_nonneg p.rate_pps _ r (elapsed_nonneg laws (now - p.last_refill_ns)) in
        let low = std_min_nonneg laws p.capacity sum zero_le (add_nonneg p.tokens gain t gained) in
        let high = std_min-le laws p.capacity sum self in ground (arith, low, high)

    refill-IsFilled : (now : ℕ) (p : Pacer F C) → IsFilled p → IsFilled (refill now p)
    refill-IsFilled now p f = elim (dec_lt p.last_refill_ns now) [
      | yes h ↦ refill_clears now p h f.no_debt f.room f.rate_ge
      | no h ↦ rw (refill_still now p h) f
    ]

    module _ (controller : Controller F C) where
      adjust-room :
          (p : Pacer F C)
          → IsFilled p
          → (nought ≼ (adjust controller p).tokens)
            × (one ≼ (adjust controller p).capacity)
            × (nought ≼ (adjust controller p).rate_pps)
      unfolding adjust retargets
      adjust-room p f =
          let target = controller.target_rate_pps p.cc in
          let wide = le-std_max laws one (d.mul target (d.lit 5 3)) (lit_self laws 1 0) in
          ground (arith, wide, le_of_lt nought target)

      adjust_keeps : (p : Pacer F C) → (adjust controller p).last_refill_ns ≡ p.last_refill_ns
      unfolding adjust
      adjust_keeps p = ground arith

      adjust_steady : (p : Pacer F C) → retargets controller p ≡ false → adjust controller p ≡ p
      unfolding adjust
      adjust_steady p e = ground arith

      adjusted-IsFilled :
          (now : ℕ) (p : Pacer F C)
          → (p.last_refill_ns < now) ⊎ (retargets controller p ≡ false)
          → IsFilled p
          → IsFilled (refill now (adjust controller p))
      adjusted-IsFilled now p (inl h) f =
          let r = adjust-room p f in
          refill_clears now (adjust controller p) (omega (arith, adjust_keeps p)) r.0 r.1 r.2
      adjusted-IsFilled now p (inr e) f = rw (adjust_steady p e) (refill-IsFilled now p f)

      can_send-IsFilled :
          (now : ℕ) (p : Pacer F C)
          → (p.last_refill_ns < now) ⊎ (retargets controller p ≡ false)
          → IsFilled p
          → IsFilled (can_send controller now p).0
      unfolding can_send
      can_send-IsFilled now p timely f =
          let q : IsFilled (refill now (adjust controller p)) = adjusted-IsFilled now p timely f in
          ground (arith, q)

      record_send-IsFilled :
          (now seq : ℕ) (p : Pacer F C) → IsFilled p → IsFilled (record_send controller now seq p)
      unfolding record_send
      record_send-IsFilled now seq p f =
          let g = refill-IsFilled now p f in
          let spent = d.sub (refill now p).tokens one in
          let low = le-std_max laws nought spent (lit_self laws 0 0) in
          let high =
            spent-le laws (refill now p).tokens (refill now p).capacity g.no_debt g.no_excess in
          ground (arith, g, low, high)

      poll-IsFilled : (now : ℕ) (p : Pacer F C) → IsFilled p → IsFilled (poll controller now p)
      unfolding poll
      poll-IsFilled now p f = let g = refill-IsFilled now p f in ground (arith, g)

      reset_to_now-IsFilled : (now : ℕ) (p : Pacer F C) → IsFilled p → IsFilled (reset_to_now now p)
      unfolding reset_to_now
      reset_to_now-IsFilled now p f =
          let zero_le : nought ≼ p.capacity = nought_le laws p.capacity f.room in
          ground (arith, lit_self laws 0 0)

      on_ack-IsFilled :
          (now seq rtt : ℕ) (p : Pacer F C)
          → IsFilled p
          → IsFilled (on_ack controller now seq rtt p)
      unfolding on_ack
      on_ack-IsFilled now seq rtt p f = ground arith

      new_pacer-IsFilled :
          (now : ℕ) (pps : F) → nought ≼ pps → IsFilled (new_pacer controller now pps)
      unfolding new_pacer
      new_pacer-IsFilled now pps h =
          let room : one ≼ capacity_for pps =
            le-std_max laws one (d.mul pps (d.lit 5 3)) (lit_self laws 1 0) in
          record {
            no_debt = lit_self laws 0 0;
            no_excess = nought_le laws _ room;
            room = room;
            rate_ge = h;
          }

      run-IsFilled_from :
          (p : Pacer F C) (cs : List Call)
          → IsTimely controller p cs
          → IsFilled p
          → IsFilled (run controller p cs)
      unfolding run
      run-IsFilled_from p [] t f = f
      run-IsFilled_from p (checks now ∷ cs) t f =
          run-IsFilled_from (step controller p (checks now)) cs t.1 (can_send-IsFilled now p t.0 f)
      run-IsFilled_from p (records now seq ∷ cs) t f =
          run-IsFilled_from (step controller p (records now seq)) cs t
            (record_send-IsFilled now seq p f)
      run-IsFilled_from p (polls now ∷ cs) t f =
          run-IsFilled_from (step controller p (polls now)) cs t (poll-IsFilled now p f)
      run-IsFilled_from p (resets now ∷ cs) t f =
          run-IsFilled_from (step controller p (resets now)) cs t (reset_to_now-IsFilled now p f)
      run-IsFilled_from p (acks now seq rtt ∷ cs) t f =
          run-IsFilled_from (step controller p (acks now seq rtt)) cs t
            (on_ack-IsFilled now seq rtt p f)

      -- Over any controller, a pacer that is made for a rate that is not negative, and whose clock
      -- has moved on at each check that changes the rate, never goes into debt and never holds more
      -- tokens than its capacity, which allows at least one packet, whatever calls are made of it.
      pub run-IsFilled :
          (now : ℕ) (pps : F) (cs : List Call)
          → nought ≼ pps
          → IsTimely controller (new_pacer controller now pps) cs
          → IsFilled (run controller (new_pacer controller now pps) cs)
      run-IsFilled now pps cs h t = run-IsFilled_from _ cs t (new_pacer-IsFilled now pps h)
