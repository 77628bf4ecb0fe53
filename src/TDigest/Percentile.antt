-- ===== src/TDigest/Percentile.antt =====
-- `percentile` of common/tdigest.hpp against the rank of a value.
use mathlib.Core.Option.{some-injective}
use mathlib.Core.Path.{subst}
use win_udpsharded_echo.Prelude.{
  ℕ, ◌+◌, ◌^◌, ◌≤◌, ◌<◌, ◌≡◌, refl, sym, ap, ◌∙◌, ◌⊎◌, List, [], ◌∷◌, ◌++◌, true, false, some,
  arith, inl, inr, Bool-cases, All,
}
use win_udpsharded_echo.Float.{Double, nought, one, ◌≼◌}
use win_udpsharded_echo.Float.Laws.{IsIeee, not_le_of_lt, le_of_not_lt}
use win_udpsharded_echo.TDigest.{
  TDigest, walk, walk_all, view, percentile, IsRising, IsAscending, IsSort, is_empty,
}
use win_udpsharded_echo.TDigest.Weight.{Weighs, Holds, Weighs-perm, stored}

module _ {F : Type 0} ⦃d : Double F⦄ (laws : IsIeee F) where
  open laws use {le_trans, refl_of_le, mul_mono, add_exact, mul_frac, lit_lt, le_of_lt}

  walk-rising :
      (target cumulative back : F) (l : List (F × F))
      → back ≼ back
      → IsRising back l
      → back ≼ walk target cumulative back l
  unfolding walk
  walk-rising target cumulative back [] h r = h
  walk-rising target cumulative back ((v, w) ∷ rest) h r =
      let next = d.add cumulative w in
      let num = (refl_of_le back v r.0).1 in
      let ih = walk-rising target next v rest num r.1 in
      ground (arith, le_trans back v (walk target next v rest) r.0 ih)

  walk_mono :
      (t t' cumulative back : F) (l : List (F × F))
      → t ≼ t'
      → back ≼ back
      → IsRising back l
      → walk t cumulative back l ≼ walk t' cumulative back l
  unfolding walk
  walk_mono t t' cumulative back [] h n r = n
  walk_mono t t' cumulative back ((v, w) ∷ rest) h n r =
      let next = d.add cumulative w in
      let num = (refl_of_le back v r.0).1 in
      ground (
        arith,
        le_trans t t' next h,
        num,
        walk-rising t' next v rest num r.1,
        walk_mono t t' next v rest h num r.1,
      )

  -- `v` is the value of the first item of the list at which the weights, from `start` on, reach the
  -- target: the items before it do not.
  pub record IsRank (target : F) (start : ℕ) (l : List (F × F)) (v : F) : Type 0 where
    pub before : List (F × F)
    pub weight : F
    pub after : List (F × F)
    pub below : ℕ
    pub own : ℕ
    pub parts : l ≡ before ++ (v, weight) ∷ after
    pub below_eq : Weighs before below
    pub own_eq : weight ≡ d.lit own 0
    pub reached : target ≼ d.lit (start + below + own) 0
    pub first : (before ≡ []) ⊎ (d.le target (d.lit (start + below) 0) ≡ false)

  IsRank-here :
      (target v w : F) (start k : ℕ) (rest : List (F × F))
      → w ≡ d.lit k 0
      → target ≼ d.lit (start + k) 0
      → IsRank target start ((v, w) ∷ rest) v
  IsRank-here target v w start k rest e h = record {
    before = [];
    weight = w;
    after = rest;
    below = 0;
    own = k;
    parts = refl;
    below_eq = refl;
    own_eq = e;
    reached = subst (λ n. target ≼ d.lit n 0) (omega arith) h;
    first = inl refl;
  }

  -- The index of `first` where nothing stands before.
  below_none :
      (target : F) (start below : ℕ) (before : List (F × F))
      → Weighs before below
      → d.le target (d.lit start 0) ≡ false
      → (before ≡ []) ⊎ (d.le target (d.lit (start + below) 0) ≡ false)
      → d.le target (d.lit (start + below) 0) ≡ false
  below_none target start below [] h miss f =
      subst (λ n. d.le target (d.lit n 0) ≡ false) (omega arith) miss
  below_none target start below (p ∷ before) h miss (inl e) = cc
  below_none target start below (p ∷ before) h miss (inr f) = f

  IsRank-later :
      (target v w u : F) (start k : ℕ) (l : List (F × F))
      → w ≡ d.lit k 0
      → d.le target (d.lit (start + k) 0) ≡ false
      → IsRank target (start + k) l u
      → IsRank target start ((v, w) ∷ l) u
  IsRank-later target v w u start k l e miss r =
      let past = below_none target (start + k) r.below r.before r.below_eq miss r.first in
      record {
        before = (v, w) ∷ r.before;
        weight = r.weight;
        after = r.after;
        below = k + r.below;
        own = r.own;
        parts = ap (λ l'. (v, w) ∷ l') r.parts;
        below_eq = (k, r.below, e, r.below_eq, refl);
        own_eq = r.own_eq;
        reached = subst (λ n. target ≼ d.lit n 0) (omega arith) r.reached;
        first = inr (subst (λ n. d.le target (d.lit n 0) ≡ false) (omega arith) past);
      }

  walk-IsRank :
      (target back v w : F) (start m : ℕ) (rest : List (F × F))
      → Weighs ((v, w) ∷ rest) m
      → start + m ≤ 2 ^ 53
      → target ≼ d.lit (start + m) 0
      → IsRank target start ((v, w) ∷ rest) (walk target (d.lit start 0) back ((v, w) ∷ rest))
  unfolding walk
  walk-IsRank target back v w start m [] (k, r, e, h, t) b reach =
      let all : target ≼ d.lit (start + k) 0 =
        subst (λ n. target ≼ d.lit n 0) (omega arith) reach in
      let here = IsRank-here target v w start k [] e all in
      elim (Bool-cases (d.le target (d.add (d.lit start 0) w))) [
        | inl hit ↦ rw hit here
        | inr miss ↦ rw miss here
      ]
  walk-IsRank target back v w start m ((v', w') ∷ rest) (k, r, e, h, t) b reach =
      let sum : d.add (d.lit start 0) w ≡ d.lit (start + k) 0 =
        ap (d.add (d.lit start 0)) e ∙ add_exact start k (omega arith) in
      let later =
        walk-IsRank target v v' w' (start + k) r rest h (omega arith)
          (subst (λ n. target ≼ d.lit n 0) (omega arith) reach) in
      elim (Bool-cases (d.le target (d.lit (start + k) 0))) [
        | inl hit ↦ rw (sum, hit) (IsRank-here target v w start k ((v', w') ∷ rest) e hit)
        | inr miss ↦
            rw (sum, miss) (IsRank-later target v w _ start k ((v', w') ∷ rest) e miss later)
      ]

  module _ (sort : List (F × F) → List (F × F)) (sorts : IsSort F sort) where
    open sorts use {sort_perm, sort_ascending}

    view-Weighs : (t : TDigest F) (n : ℕ) → Weighs (stored t) n → Weighs (view sort t) n
    unfolding view
    view-Weighs t n h = elim (Bool-cases (is_empty t.buffer)) [
      | inl e ↦ rw e h
      | inr e ↦ rw e (Weighs-perm (sort_perm (stored t)) n h)
    ]

    walk_all-IsRank :
        (target : F) (l : List (F × F)) (n : ℕ)
        → Weighs l n
        → 0 < n
        → n ≤ 2 ^ 53
        → target ≼ d.lit n 0
        → IsRank target 0 l (walk_all target l)
    unfolding walk_all
    walk_all-IsRank target [] n h pos b reach = absurd (omega arith)
    walk_all-IsRank target ((v, w) ∷ rest) n h pos b reach =
        walk-IsRank target v v w 0 n rest h (omega arith)
          (subst (λ k. target ≼ d.lit k 0) (omega arith) reach)

    percentile_eq :
        (q : F) (t : TDigest F) (n : ℕ)
        → nought ≼ q
        → q ≼ one
        → 0 < n
        → n ≤ 2 ^ 53
        → Holds t n
        → percentile sort q t ≡ some (walk_all (d.mul q (d.lit n 0)) (view sort t))
    unfolding percentile
    percentile_eq q t n lo hi pos b h =
        let filled : d.le (d.lit n 0) nought ≡ false =
          not_le_of_lt laws nought (d.lit n 0) (lit_lt 0 n pos b) in
        rw (lo, hi, h.counted, filled)

    -- On a digest of `n` samples, at least one and at most 2^53, every `q` from 0 to 1 has a
    -- percentile: the value of the first item, in the order of the merged view, at which the
    -- cumulative weight reaches q · n.
    pub percentile-IsRank :
        (q : F) (t : TDigest F) (n : ℕ)
        → nought ≼ q
        → q ≼ one
        → 0 < n
        → n ≤ 2 ^ 53
        → Holds t n
        → (v : F) × (percentile sort q t ≡ some v) × IsRank (d.mul q (d.lit n 0)) 0 (view sort t) v
    percentile-IsRank q t n lo hi pos b h =
        let target = d.mul q (d.lit n 0) in
        (
          walk_all target (view sort t),
          percentile_eq q t n lo hi pos b h,
          walk_all-IsRank target (view sort t) n (view-Weighs t n h.kept) pos b
              (mul_frac q n lo hi b).1,
        )

    -- The view is in order: the centroids are, or samples wait in the buffer, in which case the
    -- view is sorted and only has to hold numbers.
    abbrev pub IsOrdered : TDigest F → Type 0
    IsOrdered t =
        ((is_empty t.buffer ≡ true) × IsAscending (stored t))
        ⊎ ((is_empty t.buffer ≡ false) × All (λ p. p.0 ≼ p.0) (stored t))

    view-IsAscending : (t : TDigest F) → IsOrdered t → IsAscending (view sort t)
    unfolding view
    view-IsAscending t (inl (e, a)) = rw e a
    view-IsAscending t (inr (e, a)) = rw e (sort_ascending (stored t) a)

    walk_all_mono :
        (t t' : F) (l : List (F × F)) (n : ℕ)
        → t ≼ t'
        → Weighs l n
        → 0 < n
        → IsAscending l
        → walk_all t l ≼ walk_all t' l
    unfolding walk_all
    walk_all_mono t t' [] n h w pos a = absurd (omega arith)
    walk_all_mono t t' ((v, w) ∷ rest) n h k pos a =
        walk_mono t t' nought v ((v, w) ∷ rest) h a.0 (a.0, a.1)

    -- On a digest of `n` samples, at least one and at most 2^53, whose view is in order, of two `q`
    -- from 0 to 1 the greater has no smaller percentile.
    pub percentile_mono :
        (q q' v v' : F) (t : TDigest F) (n : ℕ)
        → nought ≼ q
        → q ≼ q'
        → q' ≼ one
        → 0 < n
        → n ≤ 2 ^ 53
        → Holds t n
        → IsOrdered t
        → percentile sort q t ≡ some v
        → percentile sort q' t ≡ some v'
        → v ≼ v'
    percentile_mono q q' v v' t n lo le hi pos b h ord e e' =
        let size : nought ≼ d.lit n 0 = le_of_lt _ _ (lit_lt 0 n pos b) in
        let low = mul_frac q n lo (le_trans _ _ _ le hi) b in
        let high = mul_frac q' n (le_trans _ _ _ lo le) hi b in
        let targets : d.mul q (d.lit n 0) ≼ d.mul q' (d.lit n 0) =
          le_of_not_lt laws _ _ (refl_of_le _ _ low.1).0 (refl_of_le _ _ high.1).0
            (mul_mono q q' (d.lit n 0) le size) in
        let first =
          some-injective _ _ (sym (percentile_eq q t n lo (le_trans _ _ _ le hi) pos b h) ∙ e) in
        let second =
          some-injective _ _ (sym (percentile_eq q' t n (le_trans _ _ _ lo le) hi pos b h) ∙ e') in
        rw (← first, ← second)
          (walk_all_mono _ _ (view sort t) n targets (view-Weighs t n h.kept) pos
            (view-IsAscending t ord))
