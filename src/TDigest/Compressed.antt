-- ===== src/TDigest/Compressed.antt =====
-- What a compression in common/tdigest.hpp leaves: as few centroids as its limit lets it.
use mathlib.Core.List.{append_assoc}
use mathlib.Core.Path.{ap₂, subst}
use win_udpsharded_echo.Prelude.{
  ℕ, ◌+◌, ◌^◌, ◌≤◌, ◌≡◌, refl, sym, ◌∙◌, List, [], ◌∷◌, ◌++◌, false, arith, inl, inr, Bool-cases,
}
use win_udpsharded_echo.Float.{Double, ◌≼◌}
use win_udpsharded_echo.Float.Laws.{IsIeee}
use win_udpsharded_echo.TDigest.{
  TDigest, Centroid, points, weighted, fold_in, build_from, weight_limit, merge, IsSort,
}
use win_udpsharded_echo.TDigest.Weight.{Weighs, Holds, Weighs-perm, Weighs-append, stored}

module _ {F : Type 0} ⦃d : Double F⦄ where
  -- Two neighbours together always exceed the limit.
  abbrev pub IsMaximal : F → List (Centroid F) → Type 0
  IsMaximal limit [] = Unit {0}
  IsMaximal limit (a ∷ []) = Unit {0}
  IsMaximal limit (a ∷ b ∷ rest) =
      (d.le (d.add a.weight b.weight) limit ≡ false) × IsMaximal limit (b ∷ rest)

  IsMaximal-cons :
      (limit : F) (a : Centroid F) (l : List (Centroid F)) (c : Centroid F) (cs : List (Centroid F))
      → l ≡ c ∷ cs
      → d.le (d.add a.weight c.weight) limit ≡ false
      → IsMaximal limit l
      → IsMaximal limit (a ∷ l)
  IsMaximal-cons limit a l c cs e h =
      subst (λ l'. IsMaximal limit l' → IsMaximal limit (a ∷ l')) (sym e) (λ m. (h, m))

  module _ (laws : IsIeee F) where
    open laws use {add_exact, lit_mono, le_trans}

    -- The first centroid of a run of the loop weighs at least what it started with.
    fold_in-head :
        (limit mean weight : F) (rest : List (F × F)) (k m : ℕ)
        → weight ≡ d.lit k 0
        → Weighs rest m
        → k + m ≤ 2 ^ 53
        → (c : Centroid F) × (cs : List (Centroid F)) × (j : ℕ) × (fold_in limit mean weight rest
            ≡ c ∷ cs)
          × (c.weight ≡ d.lit j 0)
          × (k ≤ j)
          × (j ≤ k + m)
    unfolding fold_in
    fold_in-head limit mean weight [] k m e h b =
        (record { mean = mean; weight = weight }, [], k, refl, e, omega arith, omega arith)
    fold_in-head limit mean weight ((v, w) ∷ rest) k m e (j, r, we, h, t) b =
        elim (Bool-cases (d.le (d.add weight w) limit)) [
          | inl fits ↦
              let sum : d.add weight w ≡ d.lit (k + j) 0 =
                ap₂ d.add e we ∙ add_exact k j (omega arith) in
              let mean' = d.div (d.add (d.mul mean weight) (d.mul v w)) (d.add weight w) in
              let (c, cs, i, eq, ce, lo, hi) =
                fold_in-head limit mean' (d.add weight w) rest (k + j) r sum h (omega arith) in
              (c, cs, i, rw (fits, fold_in) eq, ce, omega arith, omega arith)
          | inr full ↦ (
            record { mean = mean; weight = weight },
            fold_in limit v w rest,
            k,
            rw (full, fold_in),
            e,
            omega arith,
            omega arith,
          )
        ]

    -- What does not fit with a weight does not fit with a heavier one.
    heavier :
        (limit a b c : F) (k j i : ℕ)
        → a ≡ d.lit k 0
        → b ≡ d.lit j 0
        → c ≡ d.lit i 0
        → j ≤ i
        → k + i ≤ 2 ^ 53
        → d.le (d.add a b) limit ≡ false
        → d.le (d.add a c) limit ≡ false
    heavier limit a b c k j i ea eb ec h bound full =
        let small : d.add a b ≡ d.lit (k + j) 0 = ap₂ d.add ea eb ∙ add_exact k j (omega arith) in
        let large : d.add a c ≡ d.lit (k + i) 0 = ap₂ d.add ea ec ∙ add_exact k i bound in
        let up : d.add a b ≼ d.add a c =
          rw (small, large) (lit_mono (k + j) (k + i) 0 (omega arith)) in
        ground (arith, le_trans (d.add a b) (d.add a c) limit up)

    fold_in-IsMaximal :
        (limit mean weight : F) (rest : List (F × F)) (k m : ℕ)
        → weight ≡ d.lit k 0
        → Weighs rest m
        → k + m ≤ 2 ^ 53
        → IsMaximal limit (fold_in limit mean weight rest)
    unfolding fold_in
    fold_in-IsMaximal limit mean weight [] k m e h b = tt
    fold_in-IsMaximal limit mean weight ((v, w) ∷ rest) k m e (j, r, we, h, t) b =
        elim (Bool-cases (d.le (d.add weight w) limit)) [
          | inl fits ↦
              let sum : d.add weight w ≡ d.lit (k + j) 0 =
                ap₂ d.add e we ∙ add_exact k j (omega arith) in
              let mean' = d.div (d.add (d.mul mean weight) (d.mul v w)) (d.add weight w) in
              rw (fits, fold_in)
                (fold_in-IsMaximal limit mean' (d.add weight w) rest (k + j) r sum h (omega arith))
          | inr full ↦
              let ih = fold_in-IsMaximal limit v w rest j r we h (omega arith) in
              let (c, cs, i, eq, ce, lo, hi) = fold_in-head limit v w rest j r we h (omega arith) in
              let apart : d.le (d.add weight c.weight) limit ≡ false =
                heavier limit weight w c.weight k j i e we ce lo (omega arith) full in
              rw (full, fold_in)
                (IsMaximal-cons limit (record { mean = mean; weight = weight }) _ c cs eq apart ih)
        ]

    build_from-IsMaximal :
        (compression : F) (merged : List (F × F)) (n : ℕ)
        → Weighs merged n
        → n ≤ 2 ^ 53
        → IsMaximal (weight_limit compression merged) (build_from compression merged)
    unfolding build_from
    build_from-IsMaximal compression [] n h b = tt
    build_from-IsMaximal compression ((v, w) ∷ rest) n (k, m, e, h, t) b =
        fold_in-IsMaximal _ v w rest k m e h (omega arith)

    -- A merge of two digests that hold at most 2^53 samples leaves no two neighbouring centroids that
    -- the weight limit, the greater of 1 and 4 · total / compression, would have let be one.
    pub merge-IsMaximal :
        (sort : List (F × F) → List (F × F)) (t other : TDigest F) (m n : ℕ)
        → IsSort F sort
        → m + n ≤ 2 ^ 53
        → Holds t m
        → Holds other n
        → let joined =
            weighted t.centroids
            ++ (points t.buffer ++ (weighted other.centroids ++ points other.buffer)) in
          IsMaximal (weight_limit t.compression (sort joined)) (merge sort t other).centroids
    unfolding merge
    merge-IsMaximal sort t other m n sorts b h g =
        build_from-IsMaximal t.compression _ (m + n)
          (Weighs-perm (sorts.sort_perm _) (m + n) (
            rw (← append_assoc (weighted t.centroids) (points t.buffer) (stored other))
              (Weighs-append (stored t) (stored other) m n h.kept g.kept)))
          b
