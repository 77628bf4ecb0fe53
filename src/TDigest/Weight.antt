-- ===== src/TDigest/Weight.antt =====
-- common/tdigest.hpp loses no sample: the weights that are stored add up to the number of samples.
use mathlib.Core.List.{Permᴰ, append-nil, append_assoc, map-append}
use mathlib.Core.List.Permᴰ
use mathlib.Core.Path.{subst, ap₂}
use win_udpsharded_echo.Prelude.{
  ℕ, ◌+◌, ◌^◌, ◌≤◌, ◌≡◌, refl, sym, ap, ◌∙◌, List, [], ◌∷◌, ◌++◌, suc, ◌&&◌, some, arith, inl, inr,
  Bool-cases, length,
}
use win_udpsharded_echo.Float.{Double, one}
use win_udpsharded_echo.Float.Laws.{IsIeee}
use win_udpsharded_echo.TDigest.{
  TDigest, is_empty, new_tdigest, add_sample, points, weighted, fold_in, build_from, compress,
  merge, reset, IsSort,
}

-- The weights are whole numbers, `n` in all.
abbrev pub Weighs : {F : Type 0} ⦃d : Double F⦄ → List (F × F) → ℕ → Type 0
Weighs [] n = n ≡ 0
Weighs ⦃d⦄ ((v, w) ∷ rest) n = (k : ℕ) × (m : ℕ) × (w ≡ d.lit k 0) × Weighs rest m × (n ≡ k + m)

module _ {F : Type 0} ⦃d : Double F⦄ where
  pub Weighs-perm : {xs ys : List (F × F)} → Permᴰ xs ys → (n : ℕ) → Weighs xs n → Weighs ys n
  Weighs-perm Permᴰ.nil n h = h
  Weighs-perm (Permᴰ.cons e p) n (k, m, w, h, t) =
      (k, m, ap (λ q. q.1) (sym e) ∙ w, Weighs-perm p m h, t)
  Weighs-perm (Permᴰ.swap e f) n (k, m, w, (k', m', w', h', t'), t) = (
    k',
    k + m',
    ap (λ q. q.1) (sym f) ∙ w',
    (k, m', ap (λ q. q.1) (sym e) ∙ w, h', refl),
    omega arith,
  )
  Weighs-perm (Permᴰ.trans p q) n h = Weighs-perm q n (Weighs-perm p n h)

  pub Weighs-append :
      (xs ys : List (F × F)) (m n : ℕ) → Weighs xs m → Weighs ys n → Weighs (xs ++ ys) (m + n)
  Weighs-append [] ys m n h g = subst (Weighs ys) (omega arith) g
  Weighs-append ((v, w) ∷ xs) ys m n (k, r, e, h, t) g =
      (k, r + n, e, Weighs-append xs ys r n h g, omega arith)

  -- Each buffered sample weighs one.
  Weighs-points : (xs : List F) → Weighs (points xs) (length xs)
  Weighs-points [] = refl
  Weighs-points (x ∷ xs) = (1, length xs, refl, Weighs-points xs, omega arith)

  -- The buffer and the centroids together, in the order of `percentile`.
  abbrev pub stored : TDigest F → List (F × F)
  stored t = weighted t.centroids ++ points t.buffer

  -- The digest accounts for `n` samples: in the counter and in what is stored.
  pub record Holds (t : TDigest F) (n : ℕ) : Type 0 where
    pub counted : t.total_weight ≡ d.lit n 0
    pub kept : Weighs (stored t) n

  module _ (laws : IsIeee F) where
    open laws use {add_exact}

    fold_in-Weighs :
        (limit mean weight : F) (rest : List (F × F)) (k m : ℕ)
        → weight ≡ d.lit k 0
        → Weighs rest m
        → k + m ≤ 2 ^ 53
        → Weighs (weighted (fold_in limit mean weight rest)) (k + m)
    unfolding fold_in
    fold_in-Weighs limit mean weight [] k m e h b = (k, 0, e, refl, omega arith)
    fold_in-Weighs limit mean weight ((v, w) ∷ rest) k m e (j, r, we, h, t) b =
        elim (Bool-cases (d.le (d.add weight w) limit)) [
          | inl fits ↦
              let sum : d.add weight w ≡ d.lit (k + j) 0 =
                ap₂ d.add e we ∙ add_exact k j (omega arith) in
              let mean' = d.div (d.add (d.mul mean weight) (d.mul v w)) (d.add weight w) in
              let ih =
                fold_in-Weighs limit mean' (d.add weight w) rest (k + j) r sum h (omega arith) in
              rw (fits, fold_in)
                (subst (Weighs (weighted (fold_in limit mean' (d.add weight w) rest))) (omega arith)
                  ih)
          | inr full ↦
              rw (full, fold_in)
                (k, j + r, e, fold_in-Weighs limit v w rest j r we h (omega arith), omega arith)
        ]

    build_from-Weighs :
        (compression : F) (merged : List (F × F)) (n : ℕ)
        → Weighs merged n
        → n ≤ 2 ^ 53
        → Weighs (weighted (build_from compression merged)) n
    unfolding build_from
    build_from-Weighs compression [] n h b = h
    build_from-Weighs compression ((v, w) ∷ rest) n (k, m, e, h, t) b =
        subst (Weighs (weighted (build_from compression ((v, w) ∷ rest)))) (sym t)
          (fold_in-Weighs _ v w rest k m e h (omega arith))

    -- What holds of every digest that the operations can make from samples.
    module _ (sort : List (F × F) → List (F × F)) (sorts : IsSort F sort) where
      open sorts use {sort_perm}

      rebuilt :
          (compression : F) (merged : List (F × F)) (n : ℕ)
          → Weighs merged n
          → n ≤ 2 ^ 53
          → Weighs (weighted (build_from compression (sort merged)) ++ []) n
      rebuilt compression merged n h b =
          rw append-nil
            (build_from-Weighs compression (sort merged) n (Weighs-perm (sort_perm merged) n h) b)

      compress-Holds : (t : TDigest F) (n : ℕ) → n ≤ 2 ^ 53 → Holds t n → Holds (compress sort t) n
      unfolding compress
      compress-Holds t n b h =
          let merged = points t.buffer ++ weighted t.centroids in
          let kept : Weighs merged n =
            Weighs-perm (Permᴰ.append_comm (weighted t.centroids) (points t.buffer)) n h.kept in
          elim (Bool-cases (is_empty t.buffer && is_empty t.centroids)) [
            | inl e ↦ rw e h
            | inr e ↦
                rw e (record { counted = h.counted; kept = rebuilt t.compression merged n kept b })
          ]

      merge-Holds :
          (t other : TDigest F) (m n : ℕ)
          → m + n ≤ 2 ^ 53
          → Holds t m
          → Holds other n
          → Holds (merge sort t other) (m + n)
      unfolding merge
      merge-Holds t other m n b h g = record {
        counted = ap₂ d.add h.counted g.counted ∙ add_exact m n b;
        kept =
            rebuilt t.compression _ (m + n)
              (rw (← append_assoc (weighted t.centroids) (points t.buffer) (stored other))
                (Weighs-append (stored t) (stored other) m n h.kept g.kept))
              b;
      }

      add_sample-Holds :
          (x : F) (t : TDigest F) (n : ℕ)
          → n + 1 ≤ 2 ^ 53
          → Holds t n
          → Holds (add_sample x t) (n + 1)
      unfolding add_sample
      add_sample-Holds x t n b h = record {
        counted = ap (λ w. d.add w one) h.counted ∙ add_exact n 1 b;
        kept =
            rw
              (
                map-append {B = F × F} (λ v. (v, one)) t.buffer (x ∷ []),
                ← append_assoc (weighted t.centroids) (points t.buffer) ((x, one) ∷ []),
              )
              (Weighs-append (stored t) ((x, one) ∷ []) n 1 h.kept (1, 0, refl, refl, omega arith));
      }

      -- A digest made by the operations, with the number of samples that went into it.
      pub data Built : TDigest F → ℕ → Type 0 where
        made : (c : F) (t : TDigest F) → new_tdigest c ≡ some t → Built t 0
        added : (x : F) {t : TDigest F} {n : ℕ} → Built t n → Built (add_sample x t) (suc n)
        compressed : {t : TDigest F} {n : ℕ} → Built t n → Built (compress sort t) n
        merged :
            {t other : TDigest F} {m n s : ℕ}
            → Built t m
            → Built other n
            → s ≡ m + n
            → Built (merge sort t other) s
        emptied : {t : TDigest F} {n : ℕ} → Built t n → Built (reset t) 0

      -- However samples are added, compressed and merged from digest to digest, as long as there
      -- are at most 2^53, the counter is exactly their number and the weights that are stored are
      -- whole numbers that add up to it.
      pub Built-Holds : {t : TDigest F} {n : ℕ} → Built t n → n ≤ 2 ^ 53 → Holds t n
      unfolding new_tdigest reset
      Built-Holds (made c t e) b = ground arith
      Built-Holds (added x {t} {n} h) b =
          subst (Holds (add_sample x t)) (omega arith)
            (add_sample-Holds x t n (omega arith) (Built-Holds h (omega arith)))
      Built-Holds (compressed {t} {n} h) b = compress-Holds t n b (Built-Holds h b)
      Built-Holds (merged {t} {other} {m} {n} h g e) b = rw e (
          merge-Holds t other m n (omega arith) (Built-Holds h (omega arith))
            (Built-Holds g (omega arith)))
      Built-Holds (emptied h) b = record { counted = refl; kept = refl }
