-- ===== src/Client/Account.antt =====
-- No sample of client/main.cpp is lost between the workers and the overall digest.
use mathlib.Core.Path.{subst}
use win_udpsharded_echo.Prelude.{
  ℕ, zero, suc, ◌+◌, ◌<◌, ◌≤◌, ◌^◌, ◌≡◌, refl, List, [], ◌∷◌, ◌++◌, Option, none, some, arith,
  length, All, Bool-cases, inl, inr,
}
use win_udpsharded_echo.Float.{Double}
use win_udpsharded_echo.Float.Laws.{IsIeee}
use win_udpsharded_echo.TDigest.{TDigest, new_tdigest, add_sample, IsSort}
use win_udpsharded_echo.TDigest.Weight.{Built, made, added, compressed, merged, Holds, Built-Holds}
use win_udpsharded_echo.Client.Digests.{
  Digests, empty_digest, or_empty, post_sample, post_at, post, hand_over, finish, merge_posted,
  merge_tdigest,
}

module _ {F : Type 0} ⦃d : Double F⦄ (laws : IsIeee F) (sort : List (F × F) → List (F × F))
    (sorts : IsSort F sort) where
  open laws use {lit_lt}

  -- What is built from `n` samples; a null pointer from none.
  abbrev pub Made : Option (TDigest F) → ℕ → Type 0
  Made none n = n ≡ 0
  Made (some t) n = Built laws sort sorts t n

  abbrev pub Total : List (Option (TDigest F)) → ℕ → Type 0
  Total [] n = n ≡ 0
  Total (o ∷ os) n = (k : ℕ) × (m : ℕ) × Made o k × Total os m × (n ≡ k + m)

  empty-Built : Built laws sort sorts empty_digest 0
  unfolding new_tdigest
  empty-Built = made (d.lit 100 0) empty_digest (ground (arith, lit_lt 0 100))

  or_empty-Built :
      (o : Option (TDigest F)) (n : ℕ) → Made o n → Built laws sort sorts (or_empty o) n
  or_empty-Built none n e = rw e empty-Built
  or_empty-Built (some t) n b = b

  Total-append :
      (xs ys : List (Option (TDigest F))) (m n : ℕ)
      → Total xs m
      → Total ys n
      → Total (xs ++ ys) (m + n)
  Total-append [] ys m n h g = subst (Total ys) (omega arith) g
  Total-append (o ∷ xs) ys m n (k, j, b, t, e) g =
      (k, j + n, b, Total-append xs ys j n t g, omega arith)

  post_sample-Made :
      (rotate_threshold ns n : ℕ) (o : Option (TDigest F))
      → Made o n
      → let (next, pushed) = post_sample rotate_threshold ns o in
        (k : ℕ) × (m : ℕ) × Made next k × Total pushed m × (suc n ≡ k + m)
  unfolding post_sample
  post_sample-Made rotate_threshold ns n o b =
      let t = add_sample (d.div (d.of_u64 ns) (d.lit 1_000_000 0)) (or_empty o) in
      let one_more = added (d.div (d.of_u64 ns) (d.lit 1_000_000 0)) (or_empty-Built o n b) in
      elim (Bool-cases (d.le (d.of_u64 rotate_threshold) t.total_weight)) [
        | inl e ↦ rw e (0, suc n, refl, (suc n, 0, one_more, refl, omega arith), omega arith)
        | inr e ↦ rw e (suc n, 0, one_more, refl, omega arith)
      ]

  post_at-Total :
      (rotate_threshold ns i n : ℕ) (os : List (Option (TDigest F)))
      → i < length os
      → Total os n
      → let (next, pushed) = post_at rotate_threshold ns i os in
        (k : ℕ) × (m : ℕ) × Total next k × Total pushed m × (suc n ≡ k + m)
  unfolding post_at
  post_at-Total rotate_threshold ns i n [] h t = absurd (omega arith)
  post_at-Total rotate_threshold ns zero n (o ∷ os) h (a, b, f, t, e) =
      let (k, m, x, y, g) = post_sample-Made rotate_threshold ns a o f in
      (k + b, m, (k, b, x, t, refl), y, omega arith)
  post_at-Total rotate_threshold ns (suc i) n (o ∷ os) h (a, b, f, t, e) =
      let (k, m, x, y, g) = post_at-Total rotate_threshold ns i b os (omega arith) t in
      (a + k, m, (a, k, f, x, refl), y, omega arith)

  hand_over-Total :
      (i n : ℕ) (os : List (Option (TDigest F)))
      → Total os n
      → let (next, pushed) = hand_over i os in
        (k : ℕ) × (m : ℕ) × Total next k × Total pushed m × (n ≡ k + m)
  unfolding hand_over
  hand_over-Total i n [] t = (0, 0, refl, refl, omega arith)
  hand_over-Total zero n (o ∷ os) (a, b, f, t, e) =
      (b, a, (0, b, refl, t, omega arith), (a, 0, f, refl, omega arith), omega arith)
  hand_over-Total (suc i) n (o ∷ os) (a, b, f, t, e) =
      let (k, m, x, y, g) = hand_over-Total i b os t in
      (a + k, m, (a, k, f, x, refl), y, omega arith)

  merge_posted-Built :
      (posted : List (Option (TDigest F))) (overall : TDigest F) (m n : ℕ)
      → Built laws sort sorts overall m
      → Total posted n
      → Built laws sort sorts (merge_posted sort overall posted) (m + n)
  unfolding merge_posted
  merge_posted-Built [] overall m n b t = subst (Built laws sort sorts overall) (omega arith) b
  merge_posted-Built (none ∷ posted) overall m n b (k, j, e, t, g) =
      merge_posted-Built posted overall m n b (subst (Total posted) (omega arith) t)
  merge_posted-Built (some x ∷ posted) overall m n b (k, j, c, t, g) =
      subst (Built laws sort sorts (merge_posted sort overall (some x ∷ posted))) (omega arith)
        (merge_posted-Built posted _ (m + k) j (merged b c refl) t)

  -- The samples in the current digests, in those handed over and in the overall one are `n`.
  pub record IsAccounted (s : Digests F) (n : ℕ) : Type 0 where
    pub in_current : ℕ
    pub in_posted : ℕ
    pub in_overall : ℕ
    pub current_made : Total s.current in_current
    pub posted_made : Total s.posted in_posted
    pub overall_built : Built laws sort sorts s.overall in_overall
    pub all_there : n ≡ in_current + in_posted + in_overall

  -- The workers have no digest at first.
  abbrev pub nothing : ℕ → List (Option (TDigest F))
  nothing zero = []
  nothing (suc n) = none ∷ nothing n

  -- What the workers and the merging thread can make of the digests, in any order, from `n` samples.
  pub data Reached : Digests F → ℕ → Type 0 where
    began :
        (workers : ℕ)
        → Reached (record { current = nothing workers; posted = []; overall = empty_digest }) 0
    sampled :
        (rotate_threshold ns i : ℕ) {s : Digests F} {n : ℕ}
        → i < length s.current
        → Reached s n
        → Reached (post rotate_threshold ns i s) (suc n)
    ended : (i : ℕ) {s : Digests F} {n : ℕ} → Reached s n → Reached (finish i s) n
    gathered : {s : Digests F} {n : ℕ} → Reached s n → Reached (merge_tdigest sort s) n

  Total-nothing : (workers : ℕ) → Total (nothing workers) 0
  Total-nothing zero = refl
  Total-nothing (suc n) = (0, 0, refl, Total-nothing n, refl)

  -- Whatever the workers post and hand over, at whatever thresholds, and whenever the digests are
  -- merged, every sample is in just one place: a current digest, one that is handed over, or the
  -- overall digest.
  pub Reached-IsAccounted : {s : Digests F} {n : ℕ} → Reached s n → IsAccounted s n
  unfolding post finish merge_tdigest
  Reached-IsAccounted (began workers) = record {
    in_current = 0;
    in_posted = 0;
    in_overall = 0;
    current_made = Total-nothing workers;
    posted_made = refl;
    overall_built = empty-Built;
    all_there = refl;
  }
  Reached-IsAccounted (sampled rotate_threshold ns i {s} h r) =
      let a = Reached-IsAccounted r in
      let (k, m, x, y, e) =
        post_at-Total rotate_threshold ns i a.in_current s.current h a.current_made in
      record {
        in_current = k;
        in_posted = a.in_posted + m;
        in_overall = a.in_overall;
        current_made = x;
        posted_made = Total-append s.posted _ a.in_posted m a.posted_made y;
        overall_built = a.overall_built;
        all_there = omega (arith, a.all_there);
      }
  Reached-IsAccounted (ended i {s} r) =
      let a = Reached-IsAccounted r in
      let (k, m, x, y, e) = hand_over-Total i a.in_current s.current a.current_made in
      record {
        in_current = k;
        in_posted = a.in_posted + m;
        in_overall = a.in_overall;
        current_made = x;
        posted_made = Total-append s.posted _ a.in_posted m a.posted_made y;
        overall_built = a.overall_built;
        all_there = omega (arith, a.all_there);
      }
  Reached-IsAccounted (gathered {s} r) =
      let a = Reached-IsAccounted r in
      record {
        in_current = a.in_current;
        in_posted = 0;
        in_overall = a.in_overall + a.in_posted;
        current_made = a.current_made;
        posted_made = refl;
        overall_built = compressed (
            merge_posted-Built s.posted s.overall a.in_overall a.in_posted a.overall_built
              a.posted_made);
        all_there = omega (arith, a.all_there);
      }

  Total-none :
      (os : List (Option (TDigest F))) (n : ℕ) → All (λ o. o ≡ none) os → Total os n → n ≡ 0
  Total-none [] n h e = e
  Total-none (o ∷ os) n (g, h) (k, m, b, t, e) =
      let zero_k : k ≡ 0 = subst (λ x. Made x k) g b in omega (arith, zero_k, Total-none os m h t)

  -- After the last merge, when every worker has handed its digest over, the counter of the overall
  -- digest is exactly the number of samples, of up to 2^53, that the workers took.
  pub Reached-drained :
      {s : Digests F} {n : ℕ}
      → Reached s n
      → n ≤ 2 ^ 53
      → All (λ o. o ≡ none) s.current
      → s.posted ≡ []
      → Holds s.overall n
  Reached-drained {s} {n} r b idle empty =
      let a = Reached-IsAccounted r in
      let zero_c = Total-none s.current a.in_current idle a.current_made in
      let zero_p : a.in_posted ≡ 0 = subst (λ l. Total l a.in_posted) empty a.posted_made in
      subst (Holds s.overall) (omega (arith, a.all_there))
        (Built-Holds laws sort sorts a.overall_built (omega (arith, a.all_there)))
