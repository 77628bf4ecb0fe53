-- ===== src/Client/Digests.antt =====
-- The digests of client/main.cpp, of round-trip times or of send intervals: each worker has a current
-- one or none, hands a full one over in a list under a lock, and the merging thread takes the list.
use win_udpsharded_echo.Prelude.{
  ℕ, zero, suc, List, [], ◌∷◌, ◌++◌, Option, none, some, if◌then◌else◌,
}
use win_udpsharded_echo.Float.{Double, nought}
use win_udpsharded_echo.TDigest.{TDigest, add_sample, compress, merge}

-- A null `unique_ptr` is `none`: a worker that ends hands over what it has.
pub record Digests (F : Type 0) : Type 0 where
  pub current : List (Option (TDigest F))
  pub posted : List (Option (TDigest F))
  pub overall : TDigest F

module _ {F : Type 0} ⦃d : Double F⦄ where
  open d use {le, div, lit, of_u64}

  -- `TDigest(100.0)`.
  abbrev pub empty_digest : TDigest F
  empty_digest = record {
    compression = lit 100 0;
    buffer = [];
    centroids = [];
    total_weight = nought;
  }

  abbrev pub or_empty : Option (TDigest F) → TDigest F
  or_empty none = empty_digest
  or_empty (some t) = t

  -- `post_rtt` and `post_pacing`: the new current digest, and what is pushed to the list.
  unfoldable pub post_sample :
      ℕ → ℕ → Option (TDigest F) → Option (TDigest F) × List (Option (TDigest F))
  post_sample rotate_threshold ns current =
      let t = add_sample (div (of_u64 ns) (lit 1_000_000 0)) (or_empty current) in
      if le (of_u64 rotate_threshold) t.total_weight then (none, some t ∷ []) else (some t, [])

  -- A sample of worker `i`; the threshold is its share of the packet rate.
  unfoldable pub post_at :
      ℕ → ℕ → ℕ → List (Option (TDigest F)) → List (Option (TDigest F)) × List (Option (TDigest F))
  post_at rotate_threshold ns i [] = ([], [])
  post_at rotate_threshold ns zero (current ∷ others) =
      let (next, pushed) = post_sample rotate_threshold ns current in (next ∷ others, pushed)
  post_at rotate_threshold ns (suc i) (other ∷ others) =
      let (rest, pushed) = post_at rotate_threshold ns i others in (other ∷ rest, pushed)

  unfoldable pub post : ℕ → ℕ → ℕ → Digests F → Digests F
  post rotate_threshold ns i s =
      let (current, pushed) = post_at rotate_threshold ns i s.current in
      record s { current = current; posted = s.posted ++ pushed }

  -- The end of worker `i`: its digest is moved to the list, null or not.
  unfoldable pub hand_over :
      ℕ → List (Option (TDigest F)) → List (Option (TDigest F)) × List (Option (TDigest F))
  hand_over i [] = ([], [])
  hand_over zero (current ∷ others) = (none ∷ others, current ∷ [])
  hand_over (suc i) (other ∷ others) =
      let (rest, pushed) = hand_over i others in (other ∷ rest, pushed)

  unfoldable pub finish : ℕ → Digests F → Digests F
  finish i s =
      let (current, pushed) = hand_over i s.current in
      record s { current = current; posted = s.posted ++ pushed }

  module _ (sort : List (F × F) → List (F × F)) where
    unfoldable pub merge_posted : TDigest F → List (Option (TDigest F)) → TDigest F
    merge_posted overall [] = overall
    merge_posted overall (none ∷ posted) = merge_posted overall posted
    merge_posted overall (some t ∷ posted) = merge_posted (merge sort overall t) posted

    unfoldable pub merge_tdigest : Digests F → Digests F
    merge_tdigest s = record s {
      overall = compress sort (merge_posted s.overall s.posted);
      posted = [];
    }
