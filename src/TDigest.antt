-- ===== src/TDigest.antt =====
-- common/tdigest.hpp: the mergeable percentile estimator. `std::sort` by `first` is a parameter,
-- since its result is not determined where values are equal; `IsSort` is what the standard says of
-- it. An exception of type `std::invalid_argument` is `none`.
pub mod Weight
pub mod Compressed
pub mod Percentile
pub mod Quantiles
pub mod Sorting
pub mod Tests
use mathlib.Core.List.{Permᴰ, foldl}
use win_udpsharded_echo.Prelude.{
  ℕ, ◌≡◌, List, [], ◌∷◌, ◌++◌, map, Bool, true, false, ◌&&◌, not, Option, none, some, if◌then◌else◌,
  All,
}
use win_udpsharded_echo.Float.{Double, std_max, nought, one, ◌≼◌}

pub record Centroid (F : Type 0) : Type 0 where
  pub mean : F
  pub weight : F

pub record TDigest (F : Type 0) : Type 0 where
  pub compression : F
  pub buffer : List F
  pub centroids : List (Centroid F)
  pub total_weight : F

abbrev is_empty {ℓ} : {A : Type ℓ} → List A → Bool
is_empty [] = true
is_empty (_ ∷ _) = false

module _ {F : Type 0} ⦃d : Double F⦄ where
  open d use {lt, le, add, mul, div, lit, nan}

  -- The constructor refuses a compression that is not positive, NaN included.
  unfoldable pub new_tdigest : F → Option (TDigest F)
  new_tdigest compression =
      if not (lt nought compression)
      then none
      else some
          (record { compression = compression; buffer = []; centroids = []; total_weight = nought })

  pub add_sample : F → TDigest F → TDigest F
  add_sample x t = record t { buffer = t.buffer ++ x ∷ []; total_weight = add t.total_weight one }

  -- The two `std::transform` calls: samples and centroids as (value, weight).
  abbrev pub points : List F → List (F × F)
  points = map (λ v. (v, one))

  abbrev pub weighted : List (Centroid F) → List (F × F)
  weighted = map (λ c. (c.mean, c.weight))

  -- The loop of `build_from` over `merged[1..]`, and the last `push_back`.
  fold_in : F → F → F → List (F × F) → List (Centroid F)
  fold_in limit mean weight [] = record { mean = mean; weight = weight } ∷ []
  fold_in limit mean weight ((v, w) ∷ rest) = elim (le (add weight w) limit) [
    | true ↦
        fold_in limit (div (add (mul mean weight) (mul v w)) (add weight w)) (add weight w) rest
    | false ↦ record { mean = mean; weight = weight } ∷ fold_in limit v w rest
  ]

  abbrev pub weight_limit : F → List (F × F) → F
  weight_limit compression merged =
      std_max one (div (mul (lit 4 0) (foldl (λ sum p. add sum p.1) nought merged)) compression)

  build_from : F → List (F × F) → List (Centroid F)
  build_from compression [] = []
  build_from compression ((v, w) ∷ rest) =
      fold_in (weight_limit compression ((v, w) ∷ rest)) v w rest

  -- The loop of `percentile`; at the end of the list the last value is the result.
  walk : F → F → F → List (F × F) → F
  walk target cumulative back [] = back
  walk target cumulative back ((v, w) ∷ rest) =
      let later = walk target (add cumulative w) v rest in
      if le target (add cumulative w) then v else later

  walk_all : F → List (F × F) → F
  walk_all target [] = nan
  walk_all target ((v, w) ∷ rest) = walk target nought v ((v, w) ∷ rest)

  pub reset : TDigest F → TDigest F
  reset t = record t { buffer = []; centroids = []; total_weight = nought }

  module _ (sort : List (F × F) → List (F × F)) where
    pub compress : TDigest F → TDigest F
    compress t =
        let merged = points t.buffer ++ weighted t.centroids in
        if is_empty t.buffer && is_empty t.centroids
        then t
        else record t { buffer = []; centroids = build_from t.compression (sort merged) }

    pub merge : TDigest F → TDigest F → TDigest F
    merge t other =
        let merged =
          weighted t.centroids
          ++ (points t.buffer ++ (weighted other.centroids ++ points other.buffer)) in
        record t {
          total_weight = add t.total_weight other.total_weight;
          buffer = [];
          centroids = build_from t.compression (sort merged);
        }

    -- The merged list that `percentile` walks.
    pub view : TDigest F → List (F × F)
    view t =
        let merged = weighted t.centroids ++ points t.buffer in
        if is_empty t.buffer then merged else sort merged

    pub percentile : F → TDigest F → Option F
    percentile q t =
        if not (le nought q && le q one)
        then none
        else if le t.total_weight nought
        then some nan
        else some (walk_all (mul q t.total_weight) (view t))

-- Values that are numbers and do not fall along the list, from `low`.
abbrev pub IsRising : {F : Type 0} ⦃d : Double F⦄ → F → List (F × F) → Type 0
IsRising low [] = Unit {0}
IsRising low ((v, w) ∷ rest) = (low ≼ v) × IsRising v rest

-- Values that are numbers and do not fall along the list.
abbrev pub IsAscending : {F : Type 0} ⦃d : Double F⦄ → List (F × F) → Type 0
IsAscending [] = Unit {0}
IsAscending ((v, w) ∷ rest) = (v ≼ v) × IsRising v rest

-- `std::sort` permutes, and orders values that are numbers.
pub record IsSort (F : Type 0) ⦃d : Double F⦄ (sort : List (F × F) → List (F × F)) : Type 0 where
  pub sort_perm : (l : List (F × F)) → Permᴰ l (sort l)
  pub sort_ascending : (l : List (F × F)) → All (λ p. p.0 ≼ p.0) l → IsAscending (sort l)
