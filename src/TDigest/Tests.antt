-- ===== src/TDigest/Tests.antt =====
-- Runs of common/tdigest.hpp in fixed point with an insertion sort, and the theorems at concrete
-- inputs.
use win_udpsharded_echo.Prelude.{ℕ, ◌≡◌, refl, [], ◌∷◌, ◌++◌, none, some, arith, inr}
use win_udpsharded_echo.Float.{◌≼◌}
use win_udpsharded_echo.Float.Fixed.{Fixed, fixed_double, Fixed-IsIeee}
use win_udpsharded_echo.TDigest.{
  TDigest, new_tdigest, add_sample, points, fold_in, build_from, weight_limit, walk, walk_all,
  compress, merge, view, percentile,
}
use win_udpsharded_echo.TDigest.Sorting.{insertion_sort, insertion_sort-IsSort}
use win_udpsharded_echo.TDigest.Weight.{Holds, Built, made, added, merged, Built-Holds}
use win_udpsharded_echo.TDigest.Compressed.{IsMaximal, merge-IsMaximal}
use win_udpsharded_echo.TDigest.Percentile.{IsRank, percentile-IsRank, percentile_mono}

abbrev whole : ℕ → Fixed
whole n = fixed_double.lit n 0

abbrev fresh : TDigest Fixed
fresh = record { compression = whole 100; buffer = []; centroids = []; total_weight = whole 0 }

-- The samples 9, 2 and 5.
abbrev three : TDigest Fixed
three = record fresh { buffer = whole 9 ∷ whole 2 ∷ whole 5 ∷ []; total_weight = whole 3 }

runs :
    (new_tdigest (whole 100) ≡ some fresh)
    × (new_tdigest (whole 0) ≡ none)
    × (add_sample (whole 5) (add_sample (whole 2) (add_sample (whole 9) fresh)) ≡ three)
    × (percentile insertion_sort (fixed_double.lit 5 1) three ≡ some (whole 5))
    × (percentile insertion_sort (whole 2) three ≡ none)
unfolding new_tdigest add_sample percentile walk_all walk view insertion_sort
runs = (refl, refl, refl, refl, refl)

-- With compression 1 the three samples become one centroid at their mean, up to rounding.
compresses :
    (compress insertion_sort (record three { compression = whole 1 })).centroids
    ≡ record { mean = fixed_double.lit 5_333_333_333_333 12; weight = whole 3 } ∷ []
unfolding compress build_from fold_in insertion_sort
compresses = refl

three-Built : Built Fixed-IsIeee insertion_sort insertion_sort-IsSort three 3
unfolding new_tdigest add_sample
three-Built = added (whole 5) (added (whole 2) (added (whole 9) (made (whole 100) fresh refl)))

Built-Holds_example : Holds (merge insertion_sort three three) 6
Built-Holds_example =
    Built-Holds Fixed-IsIeee insertion_sort insertion_sort-IsSort
      (merged three-Built three-Built refl) (omega arith)

three-Holds : Holds three 3
three-Holds =
    Built-Holds Fixed-IsIeee insertion_sort insertion_sort-IsSort three-Built (omega arith)

merge-IsMaximal_example :
    let joined = points three.buffer ++ points three.buffer in
    IsMaximal
      (weight_limit (whole 100) (insertion_sort joined))
      (merge insertion_sort three three).centroids
merge-IsMaximal_example =
    merge-IsMaximal Fixed-IsIeee insertion_sort three three 3 3 insertion_sort-IsSort (omega arith)
      three-Holds three-Holds

percentile-IsRank_example :
    (v : Fixed) × (percentile insertion_sort (fixed_double.lit 5 1) three ≡ some v)
    × IsRank Fixed-IsIeee
        (fixed_double.mul (fixed_double.lit 5 1) (whole 3))
        0
        (view insertion_sort three)
        v
percentile-IsRank_example =
    percentile-IsRank Fixed-IsIeee insertion_sort insertion_sort-IsSort (fixed_double.lit 5 1) three
      3 refl refl (omega arith) (omega arith) three-Holds

percentile_mono_example : whole 2 ≼ whole 9
unfolding percentile walk_all walk view insertion_sort
percentile_mono_example =
    percentile_mono Fixed-IsIeee insertion_sort insertion_sort-IsSort (fixed_double.lit 1 1)
      (fixed_double.lit 9 1) (whole 2) (whole 9) three 3 refl refl refl (omega arith) (omega arith)
      three-Holds (inr (refl, (refl, (refl, (refl, tt))))) refl refl
