-- ===== src/TDigest/Quantiles.antt =====
-- When `percentile` of common/tdigest.hpp gives a value, and what an empty digest gives.
use win_udpsharded_echo.Prelude.{◌≡◌, refl, List, true, some, Bool-cases, inl, inr}
use win_udpsharded_echo.Float.{Double, nought, one, ◌≼◌}
use win_udpsharded_echo.TDigest.{TDigest, walk_all, view, percentile}

module _ {F : Type 0} ⦃d : Double F⦄ (sort : List (F × F) → List (F × F)) where
  open d use {nan}

  -- For every `q` from 0 to 1 there is a value.
  pub percentile-some :
      (q : F) (t : TDigest F) → nought ≼ q → q ≼ one → (v : F) × (percentile sort q t ≡ some v)
  unfolding percentile
  percentile-some q t a b = elim (Bool-cases (d.le t.total_weight nought)) [
    | inl h ↦ (nan, rw (a, b, h) refl)
    | inr h ↦ (walk_all (d.mul q t.total_weight) (view sort t), rw (a, b, h) refl)
  ]

  -- In a digest without samples it is NaN.
  pub percentile-empty :
      (q : F) (t : TDigest F)
      → nought ≼ q
      → q ≼ one
      → d.le t.total_weight nought ≡ true
      → percentile sort q t ≡ some nan
  unfolding percentile
  percentile-empty q t a b h = rw (a, b, h) refl
