-- ===== src/Float.antt =====
-- `double` as the code uses it: comparisons, arithmetic, literals and conversions are the operations
-- of an interface, since the language has no floats. `std::min` and `std::max` are the library's
-- definitions over `<`. The children hold the laws of IEEE 754 that the proofs use and a fixed-point
-- type that meets them, on which definitions run.
pub mod Laws
pub mod Fixed
use win_udpsharded_echo.Prelude.{ℕ, ◌≡◌, Bool, true, if◌then◌else◌}

pub record Double (F : Type 0) : Type 0 where
  pub lt : F → F → Bool
  pub le : F → F → Bool
  pub eq : F → F → Bool
  pub add : F → F → F
  pub sub : F → F → F
  pub mul : F → F → F
  pub div : F → F → F
  -- the decimal literal m · 10^-k
  pub lit : ℕ → ℕ → F
  -- `static_cast<double>` of a `uint64_t`, and back
  pub of_u64 : ℕ → F
  pub to_u64 : F → ℕ
  pub nan : F

module _ {F : Type 0} ⦃d : Double F⦄ where
  abbrev pub std_max : F → F → F
  std_max a b = if d.lt a b then b else a

  abbrev pub std_min : F → F → F
  std_min a b = if d.lt b a then b else a

  -- The values 0.0 and 1.0.
  abbrev pub nought : F
  nought = d.lit 0 0

  abbrev pub one : F
  one = d.lit 1 0

infix 4 ◌≼◌ ◌≺◌
abbrev pub ◌≼◌ : {F : Type 0} ⦃d : Double F⦄ → F → F → Type 0
◌≼◌ ⦃d⦄ x y = d.le x y ≡ true

abbrev pub ◌≺◌ : {F : Type 0} ⦃d : Double F⦄ → F → F → Type 0
◌≺◌ ⦃d⦄ x y = d.lt x y ≡ true
