-- ===== src/Float/Laws.antt =====
-- Documented behaviour of IEEE 754 doubles under round-to-nearest. NaN is the value that is not
-- `<=` itself; a law that holds with NaN too is stated by a comparison that is false.
use win_udpsharded_echo.Prelude.{
  ℕ, ◌+◌, ◌≤◌, ◌<◌, ◌^◌, ◌≡◌, true, false, ◌⊎◌, inl, inr, arith, Bool-cases,
}
use win_udpsharded_echo.Float.{Double, std_max, std_min, nought, one, ◌≼◌, ◌≺◌}

pub record IsIeee (F : Type 0) ⦃d : Double F⦄ : Type 0 where
  pub le_trans : (x y z : F) → x ≼ y → y ≼ z → x ≼ z
  pub lt_le_trans : (x y z : F) → x ≺ y → y ≼ z → x ≺ z
  pub le_lt_trans : (x y z : F) → x ≼ y → y ≺ z → x ≺ z
  pub le_of_lt : (x y : F) → x ≺ y → x ≼ y
  pub refl_of_le : (x y : F) → x ≼ y → (x ≼ x) × (y ≼ y)
  pub eq_self : (x : F) → x ≼ x → d.eq x x ≡ true
  pub not_lt_of_le : (x y : F) → x ≼ y → d.lt y x ≡ false
  pub le_total : (x y : F) → x ≼ x → y ≼ y → (x ≼ y) ⊎ (y ≺ x)
  -- rounding is monotone, and whole numbers up to 2^53 are exact
  pub lit_mono : (a b k : ℕ) → a ≤ b → d.lit a k ≼ d.lit b k
  pub lit_lt : (a b : ℕ) → a < b → b ≤ 2 ^ 53 → d.lit a 0 ≺ d.lit b 0
  pub of_u64-eq-lit : (n : ℕ) → d.of_u64 n ≡ d.lit n 0
  pub add_exact : (m n : ℕ) → m + n ≤ 2 ^ 53 → d.add (d.lit m 0) (d.lit n 0) ≡ d.lit (m + n) 0
  -- signs; infinity times zero and the like are NaN, which is not below zero
  pub add_nonneg : (x y : F) → nought ≼ x → d.lt y nought ≡ false → d.lt (d.add x y) nought ≡ false
  pub le_add : (x y : F) → nought ≼ x → nought ≼ y → x ≼ d.add x y
  pub mul_nonneg : (x y : F) → nought ≼ x → d.lt y nought ≡ false → d.lt (d.mul x y) nought ≡ false
  pub div_nonneg : (x y : F) → nought ≼ x → nought ≺ y → d.lt (d.div x y) nought ≡ false
  pub lit_div : (a : ℕ) (y : F) → a ≤ 2 ^ 53 → nought ≺ y → nought ≼ d.div (d.lit a 0) y
  pub mul_lit :
      (x : F) (m k : ℕ) → nought ≼ x → 0 < m → m ≤ 2 ^ 53 → k ≤ 12 → nought ≼ d.mul x (d.lit m k)
  pub lit_sub_le :
      (a b j k : ℕ) → a ≤ 2 ^ 53 → b ≤ 2 ^ 53 → d.sub (d.lit a j) (d.lit b k) ≼ d.lit a j
  pub sub_le : (x y : F) → nought ≼ y → d.lt x (d.sub x y) ≡ false
  pub mul_one : (x : F) → d.mul x one ≡ x
  pub mul_mono : (x y z : F) → x ≼ y → nought ≼ z → d.lt (d.mul y z) (d.mul x z) ≡ false
  pub mul_frac :
      (x : F) (n : ℕ)
      → nought ≼ x
      → x ≼ one
      → n ≤ 2 ^ 53
      → (nought ≼ d.mul x (d.lit n 0)) × (d.mul x (d.lit n 0) ≼ d.lit n 0)
  pub half_le : (x : F) → nought ≼ x → d.div x (d.lit 2 0) ≼ x

module _ {F : Type 0} ⦃d : Double F⦄ (laws : IsIeee F) where
  open laws use {
    le_trans, lt_le_trans, le_lt_trans, le_of_lt, refl_of_le, not_lt_of_le, le_total, lit_mono,
  }

  pub lit_self : (a k : ℕ) → d.lit a k ≼ d.lit a k
  lit_self a k = lit_mono a a k (omega arith)

  -- A number that is not below another number is at or above it.
  pub le_of_not_lt : (x y : F) → x ≼ x → y ≼ y → d.lt y x ≡ false → x ≼ y
  le_of_not_lt x y p q h = elim (le_total x y p q) [ inl e ↦ e | inr e ↦ cc ]

  pub not_le_of_lt : (x y : F) → x ≺ y → d.le y x ≡ false
  not_le_of_lt x y h = ground (arith, not_lt_of_le y x)

  -- `std::min` never exceeds its first argument, whatever the second is, NaN included.
  pub std_min-le : (a b : F) → a ≼ a → std_min a b ≼ a
  std_min-le a b p = ground (arith, le_of_lt b a)

  -- `std::max` is never below its first argument.
  pub le-std_max : (a b : F) → a ≼ a → a ≼ std_max a b
  le-std_max a b p = ground (arith, le_of_lt a b)

  pub std_min_nonneg : (a b : F) → nought ≼ a → d.lt b nought ≡ false → nought ≼ std_min a b
  std_min_nonneg a b p q = elim (Bool-cases (d.lt b a)) [
    | inl h ↦ rw h (le_of_not_lt nought b (lit_self 0 0) (refl_of_le b a (le_of_lt b a h)).0 q)
    | inr h ↦ rw h p
  ]
