-- ===== src/Float/Fixed.antt =====
-- Doubles in fixed point: `some n` is n · 10^-12 and `none` is NaN, to which a division by zero
-- leads. Subtraction stops at zero.
use native.Mathlib.Nat.{mul-le-mul_right}
use win_udpsharded_echo.Prelude.{
  ℕ, ◌+◌, ◌-◌, ◌*◌, ◌/◌, ◌^◌, ◌≤◌, ◌≡◌, refl, Bool, false, Option, none, some, arith, ltb, leb,
  leb→le, ◌==◌, if◌then◌else◌,
}
use win_udpsharded_echo.Float.{Double, ◌≼◌}
use win_udpsharded_echo.Float.Laws.{IsIeee}

abbrev pub Fixed : Type 0
Fixed = Option ℕ

abbrev unit : ℕ
unit = 1_000_000_000_000

abbrev on_numbers : (ℕ → ℕ → Bool) → Fixed → Fixed → Bool
on_numbers f (some a) (some b) = f a b
on_numbers f _ _ = false

abbrev lift : (ℕ → ℕ → Fixed) → Fixed → Fixed → Fixed
lift f (some a) (some b) = f a b
lift f _ _ = none

abbrev to_number : Fixed → ℕ
to_number (some a) = a / unit
to_number none = 0

instance abbrev pub fixed_double : Double Fixed
fixed_double = record {
  lt = on_numbers ltb;
  le = on_numbers leb;
  eq = on_numbers ◌==◌;
  add = lift (λ a b. some (a + b));
  sub = lift (λ a b. some (a - b));
  mul = lift (λ a b. some (a * b / unit));
  div = lift (λ a b. if b == 0 then none else some (a * unit / b));
  lit = λ m k. some (m * unit / 10 ^ k);
  of_u64 = λ n. some (n * unit);
  to_u64 = to_number;
  nan = none;
}

le-div : (a b c : ℕ) → a ≤ b → a / c ≤ b / c
le-div a b c h = grind arith

Fixed-lit_mono : (a b k : ℕ) → a ≤ b → fixed_double.lit a k ≼ fixed_double.lit b k
Fixed-lit_mono a b k h = let p = le-div (a * unit) (b * unit) (10 ^ k) (omega arith) in ground arith

Fixed-mul_mono :
    (x y z : Fixed) → x ≼ y → fixed_double.lt (fixed_double.mul y z) (fixed_double.mul x z) ≡ false
Fixed-mul_mono (some x) (some y) (some z) h =
    let le : x ≤ y = leb→le x y h in
    let p = le-div (x * z) (y * z) unit (mul-le-mul_right z le) in ground arith
Fixed-mul_mono (some x) (some y) none h = refl
Fixed-mul_mono none y z h = cc
Fixed-mul_mono (some x) none z h = cc

Fixed-mul_frac :
    (x : Fixed) (n : ℕ)
    → x ≼ fixed_double.lit 1 0
    → (fixed_double.lit 0 0 ≼ fixed_double.mul x (fixed_double.lit n 0))
      × (fixed_double.mul x (fixed_double.lit n 0) ≼ fixed_double.lit n 0)
Fixed-mul_frac none n h = cc
Fixed-mul_frac (some x) n h =
    let le : x ≤ unit = leb→le x unit h in
    let p = le-div (x * (n * unit)) (unit * (n * unit)) unit (mul-le-mul_right (n * unit) le) in
    ground arith

-- The laws can be met.
pub Fixed-IsIeee : IsIeee Fixed
Fixed-IsIeee = record {
  le_trans = ground arith;
  lt_le_trans = ground arith;
  le_lt_trans = ground arith;
  le_of_lt = ground arith;
  refl_of_le = ground arith;
  eq_self = ground arith;
  not_lt_of_le = ground arith;
  le_total = ground arith;
  lit_mono = Fixed-lit_mono;
  lit_lt = ground arith;
  of_u64-eq-lit = λ n. ground arith;
  add_exact = ground arith;
  add_nonneg = ground arith;
  le_add = ground arith;
  mul_nonneg = ground arith;
  div_nonneg = ground arith;
  lit_div = ground arith;
  mul_lit = ground arith;
  lit_sub_le = ground arith;
  sub_le = ground arith;
  mul_one = ground arith;
  mul_mono = λ x y z h _. Fixed-mul_mono x y z h;
  mul_frac = λ x n _ h _. Fixed-mul_frac x n h;
  half_le = ground arith;
}
