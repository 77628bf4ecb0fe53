-- ===== src/Prelude/Maps.antt =====
-- `std::unordered_map` from numbers, as an association list with one entry for a key.
use Prim.Native.Nat.{ℕ}
use mathlib.Core.Path.{◌≡◌, refl}
use mathlib.Core.List.{List, [], ◌∷◌}
use mathlib.Core.Option.{Option, none, some}
use native.Mathlib.Omega.{arith}
use win_udpsharded_echo.Prelude.Tests.{◌==◌, if◌then◌else◌}

module _ {ℓ} {V : Type ℓ} where
  unfoldable pub lookup : ℕ → List (ℕ × V) → Option V
  lookup key [] = none
  lookup key ((at, x) ∷ rest) = if at == key then some x else lookup key rest

  unfoldable pub insert : ℕ → V → List (ℕ × V) → List (ℕ × V)
  insert key x [] = (key, x) ∷ []
  insert key x ((at, y) ∷ rest) = if at == key then (key, x) ∷ rest else (at, y) ∷ insert key x rest

  -- Every entry for the key goes.
  unfoldable pub erase : ℕ → List (ℕ × V) → List (ℕ × V)
  erase k [] = []
  erase k ((j, w) ∷ m) = let rest = erase k m in if j == k then rest else (j, w) ∷ rest

  pub lookup-insert :
      (key other : ℕ) (x : V) (table : List (ℕ × V))
      → lookup other (insert key x table) ≡ (if key == other then some x else lookup other table)
  unfolding lookup insert
  lookup-insert key other x [] = refl
  lookup-insert key other x ((at, y) ∷ rest) = ground (arith, lookup-insert key other x rest)

  pub lookup-erase :
      (k j : ℕ) (m : List (ℕ × V)) → lookup j (erase k m) ≡ (if k == j then none else lookup j m)
  unfolding lookup erase
  lookup-erase k j [] = ground arith
  lookup-erase k j ((i, w) ∷ m) = ground (arith, lookup-erase k j m)
