-- ===== src/Prelude/Sets.antt =====
-- `std::unordered_set` of numbers, as a list without repetition.
use Prim.Native.Nat.{ℕ, ◌+◌}
use mathlib.Core.Path.{◌≡◌, refl}
use mathlib.Core.Bool.{Bool, true, false}
use mathlib.Core.List.{List, [], ◌∷◌}
use native.Mathlib.Omega.{arith}
use win_udpsharded_echo.Prelude.Tests.{◌==◌, ==_iff, if◌then◌else◌}
use win_udpsharded_echo.Prelude.Lists.{length}

unfoldable pub member : ℕ → List ℕ → Bool
member k [] = false
member k (x ∷ xs) = if x == k then true else member k xs

unfoldable pub set_insert : ℕ → List ℕ → List ℕ
set_insert k xs = if member k xs then xs else k ∷ xs

unfoldable pub set_erase : ℕ → List ℕ → List ℕ
set_erase k [] = []
set_erase k (x ∷ xs) = let rest = set_erase k xs in if x == k then rest else x ∷ rest

pub member-set_insert :
    (k j : ℕ) (xs : List ℕ) → member j (set_insert k xs) ≡ (if k == j then true else member j xs)
unfolding set_insert member
member-set_insert k j xs = ground (arith, ==_iff k j)

pub member-set_erase :
    (k j : ℕ) (xs : List ℕ) → member j (set_erase k xs) ≡ (if k == j then false else member j xs)
unfolding set_erase member
member-set_erase k j [] = ground arith
member-set_erase k j (x ∷ xs) = ground (arith, member-set_erase k j xs)

-- No number stands twice.
abbrev pub IsDistinct : List ℕ → Type 0
IsDistinct [] = Unit {0}
IsDistinct (x ∷ xs) = (member x xs ≡ false) × IsDistinct xs

pub IsDistinct-set_erase : (k : ℕ) (xs : List ℕ) → IsDistinct xs → IsDistinct (set_erase k xs)
unfolding set_erase
IsDistinct-set_erase k [] h = tt
IsDistinct-set_erase k (x ∷ xs) h =
    ground (arith, member-set_erase k x xs, IsDistinct-set_erase k xs h.1)

pub IsDistinct-set_insert : (k : ℕ) (xs : List ℕ) → IsDistinct xs → IsDistinct (set_insert k xs)
unfolding set_insert
IsDistinct-set_insert k xs h = ground (arith, h)

erase_absent : (k : ℕ) (xs : List ℕ) → member k xs ≡ false → set_erase k xs ≡ xs
unfolding set_erase member
erase_absent k [] h = refl
erase_absent k (x ∷ xs) h = ground (arith, erase_absent k xs)

-- An element goes, and only one.
pub length-set_erase :
    (k : ℕ) (xs : List ℕ)
    → IsDistinct xs
    → length (set_erase k xs) + (if member k xs then 1 else 0) ≡ length xs
unfolding set_erase member
length-set_erase k [] h = refl
length-set_erase k (x ∷ xs) h =
    ground (arith, ==_iff x k, erase_absent k xs, length-set_erase k xs h.1)
