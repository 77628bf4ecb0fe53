-- ===== src/Prelude/Families.antt =====
-- Families of things, as functions from their numbers, of which one is replaced.
use Prim.Native.Nat.{ℕ, zero, suc, ◌+◌, ◌*◌, ◌<◌, ◌≤◌}
use mathlib.Core.Path.{◌≡◌, refl, ap, subst}
use mathlib.Core.Logic.{inl, inr}
use mathlib.Core.Bool.{true, false}
use native.Mathlib.Omega.{arith}
use win_udpsharded_echo.Prelude.Tests.{◌==◌, ==_iff, Bool-cases, if◌then◌else◌}

module _ {ℓ} {A : Type ℓ} where
  abbrev pub update : ℕ → A → (ℕ → A) → ℕ → A
  update i p family j = if i == j then p else family j

  -- A property of all members after one has been replaced.
  pub update-All :
      (P : ℕ → A → Type 0) (i : ℕ) (p : A) (family : ℕ → A)
      → P i p
      → ((j : ℕ) → (i ≡ j → ⊥) → P j (family j))
      → (j : ℕ) → P j (update i p family j)
  update-All P i p family x all j = elim (Bool-cases (i == j)) [
    | inl b ↦ rw b (subst (λ k. P k p) ((==_iff i j).0 b) x)
    | inr b ↦ rw b (all j (ground (arith, ==_iff i j, b)))
  ]

  pub update-same : (i : ℕ) (p : A) (family : ℕ → A) → update i p family i ≡ p
  update-same i p family = ground arith

  update-at : (i j : ℕ) (p : A) (family : ℕ → A) → i == j ≡ true → update i p family j ≡ p
  update-at i j p family b = rw b refl

  update-else : (i j : ℕ) (p : A) (family : ℕ → A) → i == j ≡ false → update i p family j ≡ family j
  update-else i j p family b = rw b refl

  -- The sum of a measure over the first `n` members.
  abbrev pub total : (A → ℕ) → (ℕ → A) → ℕ → ℕ
  total size family zero = 0
  total size family (suc n) = total size family n + size (family n)

  pub total-update_beyond :
      (size : A → ℕ) (family : ℕ → A) (n i : ℕ) (p : A)
      → n ≤ i
      → total size (update i p family) n ≡ total size family n
  total-update_beyond size family zero i p h = refl
  total-update_beyond size family (suc n) i p h =
      ground (arith, total-update_beyond size family n i p (omega arith), ==_iff i n)

  -- Replacing one of them changes the sum by what it changes there.
  pub total-update :
      (size : A → ℕ) (family : ℕ → A) (n i : ℕ) (p : A)
      → i < n
      → total size (update i p family) n + size (family i) ≡ total size family n + size p
  total-update size family zero i p h = absurd (omega arith)
  total-update size family (suc n) i p h = elim (Bool-cases (i == n)) [
    | inl b ↦
        let e : i ≡ n = (==_iff i n).0 b in
        omega (
          arith,
          total-update_beyond size family n i p (omega arith),
          ap size (update-at i n p family b),
          ap (λ j. size (family j)) e,
        )
    | inr b ↦ omega (
      arith,
      total-update size family n i p (ground (arith, ==_iff i n, b)),
      ap size (update-else i n p family b),
    )
  ]

  pub total_le :
      (size : A → ℕ) (family : ℕ → A) (b n : ℕ)
      → ((a : A) → size a ≤ b)
      → total size family n ≤ b * n
  total_le size family b zero h = omega arith
  total_le size family b (suc n) h = ground (arith, total_le size family b n h, h (family n))
