-- ===== src/SocketUtils/Affinity.antt =====
-- `set_thread_affinity` of common/socket_utils.cpp. The processor groups are the list of their
-- active processor counts, and whether Windows accepts the affinity is an argument.
use mathlib.Core.Path.{subst}
use native.Mathlib.Nat.{pow-le-pow_right, mod-eq_of_lt}
use win_udpsharded_echo.Prelude.{
  All, ◌%◌, ℕ, suc, ◌+◌, ◌-◌, ◌^◌, ◌≤◌, ◌<◌, ◌≡◌, refl, ap, inl, inr, List, [], ◌∷◌, ◌++◌, Bool,
  true, Option, none, some, arith, ltb, if◌then◌else◌, length, Bool-cases,
}

-- `GROUP_AFFINITY`: the group and the mask of its processors.
pub record GroupAffinity : Type 0 where
  pub group : ℕ
  pub mask : ℕ

pub data AffinityError : Type 0 where
  no_groups : AffinityError
  out_of_range : ℕ → ℕ → AffinityError
  refused : ℕ → AffinityError

pub data AffinityResult : Type 0 where
  pinned : GroupAffinity → AffinityResult
  failed : AffinityError → AffinityResult

-- The walk over the groups from group `g` on: the group and the index in it.
locate : ℕ → ℕ → List ℕ → Option (ℕ × ℕ)
locate g remaining [] = none
locate g remaining (cnt ∷ counts) =
    let later = locate (g + 1) (remaining - cnt) counts in
    if ltb remaining cnt then some (g, remaining) else later

-- The mask has 64 bits. The message of the second exception names the id and the id plus one.
pin : ℕ → Bool → Option (ℕ × ℕ) → AffinityResult
pin id accepted none = failed (out_of_range id (id + 1))
pin id accepted (some (g, i)) =
    if accepted then pinned (record { group = g; mask = 2 ^ i % 2 ^ 64 }) else failed (refused id)

pub set_thread_affinity : List ℕ → Bool → ℕ → AffinityResult
set_thread_affinity [] accepted id = failed no_groups
set_thread_affinity (cnt ∷ counts) accepted id = pin id accepted (locate 0 id (cnt ∷ counts))

abbrev pub total : List ℕ → ℕ
total [] = 0
total (n ∷ ns) = n + total ns

-- The processor with the index in the group, counted over all groups.
pub record IsAt (counts : List ℕ) (id g i : ℕ) : Type 0 where
  pub before : List ℕ
  pub own : ℕ
  pub after : List ℕ
  pub parts : counts ≡ before ++ own ∷ after
  pub group_eq : g ≡ length before
  pub id_eq : id ≡ total before + i
  pub index_lt : i < own

locate-some :
    (g id : ℕ) (counts : List ℕ)
    → id < total counts
    → (k : ℕ) × (i : ℕ) × (locate g id counts ≡ some (g + k, i)) × IsAt counts id k i
unfolding locate
locate-some g id [] h = absurd (omega arith)
locate-some g id (cnt ∷ counts) h = elim (Bool-cases (ltb id cnt)) [
  | inl e ↦ (
    0,
    id,
    ground arith,
    record {
      before = [];
      own = cnt;
      after = counts;
      parts = refl;
      group_eq = refl;
      id_eq = omega arith;
      index_lt = ground arith;
    },
  )
  | inr e ↦
      let (k, i, eq, at) = locate-some (g + 1) (id - cnt) counts (ground arith) in
      (
        suc k,
        i,
        ground (arith, eq),
        record {
          before = cnt ∷ at.before;
          own = at.own;
          after = at.after;
          parts = ap (λ l. cnt ∷ l) at.parts;
          group_eq = ap suc at.group_eq;
          id_eq = ground (arith, at);
          index_lt = at.index_lt;
        },
      )
]

locate-none : (g id : ℕ) (counts : List ℕ) → total counts ≤ id → locate g id counts ≡ none
unfolding locate
locate-none g id [] h = refl
locate-none g id (cnt ∷ counts) h = ground (arith, locate-none (g + 1) (id - cnt) counts)

mask_lt : (i : ℕ) → i < 64 → 2 ^ i < 2 ^ 64
mask_lt i h =
    let twice : 2 ^ suc i ≤ 2 ^ 64 = pow-le-pow_right {n = 2} (omega arith) h in
    let positive : 2 ^ 0 ≤ 2 ^ i = pow-le-pow_right {n = 2} (omega arith) {i = 0} (omega arith) in
    omega (arith, twice, positive)

own_le :
    (before : List ℕ) (own : ℕ) (after : List ℕ)
    → All (λ n. n ≤ 64) (before ++ own ∷ after)
    → own ≤ 64
own_le [] own after all = all.0
own_le (_ ∷ before) own after all = own_le before own after all.1

IsAt-fits : (counts : List ℕ) (id g i : ℕ) → All (λ n. n ≤ 64) counts → IsAt counts id g i → i < 64
IsAt-fits counts id g i all at =
    omega (
      arith,
      own_le at.before at.own at.after (subst (All (λ n. n ≤ 64)) at.parts all),
      at.index_lt,
    )

-- When no group has more than 64 processors, an id below the number of processors in all groups is
-- pinned, if Windows accepts it, to the processor that comes at that place when the groups are counted
-- through in order, however uneven they are, and the mask has just the bit of that processor.
pub set_thread_affinity_pins :
    (counts : List ℕ) (id : ℕ)
    → All (λ n. n ≤ 64) counts
    → id < total counts
    → (g : ℕ) × (i : ℕ) × (set_thread_affinity counts true id
        ≡ pinned (record { group = g; mask = 2 ^ i }))
      × IsAt counts id g i
unfolding set_thread_affinity pin
set_thread_affinity_pins [] id all h = absurd (omega arith)
set_thread_affinity_pins (cnt ∷ counts) id all h =
    let (g, i, e, at) = locate-some 0 id (cnt ∷ counts) h in
    let below : 0 + g ≡ g = omega arith in
    (g, i, rw (e, below, mod-eq_of_lt (mask_lt i (IsAt-fits _ id g i all at))) refl, at)

-- Where there is a group, an id past the processors of all groups is refused before Windows is asked,
-- and what the exception gives as the number of processors is the id plus one, whatever the groups
-- hold.
pub set_thread_affinity_refuses :
    (cnt : ℕ) (counts : List ℕ) (accepted : Bool) (id : ℕ)
    → total (cnt ∷ counts) ≤ id
    → set_thread_affinity (cnt ∷ counts) accepted id ≡ failed (out_of_range id (id + 1))
unfolding set_thread_affinity pin
set_thread_affinity_refuses cnt counts accepted id h = rw (locate-none 0 id (cnt ∷ counts) h)
