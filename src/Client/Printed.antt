-- ===== src/Client/Printed.antt =====
-- What holds of the threads of client/main.cpp whenever the final statistics are printed.
use win_udpsharded_echo.Prelude.{
  update, update-All, ℕ, zero, suc, ◌+◌, ==_iff, Bool-cases, inl, inr, ◌≤◌, ◌<◌, ◌≡◌, refl, List,
  [], ◌++◌, ◌==◌, arith, u64_mod,
}
use mathlib.Core.Path.{subst}
use win_udpsharded_echo.Float.{Double}
use win_udpsharded_echo.Cc.{Controller}
use win_udpsharded_echo.Client.Worker.{Config, Client}
use win_udpsharded_echo.Client.Reach.{Note, Reached, launched, reset}
use win_udpsharded_echo.Client.Turns.{Moves-Reached}
use win_udpsharded_echo.Client.Sequences.{packets_of, echoed_of}
use win_udpsharded_echo.Client.Stats.{Ended, nobody, one_more, final_stats-accounts}
use win_udpsharded_echo.Client.System.{
  Main, starting, resetting, joining, running, stopping, merging, printed, Phase, unborn, refused,
  created, waiting, failed, looping, ended, System, IsDone, reset_phase, Step, spawn, start_all,
  reset_one, measure, end_run, request, join, join_merger, print, signal, merger_ends, begin,
  refuse, go, turn, fail, leave, Reach, start, later, client_at, clients_from, stats,
}

-- How many workers `main` has joined.
abbrev pub joined : ℕ → Main → ℕ
joined n (starting k) = 0
joined n (resetting k) = 0
joined n (joining k) = k
joined n running = 0
joined n stopping = 0
joined n merging = n
joined n printed = n

-- How far `main` is with the workers.
abbrev pub position : Main → ℕ
position (starting k) = k
position (resetting k) = k
position (joining k) = k
position _ = 0

-- What a worker noted in its loop.
abbrev pub notes_of : {F C : Type 0} → Phase F C → List Note
notes_of (looping c h) = h
notes_of (ended c h) = h
notes_of _ = []

-- The packets handed over, and those answered, of `k` workers from `i` on.
abbrev pub handed_over : {F C : Type 0} → ℕ → ℕ → (ℕ → Phase F C) → ℕ
handed_over i zero phases = 0
handed_over i (suc k) phases = packets_of (notes_of (phases i)) + handed_over (i + 1) k phases

abbrev pub answered : {F C : Type 0} → ℕ → ℕ → (ℕ → Phase F C) → ℕ
answered i zero phases = 0
answered i (suc k) phases = echoed_of (notes_of (phases i)) + answered (i + 1) k phases

-- The thread was not ended by an exception.
abbrev pub IsUnbroken : {F C : Type 0} → Phase F C → Type 0
IsUnbroken refused = ⊥
IsUnbroken (failed c) = ⊥
IsUnbroken _ = Unit

-- How many workers' threads were started.
abbrev pub born : ℕ → Main → ℕ
born n (starting k) = k
born n _ = n

abbrev pub IsBorn : {F C : Type 0} → Phase F C → Type 0
IsBorn unborn = ⊥
IsBorn _ = Unit

module _ {F C : Type 0} ⦃d : Double F⦄ (controller : Controller F C) (configs : ℕ → Config)
    (n : ℕ) where
  abbrev pub IsSound : ℕ → Phase F C → Type 0
  IsSound i (waiting c) = Reached controller (configs i) c []
  IsSound i (looping c h) = Reached controller (configs i) c h
  IsSound i (ended c h) = Reached controller (configs i) c h
  IsSound i _ = Unit

  -- What holds of worker `i` when `main` is at `m`.
  abbrev IsGood : Main → ℕ → Phase F C → Type 0
  IsGood m i p = IsSound i p × (i < born n m → IsBorn p) × (i < joined n m → IsDone p)

  pub record Inv (m : Main) (phases : ℕ → Phase F C) : Type 0 where
    pub in_range : position m ≤ n
    pub good : (i : ℕ) → IsGood m i (phases i)

  -- A thread that goes on keeps what it was asked.
  Inv-update :
      {m : Main} {phases : ℕ → Phase F C} (i : ℕ) (p q : Phase F C)
      → phases i ≡ p
      → (IsSound i p → IsSound i q)
      → IsBorn q
      → (IsDone p → ⊥)
      → Inv m phases
      → Inv m (update i q phases)
  Inv-update {m} {phases} i p q e f b nd v =
      let (x, _, z) = subst (IsGood m i) e (v.good i) in
      record {
        in_range = v.in_range;
        good =
            update-All (IsGood m) i q phases (f x, (λ h. b), (λ h. absurd (nd (z h))))
              (λ j _. v.good j);
      }

  IsGood-reset_phase :
      (m : Main) (i now : ℕ) (p : Phase F C)
      → IsGood m i p
      → IsGood m i (reset_phase controller configs n i now p)
  unfolding reset_phase
  IsGood-reset_phase m i now unborn g = g
  IsGood-reset_phase m i now refused g = g
  IsGood-reset_phase m i now (created p) g = g
  IsGood-reset_phase m i now (waiting c) (r, b, g) = (reset now r, b, g)
  IsGood-reset_phase m i now (failed c) g = g
  IsGood-reset_phase m i now (looping c h) (r, b, g) = (reset now r, b, g)
  IsGood-reset_phase m i now (ended c h) (r, b, g) = (reset now r, b, g)

  -- `main` goes on, without more threads started or joined.
  Inv-main :
      {m m' : Main} {phases : ℕ → Phase F C}
      → born n m' ≡ born n m
      → joined n m' ≡ joined n m
      → position m' ≤ n
      → Inv m phases
      → Inv m' phases
  Inv-main b j h v = record {
    in_range = h;
    good = λ i. let (x, y, z) = v.good i in (x, rw b y, rw j z);
  }

  Inv-Step :
      {s t : System F C}
      → Step controller configs n s t
      → Inv s.main s.workers
      → Inv t.main t.workers
  Inv-Step {s} (spawn k pacer e h) v = record {
    in_range = omega arith;
    good =
        update-All (IsGood (starting (suc k))) k (created pacer) s.workers
          (tt, (λ _. tt), (λ x. absurd (omega arith)))
          (λ j d.
            let (x, y, z) = subst (λ m. IsGood m j (s.workers j)) e (v.good j) in
            (x, (λ l. y (omega (arith, d))), z));
  }
  Inv-Step (start_all e) v = Inv-main (rw e refl) (rw e refl) (omega arith) v
  Inv-Step {s} (reset_one k now e h) v =
      let g : (j : ℕ) → IsGood (resetting (suc k)) j (s.workers j) =
        λ j. subst (λ m. IsGood m j (s.workers j)) e (v.good j) in
      record {
        in_range = omega arith;
        good =
            update-All (IsGood (resetting (suc k))) k _ s.workers
              (IsGood-reset_phase (resetting (suc k)) k now _ (g k)) (λ j _. g j);
      }
  Inv-Step (measure e) v = Inv-main (rw e refl) (rw e refl) (omega arith) v
  Inv-Step (end_run e) v = Inv-main (rw e refl) (rw e refl) (omega arith) v
  Inv-Step (request e) v = Inv-main (rw e refl) (rw e refl) (omega arith) v
  Inv-Step {s} (join k e h d) v = record {
    in_range = omega arith;
    good = λ j.
        let (x, y, z) = subst (λ m. IsGood m j (s.workers j)) e (v.good j) in
        (
          x,
          y,
          λ l. elim (Bool-cases (k == j)) [
            | inl b ↦ subst (λ j. IsDone (s.workers j)) ((==_iff k j).0 b) d
            | inr b ↦ z (ground (arith, ==_iff k j, b))
          ],
        );
  }
  Inv-Step (join_merger e h) v = Inv-main (rw e refl) (rw e refl) (omega arith) v
  Inv-Step (print e) v = Inv-main (rw e refl) (rw e refl) (omega arith) v
  Inv-Step signal v = v
  Inv-Step (merger_ends h m) v = v
  Inv-Step (begin i pacer outcomes contexts e f) v =
      Inv-update i _ _ e (λ u. launched pacer outcomes contexts f) tt (λ x. x) v
  Inv-Step (refuse i pacer e) v = Inv-update i _ _ e (λ u. tt) tt (λ x. x) v
  Inv-Step (go i c e g) v = Inv-update i _ _ e (λ r. r) tt (λ x. x) v
  Inv-Step (turn i t c c' h notes e g q m) v =
      Inv-update i _ _ e (λ r. Moves-Reached controller (configs i) r m) tt (λ x. x) v
  Inv-Step (fail i t c c' h e g q) v = Inv-update i _ _ e (λ r. tt) tt (λ x. x) v
  Inv-Step (leave i c h e g) v = Inv-update i _ _ e (λ r. r) tt (λ x. x) v

  pub Reach-Inv : {s : System F C} → Reach controller configs n s → Inv s.main s.workers
  Reach-Inv start = record {
    in_range = omega arith;
    good = λ i. (tt, (λ h. absurd (omega arith)), (λ h. absurd (omega arith)));
  }
  Reach-Inv (later r e) = Inv-Step e (Reach-Inv r)

  -- When the final statistics are printed, the threads of all workers have ended, whatever the order in
  -- which the threads took their turns, and whether the duration was over, a signal came or a worker
  -- failed.
  pub printed-IsDone :
      {s : System F C} (i : ℕ)
      → Reach controller configs n s
      → s.main ≡ printed
      → i < n
      → IsDone (s.workers i)
  printed-IsDone {s} i r e h = ((Reach-Inv r).good i).2 (rw e h)

  Ended-client_at :
      (i : ℕ) (p : Phase F C) {cs : List (Client F C)} {a s : ℕ}
      → IsSound i p
      → IsDone p
      → IsUnbroken p
      → Ended controller cs a s
      → Ended controller
          (client_at controller configs n i p ++ cs)
          (echoed_of (notes_of p) + a)
          (packets_of (notes_of p) + s)
  Ended-client_at i unborn r d u e = elim d [ ]
  Ended-client_at i refused r d u e = elim u [ ]
  Ended-client_at i (created p) r d u e = elim d [ ]
  Ended-client_at i (waiting c) r d u e = elim d [ ]
  Ended-client_at i (failed c) r d u e = elim u [ ]
  Ended-client_at i (looping c h) r d u e = elim d [ ]
  Ended-client_at i (ended c h) r d u e = one_more (configs i) r e

  Ended-clients_from :
      (i k : ℕ) (phases : ℕ → Phase F C)
      → ((j : ℕ) → j < i + k → IsSound j (phases j) × IsDone (phases j) × IsUnbroken (phases j))
      → Ended controller
          (clients_from controller configs n i k phases)
          (answered i k phases)
          (handed_over i k phases)
  Ended-clients_from i zero phases f = nobody
  Ended-clients_from i (suc k) phases f =
      let (x, y, z) = f i (omega arith) in
      Ended-client_at i (phases i) x y z
        (Ended-clients_from (i + 1) k phases (λ j h. f j (omega arith)))

  -- When the final statistics are printed and no thread of a worker was ended by an exception, with fewer
  -- than 2^64 packets handed over by all workers together, the printed number of packets sent is that of
  -- the packets handed over, and the printed number dropped, with the packets that were answered, makes
  -- the number sent; whatever the order in which the threads took their turns.
  pub printed-stats :
      {s : System F C}
      → Reach controller configs n s
      → s.main ≡ printed
      → ((i : ℕ) → i < n → IsUnbroken (s.workers i))
      → handed_over 0 n s.workers < u64_mod
      → ((stats controller configs n s).total_sent ≡ handed_over 0 n s.workers)
        × ((stats controller configs n s).total_dropped + answered 0 n s.workers
            ≡ (stats controller configs n s).total_sent)
  unfolding stats
  printed-stats {s} r e u m =
      final_stats-accounts controller
        (Ended-clients_from 0 n s.workers (λ j h.
          (((Reach-Inv r).good j).0, printed-IsDone j r e (omega arith), u j (omega arith))))
        m
