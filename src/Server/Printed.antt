-- ===== src/Server/Printed.antt =====
-- What holds of the threads of server/main.cpp when the final statistics are printed.
use mathlib.Core.Path.{subst}
use win_udpsharded_echo.Prelude.{
  update, update-All, ℕ, zero, suc, ◌+◌, ◌%◌, ◌<◌, ◌≡◌, refl, List, ◌++◌, Bool, ==_iff, ◌==◌,
  Bool-cases, inl, inr, length, arith, u64_mod,
}
use win_udpsharded_echo.Server.Worker.{Worker}
use win_udpsharded_echo.Server.Reach.{Reached}
use win_udpsharded_echo.Server.Loop.{Kept, take_batch-Reached}
use win_udpsharded_echo.Server.Stats.{Ran, nobody, one_more, print_final_stats-wire}
use win_udpsharded_echo.Server.System.{
  Main, starting, joining, joining_timer, printed, Phase, unborn, created, refused, looping, ended,
  failed, System, IsDone, IsOver, IsAwake, worker_at, workers_from, IsFresh, Step, spawn,
  start_timer, create_rps_thread, wake, join_rps, join_timer, join, print, signal, fire, doze, tell,
  printer_ends, begin, refuse, turn, fail, leave, Reach, at_first, later, stats, Printer, Timer,
}

-- How many workers `main` has joined, of `n`.
abbrev joined : ℕ → Main → ℕ
joined n (joining k) = k
joined n printed = n
joined n _ = 0

-- `main` has joined the printing thread, and that of the duration.
abbrev IsPastRps : Main → Type 0
IsPastRps joining_timer = Unit
IsPastRps (joining k) = Unit
IsPastRps printed = Unit
IsPastRps _ = ⊥

abbrev IsPastTimer : Main → Type 0
IsPastTimer (joining k) = Unit
IsPastTimer printed = Unit
IsPastTimer _ = ⊥

-- The thread was not ended by an exception.
abbrev pub IsUnbroken : Phase → Type 0
IsUnbroken refused = ⊥
IsUnbroken (failed w) = ⊥
IsUnbroken _ = Unit

-- The datagrams that Windows has taken from a worker, and from `k` workers from `i` on.
abbrev pub wire_of : Phase → ℕ
wire_of (looping outcomes contexts w) = length w.io.wire
wire_of (ended outcomes contexts w) = length w.io.wire
wire_of _ = 0

abbrev pub on_wire : ℕ → ℕ → (ℕ → Phase) → ℕ
on_wire i zero phases = 0
on_wire i (suc k) phases = wire_of (phases i) + on_wire (i + 1) k phases

module _ (sync_reply : Bool) (duration_sec n : ℕ) where
  abbrev IsSound : Phase → Type 0
  IsSound (looping outcomes contexts w) =
      IsFresh outcomes contexts × Reached sync_reply outcomes contexts w
  IsSound (ended outcomes contexts w) =
      IsFresh outcomes contexts × Reached sync_reply outcomes contexts w
  IsSound _ = Unit

  abbrev IsGood : Main → ℕ → Phase → Type 0
  IsGood m i p = IsSound p × (i < joined n m → IsDone p)

  record Inv (m : Main) (printer : Printer) (timer : Timer) (phases : ℕ → Phase) : Type 0 where
    rps_over : IsPastRps m → IsOver printer
    timer_over : IsPastTimer m → IsAwake timer
    good : (i : ℕ) → IsGood m i (phases i)

  abbrev Holds : System → Type 0
  Holds s = Inv s.main s.printer s.timer s.workers

  -- A thread goes on.
  Inv-update :
      (s : System) (i : ℕ) (p q : Phase)
      → s.workers i ≡ p
      → (IsSound p → IsSound q)
      → (IsDone p → ⊥)
      → Holds s
      → Inv s.main s.printer s.timer (update i q s.workers)
  Inv-update s i p q e f nd v =
      let (x, z) = subst (IsGood s.main i) e (v.good i) in
      record {
        rps_over = v.rps_over;
        timer_over = v.timer_over;
        good =
            update-All (IsGood s.main) i q s.workers (f x, (λ h. absurd (nd (z h))))
              (λ j _. v.good j);
      }

  -- `main` goes on, with no more workers joined.
  Inv-main :
      (s : System) {m m' : Main} {printer : Printer} {timer : Timer}
      → s.main ≡ m
      → joined n m' ≡ joined n m
      → (IsPastRps m' → IsOver printer)
      → (IsPastTimer m' → IsAwake timer)
      → Holds s
      → Inv m' printer timer s.workers
  Inv-main s e j a b v = record {
    rps_over = a;
    timer_over = b;
    good = λ i. let (x, y) = subst (λ m. IsGood m i (s.workers i)) e (v.good i) in (x, rw j y);
  }

  Holds-Step : {s t : System} → Step sync_reply duration_sec n s t → Holds s → Holds t
  Holds-Step {s} (spawn k e h) v = record {
    rps_over = λ x. absurd x;
    timer_over = λ x. absurd x;
    good =
        update-All (IsGood (starting (suc k))) k created s.workers (tt, (λ x. absurd (omega arith)))
          (λ j _. ((v.good j).0, (λ x. absurd (omega arith))));
  }
  Holds-Step {s} (start_timer e) v = Inv-main s e refl (λ x. absurd x) (λ x. absurd x) v
  Holds-Step {s} (create_rps_thread e) v = Inv-main s e refl (λ x. absurd x) (λ x. absurd x) v
  Holds-Step {s} (wake e h) v = Inv-main s e refl (λ x. absurd x) (λ x. absurd x) v
  Holds-Step {s} (join_rps e o) v = Inv-main s e refl (λ x. o) (λ x. absurd x) v
  Holds-Step {s} (join_timer e a) v =
      let o = subst (λ m. IsPastRps m → IsOver s.printer) e v.rps_over tt in
      Inv-main s e refl (λ x. o) (λ x. a) v
  Holds-Step {s} (join k e h d) v = record {
    rps_over = subst (λ m. IsPastRps m → IsOver s.printer) e v.rps_over;
    timer_over = subst (λ m. IsPastTimer m → IsAwake s.timer) e v.timer_over;
    good = λ j.
        let (x, z) = subst (λ m. IsGood m j (s.workers j)) e (v.good j) in
        (
          x,
          λ l. elim (Bool-cases (k == j)) [
            | inl b ↦ subst (λ j. IsDone (s.workers j)) ((==_iff k j).0 b) d
            | inr b ↦ z (ground (arith, ==_iff k j, b))
          ],
        );
  }
  Holds-Step {s} (print e) v =
      Inv-main s e refl (subst (λ m. IsPastRps m → IsOver s.printer) e v.rps_over)
        (subst (λ m. IsPastTimer m → IsAwake s.timer) e v.timer_over) v
  Holds-Step signal v = v
  Holds-Step (fire e) v = record { rps_over = v.rps_over; timer_over = λ x. tt; good = v.good }
  Holds-Step (doze prev e h) v = record {
    rps_over = λ x. absurd (subst IsOver e (v.rps_over x));
    timer_over = v.timer_over;
    good = v.good;
  }
  Holds-Step (tell prev total_recv e h) v = record {
    rps_over = λ x. absurd (subst IsOver e (v.rps_over x));
    timer_over = v.timer_over;
    good = v.good;
  }
  Holds-Step (printer_ends prev e h) v = record {
    rps_over = λ x. tt;
    timer_over = v.timer_over;
    good = v.good;
  }
  Holds-Step {s} (begin i outcomes contexts e f) v =
      Inv-update s i _ _ e (λ u. (f, Reached.started)) (λ x. x) v
  Holds-Step {s} (refuse i e) v = Inv-update s i _ _ e (λ u. tt) (λ x. x) v
  Holds-Step {s} (turn i batch outcomes contexts w w' e g o q) v =
      Inv-update s i _ _ e
        (λ r. (
          r.0,
          subst (Kept (Reached sync_reply outcomes contexts)) q
              (take_batch-Reached sync_reply outcomes contexts batch w o r.1),
        ))
        (λ x. x) v
  Holds-Step {s} (fail i batch outcomes contexts w w' e g q) v =
      Inv-update s i _ _ e (λ u. tt) (λ x. x) v
  Holds-Step {s} (leave i outcomes contexts w e g) v = Inv-update s i _ _ e (λ r. r) (λ x. x) v

  Reach-Holds : {s : System} → Reach sync_reply duration_sec n s → Holds s
  Reach-Holds at_first = record {
    rps_over = λ x. absurd x;
    timer_over = λ x. absurd x;
    good = λ i. (tt, (λ h. absurd (omega arith)));
  }
  Reach-Holds (later r e) = Holds-Step e (Reach-Holds r)

  -- When the final statistics are printed, all other threads have ended, whatever the order in which they
  -- took their turns: those of the workers, that of the requests a second, and that of the duration, if
  -- there is one.
  pub printed-quiet :
      {s : System}
      → Reach sync_reply duration_sec n s
      → s.main ≡ printed
      → ((i : ℕ) → i < n → IsDone (s.workers i)) × IsOver s.printer × IsAwake s.timer
  printed-quiet {s} r e =
      let v = subst (λ m. Inv m s.printer s.timer s.workers) e (Reach-Holds r) in
      ((λ i h. (v.good i).1 h), v.rps_over tt, v.timer_over tt)

  Ran-worker_at :
      (p : Phase) {ws : List Worker} {k : ℕ}
      → IsSound p
      → IsDone p
      → IsUnbroken p
      → Ran sync_reply ws k
      → Ran sync_reply (worker_at p ++ ws) (wire_of p + k)
  Ran-worker_at unborn r d u e = elim d [ ]
  Ran-worker_at created r d u e = elim d [ ]
  Ran-worker_at refused r d u e = elim u [ ]
  Ran-worker_at (failed w) r d u e = elim u [ ]
  Ran-worker_at (looping outcomes contexts w) r d u e = elim d [ ]
  Ran-worker_at (ended outcomes contexts w) (f, r) d u e =
      one_more outcomes contexts f.answered f.operation_recv f.sized r e

  Ran-workers_from :
      (i k : ℕ) (phases : ℕ → Phase)
      → ((j : ℕ) → j < i + k → IsSound (phases j) × IsDone (phases j) × IsUnbroken (phases j))
      → Ran sync_reply (workers_from i k phases) (on_wire i k phases)
  Ran-workers_from i zero phases f = nobody
  Ran-workers_from i (suc k) phases f =
      let (x, y, z) = f i (omega arith) in
      Ran-worker_at (phases i) x y z (Ran-workers_from (i + 1) k phases (λ j h. f j (omega arith)))

  -- When the final statistics are printed and no thread of a worker was ended by an exception, the
  -- printed total of packets sent is the number of datagrams that Windows has taken from all workers,
  -- modulo 2^64, whatever the order in which the threads took their turns.
  pub printed-wire :
      {s : System}
      → Reach sync_reply duration_sec n s
      → s.main ≡ printed
      → ((i : ℕ) → i < n → IsUnbroken (s.workers i))
      → (stats sync_reply duration_sec n s).total_sent ≡ on_wire 0 n s.workers % u64_mod
  unfolding stats
  printed-wire {s} r e u = print_final_stats-wire (
      Ran-workers_from 0 n s.workers (λ j h.
        (((Reach-Holds r).good j).0, (printed-quiet r e).0 j (omega arith), u j (omega arith))))
