-- ===== src/Client/Left.antt =====
-- What the threads of client/main.cpp still have to do after `g_shutdown` is set.
use mathlib.Core.Path.{subst}
use win_udpsharded_echo.Prelude.{
  update, update-All, total, total-update, total_le, ℕ, ◌+◌, ◌-◌, ◌*◌, ◌<◌, ◌≤◌, ◌≡◌, refl, sym, ap,
  [], Bool, true, false, ◌||◌, arith,
}
use win_udpsharded_echo.Float.{Double}
use win_udpsharded_echo.Cc.{Controller}
use win_udpsharded_echo.Client.Worker.{Config}
use win_udpsharded_echo.Client.Loop.{launch}
use win_udpsharded_echo.Client.System.{
  Main, starting, resetting, joining, running, stopping, merging, printed, Phase, unborn, refused,
  created, waiting, failed, looping, ended, System, reset_phase, Step, spawn, start_all, reset_one,
  measure, end_run, request, join, join_merger, print, signal, merger_ends, begin, refuse, go, turn,
  fail, leave, Reach, start, later,
}
use win_udpsharded_echo.Client.Printed.{IsBorn}

-- A bound for the steps that each thread still takes.
abbrev main_left : ℕ → Main → ℕ
main_left n (starting k) = 2 * n + 6 + 4 * (n - k)
main_left n (resetting k) = n + 5 + (n - k)
main_left n running = n + 4
main_left n stopping = n + 3
main_left n (joining k) = 2 + (n - k)
main_left n merging = 1
main_left n printed = 0

abbrev merger_left : Bool → ℕ
merger_left true = 0
merger_left false = 1

abbrev phase_left : {F C : Type 0} → Phase F C → ℕ
phase_left (created p) = 3
phase_left (waiting c) = 2
phase_left (looping c h) = 1
phase_left _ = 0

phase_left_le : {F C : Type 0} (p : Phase F C) → phase_left p ≤ 3
phase_left_le unborn = omega arith
phase_left_le refused = omega arith
phase_left_le (created p) = omega arith
phase_left_le (waiting c) = omega arith
phase_left_le (failed c) = omega arith
phase_left_le (looping c h) = omega arith
phase_left_le (ended c h) = omega arith

main_left_le : (n : ℕ) (m : Main) → main_left n m ≤ 6 * n + 6
main_left_le n (starting k) = omega arith
main_left_le n (resetting k) = omega arith
main_left_le n running = omega arith
main_left_le n stopping = omega arith
main_left_le n (joining k) = omega arith
main_left_le n merging = omega arith
main_left_le n printed = omega arith

merger_left_le : (b : Bool) → merger_left b ≤ 1
merger_left_le true = omega arith
merger_left_le false = omega arith

module _ {F C : Type 0} ⦃d : Double F⦄ (controller : Controller F C) (configs : ℕ → Config)
    (n : ℕ) where
  abbrev pub work_left : System F C → ℕ
  work_left s = main_left n s.main + merger_left s.merger_ended + total phase_left s.workers n

  pub work_left_le : (s : System F C) → work_left s ≤ 9 * n + 7
  work_left_le s = omega (
    arith,
    main_left_le n s.main,
    merger_left_le s.merger_ended,
    total_le phase_left s.workers 3 n phase_left_le,
  )

  -- A step of one of the threads, which all but the coming of a signal are.
  abbrev pub IsWork : {s t : System F C} → Step controller configs n s t → Type 0
  IsWork signal = ⊥
  IsWork _ = Unit

  -- Only the threads of `n` workers are ever started.
  abbrev pub IsInRange : System F C → Type 0
  IsInRange s = (i : ℕ) → IsBorn (s.workers i) → i < n

  IsInRange-update :
      (s : System F C) (i : ℕ) (p q : Phase F C)
      → s.workers i ≡ p
      → IsBorn p
      → IsInRange s
      → (j : ℕ) → IsBorn (update i q s.workers j)
      → j < n
  IsInRange-update s i p q e b v =
      update-All (λ j p. IsBorn p → j < n) i q s.workers (λ _. v i (subst IsBorn (sym e) b))
        (λ j _. v j)

  IsBorn-reset_phase :
      (i now : ℕ) (p : Phase F C) → IsBorn (reset_phase controller configs n i now p) → IsBorn p
  unfolding reset_phase
  IsBorn-reset_phase i now unborn b = b
  IsBorn-reset_phase i now refused b = b
  IsBorn-reset_phase i now (created p) b = b
  IsBorn-reset_phase i now (waiting c) b = b
  IsBorn-reset_phase i now (failed c) b = b
  IsBorn-reset_phase i now (looping c h) b = b
  IsBorn-reset_phase i now (ended c h) b = b

  IsInRange-Step : {s t : System F C} → Step controller configs n s t → IsInRange s → IsInRange t
  IsInRange-Step {s} (spawn k pacer e h) v =
      update-All (λ j p. IsBorn p → j < n) k (created pacer) s.workers (λ _. h) (λ j _. v j)
  IsInRange-Step (start_all e) v = v
  IsInRange-Step {s} (reset_one k now e h) v =
      update-All (λ j p. IsBorn p → j < n) k (reset_phase controller configs n k now (s.workers k))
        s.workers (λ _. h) (λ j _. v j)
  IsInRange-Step (measure e) v = v
  IsInRange-Step (end_run e) v = v
  IsInRange-Step (request e) v = v
  IsInRange-Step (join k e h d) v = v
  IsInRange-Step (join_merger e h) v = v
  IsInRange-Step (print e) v = v
  IsInRange-Step signal v = v
  IsInRange-Step (merger_ends h m) v = v
  IsInRange-Step {s} (begin i pacer outcomes contexts e f) v = IsInRange-update s i _ _ e tt v
  IsInRange-Step {s} (refuse i pacer e) v = IsInRange-update s i _ _ e tt v
  IsInRange-Step {s} (go i c e g) v = IsInRange-update s i _ _ e tt v
  IsInRange-Step {s} (turn i t c c' h notes e g q m) v = IsInRange-update s i _ _ e tt v
  IsInRange-Step {s} (fail i t c c' h e g q) v = IsInRange-update s i _ _ e tt v
  IsInRange-Step {s} (leave i c h e g) v = IsInRange-update s i _ _ e tt v

  pub Reach-IsInRange : {s : System F C} → Reach controller configs n s → IsInRange s
  Reach-IsInRange start = λ i b. elim b [ ]
  Reach-IsInRange (later r e) = IsInRange-Step e (Reach-IsInRange r)

  pub shutdown-Step :
      {s t : System F C} → Step controller configs n s t → s.shutdown ≡ true → t.shutdown ≡ true
  shutdown-Step (spawn k pacer e h) b = b
  shutdown-Step (start_all e) b = b
  shutdown-Step (reset_one k now e h) b = b
  shutdown-Step (measure e) b = b
  shutdown-Step (end_run e) b = b
  shutdown-Step (request e) b = refl
  shutdown-Step (join k e h d) b = b
  shutdown-Step (join_merger e h) b = b
  shutdown-Step (print e) b = b
  shutdown-Step signal b = refl
  shutdown-Step (merger_ends h m) b = b
  shutdown-Step (begin i pacer outcomes contexts e f) b = b
  shutdown-Step (refuse i pacer e) b = refl
  shutdown-Step (go i c e g) b = b
  shutdown-Step (turn i t c c' h notes e g q m) b = b
  shutdown-Step (fail i t c c' h e g q) b = refl
  shutdown-Step (leave i c h e g) b = b

  -- A worker that has a thread, and goes on to a phase with less to do.
  worker_less :
      (s : System F C) (i : ℕ) (p q : Phase F C)
      → IsInRange s
      → s.workers i ≡ p
      → IsBorn p
      → phase_left q < phase_left p
      → total phase_left (update i q s.workers) n < total phase_left s.workers n
  worker_less s i p q v e b l = omega (
    arith,
    total-update phase_left s.workers n i q (v i (subst IsBorn (sym e) b)),
    ap phase_left e,
  )

  same_left :
      (i now : ℕ) (p : Phase F C)
      → phase_left (reset_phase controller configs n i now p) ≡ phase_left p
  unfolding reset_phase
  same_left i now unborn = refl
  same_left i now refused = refl
  same_left i now (created p) = refl
  same_left i now (waiting c) = refl
  same_left i now (failed c) = refl
  same_left i now (looping c h) = refl
  same_left i now (ended c h) = refl

  not_stopped : {b : Bool} (c : Bool) → b ≡ true → (b || c) ≡ false → ⊥
  not_stopped c t f = absurd (ground (arith, t, f))

  pub work-Step :
      {s t : System F C}
      → IsInRange s
      → s.shutdown ≡ true
      → (step : Step controller configs n s t) → IsWork step
      → work_left t < work_left s
  work-Step {s} v b (spawn k pacer e h) w =
      omega (arith, total-update phase_left s.workers n k (created pacer) h, ap (main_left n) e)
  work-Step v b (start_all e) w = omega (arith, ap (main_left n) e)
  work-Step {s} v b (reset_one k now e h) w =
      let p = s.workers k in
      omega (
        arith,
        total-update phase_left s.workers n k (reset_phase controller configs n k now p) h,
        same_left k now p,
        ap (main_left n) e,
      )
  work-Step v b (measure e) w = omega (arith, ap (main_left n) e)
  work-Step v b (end_run e) w = omega (arith, ap (main_left n) e)
  work-Step v b (request e) w = omega (arith, ap (main_left n) e)
  work-Step v b (join k e h d) w = omega (arith, ap (main_left n) e)
  work-Step v b (join_merger e h) w = omega (arith, ap (main_left n) e)
  work-Step v b (print e) w = omega (arith, ap (main_left n) e)
  work-Step v b signal w = elim w [ ]
  work-Step v b (merger_ends h m) w = omega (arith, ap merger_left m)
  work-Step {s} v b (begin i pacer outcomes contexts e f) w =
      let c = launch controller (configs i) pacer outcomes contexts in
      omega (arith, worker_less s i (created pacer) (waiting c) v e tt (omega arith))
  work-Step {s} v b (refuse i pacer e) w =
      omega (arith, worker_less s i (created pacer) refused v e tt (omega arith))
  work-Step {s} v b (go i c e g) w =
      omega (arith, worker_less s i (waiting c) (looping c []) v e tt (omega arith))
  work-Step v b (turn i t c c' h notes e g q m) w = absurd (not_stopped _ b g)
  work-Step v b (fail i t c c' h e g q) w = absurd (not_stopped _ b g)
  work-Step {s} v b (leave i c h e g) w =
      omega (arith, worker_less s i (looping c h) (ended c h) v e tt (omega arith))
