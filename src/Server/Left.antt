-- ===== src/Server/Left.antt =====
-- What the threads of server/main.cpp still have to do after `g_shutdown` is set.
use mathlib.Core.Path.{subst}
use win_udpsharded_echo.Prelude.{
  update, total, total-update, total_le, if◌then◌else◌, ltb, ℕ, ◌+◌, ◌-◌, ◌*◌, ◌<◌, ◌≤◌, ◌≡◌, refl,
  sym, ap, Bool, true, false, arith,
}
use win_udpsharded_echo.Server.Worker.{start}
use win_udpsharded_echo.Server.System.{
  Main, starting, started, sleeping, joining_rps, joining, joining_timer, printed, Phase, unborn,
  created, refused, looping, ended, failed, System, Step, spawn, start_timer, create_rps_thread,
  wake, join_rps, join_timer, join, print, signal, fire, doze, tell, printer_ends, begin, refuse,
  turn, fail, leave, Printer, absent, over, testing, waiting, Timer, none_set, asleep, fired,
}
use win_udpsharded_echo.Server.Threads.{Laid, IsBorn, born, position}

-- A bound for the steps that each thread still takes.
abbrev main_left : ℕ → Main → ℕ
main_left n (starting k) = n + 8 + 3 * (n - k)
main_left n started = n + 6
main_left n sleeping = n + 4
main_left n joining_rps = n + 3
main_left n joining_timer = n + 2
main_left n (joining k) = 1 + (n - k)
main_left n printed = 0

abbrev printer_left : Printer → ℕ
printer_left absent = 0
printer_left over = 0
printer_left (testing prev) = 1
printer_left (waiting prev) = 2

abbrev timer_left : Timer → ℕ
timer_left none_set = 0
timer_left asleep = 1
timer_left fired = 0

abbrev phase_left : Phase → ℕ
phase_left created = 2
phase_left (looping outcomes contexts w) = 1
phase_left _ = 0

timer_left_le : (t : Timer) → timer_left t ≤ 1
timer_left_le none_set = omega arith
timer_left_le asleep = omega arith
timer_left_le fired = omega arith

phase_left_le : (p : Phase) → phase_left p ≤ 2
phase_left_le created = omega arith
phase_left_le (looping outcomes contexts w) = omega arith
phase_left_le unborn = omega arith
phase_left_le refused = omega arith
phase_left_le (ended outcomes contexts w) = omega arith
phase_left_le (failed w) = omega arith

main_left_le : (n : ℕ) (m : Main) → main_left n m ≤ 4 * n + 8
main_left_le n (starting k) = omega arith
main_left_le n started = omega arith
main_left_le n sleeping = omega arith
main_left_le n joining_rps = omega arith
main_left_le n joining_timer = omega arith
main_left_le n (joining k) = omega arith
main_left_le n printed = omega arith

printer_left_le : (p : Printer) → printer_left p ≤ 2
printer_left_le absent = omega arith
printer_left_le over = omega arith
printer_left_le (testing prev) = omega arith
printer_left_le (waiting prev) = omega arith

abbrev pub work_left : ℕ → System → ℕ
work_left n s =
    main_left n s.main + printer_left s.printer + timer_left s.timer + total phase_left s.workers n

module _ (sync_reply : Bool) (duration_sec n : ℕ) where
  -- A step of one of the threads, which all but the coming of a signal are.
  abbrev pub IsWork : {s t : System} → Step sync_reply duration_sec n s t → Type 0
  IsWork signal = ⊥
  IsWork _ = Unit

  abbrev pub IsLaid : System → Type 0
  IsLaid s = Laid sync_reply duration_sec n s.main s.printer s.workers

  pub shutdown-Step :
      {s t : System} → Step sync_reply duration_sec n s t → s.shutdown ≡ true → t.shutdown ≡ true
  shutdown-Step (spawn k e h) b = b
  shutdown-Step (start_timer e) b = b
  shutdown-Step (create_rps_thread e) b = b
  shutdown-Step (wake e h) b = b
  shutdown-Step (join_rps e o) b = b
  shutdown-Step (join_timer e a) b = b
  shutdown-Step (join k e h d) b = b
  shutdown-Step (print e) b = b
  shutdown-Step signal b = refl
  shutdown-Step (fire e) b = refl
  shutdown-Step (doze prev e h) b = b
  shutdown-Step (tell prev total_recv e h) b = b
  shutdown-Step (printer_ends prev e h) b = b
  shutdown-Step (begin i outcomes contexts e f) b = b
  shutdown-Step (refuse i e) b = refl
  shutdown-Step (turn i batch outcomes contexts w w' e g o q) b = b
  shutdown-Step (fail i batch outcomes contexts w w' e g q) b = refl
  shutdown-Step (leave i outcomes contexts w e g) b = b

  not_both : {b : Bool} → b ≡ true → b ≡ false → ⊥
  not_both t f = absurd (ground (arith, t, f))

  born_le : (m : Main) → position m ≤ n → born n m ≤ n
  born_le (starting k) h = h
  born_le started h = omega arith
  born_le sleeping h = omega arith
  born_le joining_rps h = omega arith
  born_le joining_timer h = omega arith
  born_le (joining k) h = omega arith
  born_le printed h = omega arith

  -- A worker that has a thread, and goes on to a phase with less to do.
  worker_less :
      (s : System) (i : ℕ) (p q : Phase)
      → IsLaid s
      → s.workers i ≡ p
      → IsBorn p
      → phase_left q < phase_left p
      → total phase_left (update i q s.workers) n < total phase_left s.workers n
  worker_less s i p q v e b l =
      let below : i < n =
        omega (arith, (v.good i).1 (subst IsBorn (sym e) b), born_le s.main v.in_range) in
      omega (arith, total-update phase_left s.workers n i q below, ap phase_left e)

  pub work-Step :
      {s t : System}
      → IsLaid s
      → s.shutdown ≡ true
      → (step : Step sync_reply duration_sec n s t) → IsWork step
      → work_left n t < work_left n s
  work-Step {s} v b (spawn k e h) w =
      omega (arith, total-update phase_left s.workers n k created h, ap (main_left n) e)
  work-Step {s} v b (start_timer e) w =
      omega
        (arith, timer_left_le (if ltb 0 duration_sec then asleep else none_set), ap (main_left n) e)
  work-Step {s} v b (create_rps_thread e) w = omega (arith, ap (main_left n) e)
  work-Step {s} v b (wake e h) w = omega (arith, ap (main_left n) e)
  work-Step {s} v b (join_rps e o) w = omega (arith, ap (main_left n) e)
  work-Step {s} v b (join_timer e a) w = omega (arith, ap (main_left n) e)
  work-Step {s} v b (join k e h d) w = omega (arith, ap (main_left n) e)
  work-Step {s} v b (print e) w = omega (arith, ap (main_left n) e)
  work-Step v b signal w = elim w [ ]
  work-Step {s} v b (fire e) w = omega (arith, ap timer_left e)
  work-Step v b (doze prev e h) w = absurd (not_both b h)
  work-Step {s} v b (tell prev total_recv e h) w = omega (arith, ap printer_left e)
  work-Step {s} v b (printer_ends prev e h) w = omega (arith, ap printer_left e)
  work-Step {s} v b (begin i outcomes contexts e f) w = omega (
    arith,
    worker_less s i created (looping outcomes contexts (start outcomes contexts)) v e tt
        (omega arith),
  )
  work-Step {s} v b (refuse i e) w =
      omega (arith, worker_less s i created refused v e tt (omega arith))
  work-Step v b (turn i batch outcomes contexts w₁ w' e g o q) w = absurd (not_both b g)
  work-Step v b (fail i batch outcomes contexts w₁ w' e g q) w = absurd (not_both b g)
  work-Step {s} v b (leave i outcomes contexts w₁ e g) w = omega (
    arith,
    worker_less s i (looping outcomes contexts w₁) (ended outcomes contexts w₁) v e tt
        (omega arith),
  )

  pub work_left_le : (s : System) → work_left n s ≤ 6 * n + 11
  work_left_le s = omega (
    arith,
    main_left_le n s.main,
    printer_left_le s.printer,
    timer_left_le s.timer,
    total_le phase_left s.workers 2 n phase_left_le,
  )
