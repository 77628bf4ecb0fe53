-- ===== src/Server/Settled.antt =====
-- That the threads of server/main.cpp end after `g_shutdown` is set, in whatever order they take turns. A
-- sleep, or a wait for completions, ends by itself and is part of a step.
use mathlib.Core.Path.{subst}
use win_udpsharded_echo.Prelude.{
  ℕ, suc, ◌+◌, ◌*◌, ◌<◌, ◌≤◌, ◌≡◌, refl, sym, List, Bool, true, arith, ◌==◌, ==_iff, Bool-cases,
  inl, inr, ◌⊎◌,
}
use win_udpsharded_echo.SocketUtils.Io.{IoContext, Outcome}
use win_udpsharded_echo.Server.System.{
  Main, starting, started, sleeping, joining_rps, joining, joining_timer, printed, Phase, unborn,
  created, refused, looping, ended, failed, System, IsFresh, Step, spawn, start_timer,
  create_rps_thread, wake, join_rps, join_timer, join, print, signal, fire, tell, printer_ends,
  begin, leave, Reach, later, Printer, absent, over, testing, waiting, Timer, none_set, asleep,
  fired, IsDone, IsOver, IsAwake,
}
use win_udpsharded_echo.Server.Threads.{Reach-Laid, IsBorn, IsPastStart, IsCreated, born, position}
use win_udpsharded_echo.Server.Left.{
  IsWork, work_left, IsLaid, shutdown-Step, work-Step, work_left_le,
}

module _ (sync_reply : Bool) (duration_sec n : ℕ) where
  abbrev pub CanWork : System → Type 0
  CanWork s =
      (t : System) × (step : Step sync_reply duration_sec n s t) × IsWork sync_reply duration_sec n
        step

  -- A run with so many steps of the threads; signals can come in between.
  pub data Works (s : System) : ℕ → System → Type 0 where
    rest : Works s 0 s
    signalled : {k : ℕ} {t : System} → Works s k t → Works s k (record t { shutdown = true })
    works :
        {k : ℕ} {t u : System}
        → Works s k t
        → (step : Step sync_reply duration_sec n t u) → IsWork sync_reply duration_sec n step
        → Works s (suc k) u

  -- A run after the flag is set keeps within what was left to do.
  Works-bounded :
      {s t : System} {k : ℕ}
      → Reach sync_reply duration_sec n s
      → s.shutdown ≡ true
      → Works s k t
      → Reach sync_reply duration_sec n t
        × (t.shutdown ≡ true)
        × (k + work_left n t ≤ work_left n s)
  Works-bounded r b rest = (r, b, omega arith)
  Works-bounded r b (signalled x) =
      let (r', b', l) = Works-bounded r b x in (later r' signal, refl, l)
  Works-bounded r b (works x step w) =
      let (r', b', l) = Works-bounded r b x in
      (
        later r' step,
        shutdown-Step sync_reply duration_sec n step b',
        omega (
          arith,
          l,
          work-Step sync_reply duration_sec n (Reach-Laid sync_reply duration_sec n r') b' step w,
        ),
      )

  module _ (outcomes : List Outcome) (contexts : ℕ → IoContext) (fresh : IsFresh outcomes contexts)
      (s : System) (v : IsLaid sync_reply duration_sec n s) (b : s.shutdown ≡ true) where
    join-CanWork :
        (k : ℕ) (p : Phase) → s.main ≡ joining k → k < n → s.workers k ≡ p → IsBorn p → CanWork s
    join-CanWork k unborn e h q o = elim o [ ]
    join-CanWork k created e h q o = (_, begin k outcomes contexts q fresh, tt)
    join-CanWork k refused e h q o = (_, join k e h (subst IsDone (sym q) tt), tt)
    join-CanWork k (looping os cs w) e h q o = (_, leave k os cs w q b, tt)
    join-CanWork k (ended os cs w) e h q o = (_, join k e h (subst IsDone (sym q) tt), tt)
    join-CanWork k (failed w) e h q o = (_, join k e h (subst IsDone (sym q) tt), tt)

    printer-CanWork : (p : Printer) → s.main ≡ joining_rps → s.printer ≡ p → CanWork s
    printer-CanWork absent e q =
        absurd
          (subst IsCreated q (subst (λ m. IsPastStart m → IsCreated s.printer) e v.has_printer tt))
    printer-CanWork over e q = (_, join_rps e (subst IsOver (sym q) tt), tt)
    printer-CanWork (testing prev) e q = (_, printer_ends prev q b, tt)
    printer-CanWork (waiting prev) e q = (_, tell prev _ q refl, tt)

    timer-CanWork : (t : Timer) → s.main ≡ joining_timer → s.timer ≡ t → CanWork s
    timer-CanWork none_set e q = (_, join_timer e (subst IsAwake (sym q) tt), tt)
    timer-CanWork asleep e q = (_, fire q, tt)
    timer-CanWork fired e q = (_, join_timer e (subst IsAwake (sym q) tt), tt)

    -- Unless the statistics are printed, some thread can take a step.
    at-CanWork : (m : Main) → s.main ≡ m → position m ≤ n → (s.main ≡ printed) ⊎ CanWork s
    at-CanWork (starting k) e h = inr (elim (Bool-cases (k == n)) [
      | inl x ↦ (_, start_timer (subst (λ k. s.main ≡ starting k) ((==_iff k n).0 x) e), tt)
      | inr x ↦ (_, spawn k e (ground (arith, ==_iff k n, x)), tt)
    ])
    at-CanWork started e h = inr (_, create_rps_thread e, tt)
    at-CanWork sleeping e h = inr (_, wake e b, tt)
    at-CanWork joining_rps e h = inr (printer-CanWork s.printer e refl)
    at-CanWork joining_timer e h = inr (timer-CanWork s.timer e refl)
    at-CanWork (joining k) e h = inr (elim (Bool-cases (k == n)) [
      | inl x ↦ (_, print (subst (λ k. s.main ≡ joining k) ((==_iff k n).0 x) e), tt)
      | inr x ↦
          let below : k < n = ground (arith, ==_iff k n, x) in
          join-CanWork k (s.workers k) e below refl
            (subst (λ m. k < born n m → IsBorn (s.workers k)) e (v.good k).0 below)
    ])
    at-CanWork printed e h = inl e

  -- After `g_shutdown` is set, whatever the order in which the threads take turns and whatever comes of
  -- it, the threads of a server with `n` workers take at most 6 n + 11 steps in all, and as long as the
  -- final statistics are not printed, one of them can take a step. Workers that have not begun get
  -- contexts as their constructor leaves them.
  pub Works-settles :
      (outcomes : List Outcome) (contexts : ℕ → IoContext) {s t : System} {k : ℕ}
      → IsFresh outcomes contexts
      → Reach sync_reply duration_sec n s
      → s.shutdown ≡ true
      → Works s k t
      → (k ≤ 6 * n + 11) × ((t.main ≡ printed) ⊎ CanWork t)
  Works-settles outcomes contexts {s} {t} f r b x =
      let (r', b', l) = Works-bounded r b x in
      let v = Reach-Laid sync_reply duration_sec n r' in
      (
        omega (arith, l, work_left_le sync_reply duration_sec n s),
        at-CanWork outcomes contexts f t v b' t.main refl v.in_range,
      )
