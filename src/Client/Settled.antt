-- ===== src/Client/Settled.antt =====
-- That the threads of client/main.cpp end after `g_shutdown` is set, in whatever order they take turns. A
-- sleep, or a wait for completions, ends by itself and is part of a step.
use mathlib.Core.Path.{subst}
use win_udpsharded_echo.Prelude.{
  ℕ, suc, ◌+◌, ◌*◌, ◌<◌, ◌≤◌, ◌≡◌, refl, sym, Bool, ◌||◌, true, false, arith, ◌==◌, ==_iff,
  Bool-cases, inl, inr, ◌⊎◌,
}
use win_udpsharded_echo.Float.{Double}
use win_udpsharded_echo.Cc.{Controller}
use win_udpsharded_echo.Pacer.{Pacer}
use win_udpsharded_echo.SocketUtils.Io.{IoContext, Outcome}
use win_udpsharded_echo.Client.Worker.{Config}
use win_udpsharded_echo.Client.Reach.{IsFresh}
use win_udpsharded_echo.Client.System.{
  Main, starting, resetting, joining, running, stopping, merging, printed, Phase, unborn, refused,
  created, waiting, failed, looping, ended, System, IsDone, Step, spawn, start_all, reset_one,
  measure, end_run, request, join, join_merger, print, signal, merger_ends, begin, go, leave, Reach,
  later,
}
use win_udpsharded_echo.Client.Printed.{Inv, Reach-Inv, IsBorn, position, born}
use win_udpsharded_echo.Client.Left.{
  IsWork, work_left, work_left_le, Reach-IsInRange, shutdown-Step, work-Step,
}

or_true : (b : Bool) → (b || true) ≡ true
or_true true = refl
or_true false = refl

module _ {F C : Type 0} ⦃d : Double F⦄ (controller : Controller F C) (configs : ℕ → Config)
    (n : ℕ) where
  abbrev pub CanWork : System F C → Type 0
  CanWork s =
      (t : System F C) × (step : Step controller configs n s t) × IsWork controller configs n step

  -- A run with so many steps of the threads; signals can come in between.
  pub data Works (s : System F C) : ℕ → System F C → Type 0 where
    rest : Works s 0 s
    signalled : {k : ℕ} {t : System F C} → Works s k t → Works s k (record t { shutdown = true })
    works :
        {k : ℕ} {t u : System F C}
        → Works s k t
        → (step : Step controller configs n t u) → IsWork controller configs n step
        → Works s (suc k) u

  -- A run after the flag is set keeps within what was left to do.
  Works-bounded :
      {s t : System F C} {k : ℕ}
      → Reach controller configs n s
      → s.shutdown ≡ true
      → Works s k t
      → Reach controller configs n t
        × (t.shutdown ≡ true)
        × (k + work_left controller configs n t ≤ work_left controller configs n s)
  Works-bounded r b rest = (r, b, omega arith)
  Works-bounded r b (signalled x) =
      let (r', b', l) = Works-bounded r b x in (later r' signal, refl, l)
  Works-bounded r b (works x step w) =
      let (r', b', l) = Works-bounded r b x in
      let less =
        work-Step controller configs n (Reach-IsInRange controller configs n r') b' step w in
      (later r' step, shutdown-Step controller configs n step b', omega (arith, l, less))

  module _ (outcomes : ℕ → Outcome) (contexts : ℕ → IoContext) (fresh : IsFresh contexts)
      (pacer : Pacer F C) (s : System F C) (v : Inv controller configs n s.main s.workers)
      (b : s.shutdown ≡ true) where
    join-CanWork :
        (k : ℕ) (p : Phase F C)
        → s.main ≡ joining k
        → k < n
        → s.workers k ≡ p
        → IsBorn p
        → CanWork s
    join-CanWork k unborn e h q o = elim o [ ]
    join-CanWork k refused e h q o = (_, join k e h (subst IsDone (sym q) tt), tt)
    join-CanWork k (created p) e h q o = (_, begin k p outcomes contexts q fresh, tt)
    join-CanWork k (waiting c) e h q o = (_, go k c q (rw b (or_true s.start_sending)), tt)
    join-CanWork k (failed c) e h q o = (_, join k e h (subst IsDone (sym q) tt), tt)
    join-CanWork k (looping c notes) e h q o = (_, leave k c notes q (rw b refl), tt)
    join-CanWork k (ended c notes) e h q o = (_, join k e h (subst IsDone (sym q) tt), tt)

    merger-CanWork : s.main ≡ joining n → CanWork s
    merger-CanWork e = elim (Bool-cases s.merger_ended) [
      | inl m ↦ (_, join_merger e m, tt)
      | inr m ↦ (_, merger_ends b m, tt)
    ]

    -- Unless the statistics are printed, some thread can take a step.
    at-CanWork : (m : Main) → s.main ≡ m → position m ≤ n → (s.main ≡ printed) ⊎ CanWork s
    at-CanWork (starting k) e h = inr (elim (Bool-cases (k == n)) [
      | inl x ↦ (_, start_all (subst (λ k. s.main ≡ starting k) ((==_iff k n).0 x) e), tt)
      | inr x ↦ (_, spawn k pacer e (ground (arith, ==_iff k n, x)), tt)
    ])
    at-CanWork (resetting k) e h = inr (elim (Bool-cases (k == n)) [
      | inl x ↦ (_, measure (subst (λ k. s.main ≡ resetting k) ((==_iff k n).0 x) e), tt)
      | inr x ↦ (_, reset_one k 0 e (ground (arith, ==_iff k n, x)), tt)
    ])
    at-CanWork running e h = inr (_, end_run e, tt)
    at-CanWork stopping e h = inr (_, request e, tt)
    at-CanWork (joining k) e h = inr (elim (Bool-cases (k == n)) [
      | inl x ↦ merger-CanWork (subst (λ k. s.main ≡ joining k) ((==_iff k n).0 x) e)
      | inr x ↦
          let below : k < n = ground (arith, ==_iff k n, x) in
          join-CanWork k (s.workers k) e below refl
            (subst (λ m. k < born n m → IsBorn (s.workers k)) e (v.good k).1 below)
    ])
    at-CanWork merging e h = inr (_, print e, tt)
    at-CanWork printed e h = inl e

  -- After `g_shutdown` is set, by a signal, by a worker's exception or at the end of the run, whatever
  -- the order in which the threads take turns and whatever comes of it, the threads of a client with
  -- `n` workers take at most 9 n + 7 steps in all, and as long as the final statistics are not printed,
  -- one of them can take a step. Workers that have not begun get contexts as their constructor leaves
  -- them.
  pub Works-settles-all :
      (outcomes : ℕ → Outcome) (contexts : ℕ → IoContext) (pacer : Pacer F C) {s t : System F C}
      {k : ℕ}
      → IsFresh contexts
      → Reach controller configs n s
      → s.shutdown ≡ true
      → Works s k t
      → (k ≤ 9 * n + 7) × ((t.main ≡ printed) ⊎ CanWork t)
  Works-settles-all outcomes contexts pacer {s} {t} f r b x =
      let (r', b', l) = Works-bounded r b x in
      let v = Reach-Inv controller configs n r' in
      (
        omega (arith, l, work_left_le controller configs n s),
        at-CanWork outcomes contexts f pacer t v b' t.main refl v.in_range,
      )
