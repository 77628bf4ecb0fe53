-- ===== src/Server/Threads.antt =====
-- Which threads of server/main.cpp there are, by where `main` is.
use mathlib.Core.Path.{subst}
use win_udpsharded_echo.Prelude.{update, update-All, ℕ, suc, ◌<◌, ◌≤◌, ◌≡◌, refl, sym, Bool, arith}
use win_udpsharded_echo.Server.System.{
  Main, starting, started, joining, Phase, unborn, created, System, Step, spawn, start_timer,
  create_rps_thread, wake, join_rps, join_timer, join, print, signal, fire, doze, tell,
  printer_ends, begin, refuse, turn, fail, leave, Reach, at_first, later, Printer, absent,
}

-- The threads of the workers below this number have been started, of `n`.
abbrev pub born : ℕ → Main → ℕ
born n (starting k) = k
born n _ = n

-- `main` has gone through no more than `n` workers in its loop.
abbrev pub position : Main → ℕ
position (starting k) = k
position (joining k) = k
position _ = 0

abbrev pub IsBorn : Phase → Type 0
IsBorn unborn = ⊥
IsBorn _ = Unit

abbrev pub IsPastStart : Main → Type 0
IsPastStart (starting k) = ⊥
IsPastStart started = ⊥
IsPastStart _ = Unit

abbrev pub IsCreated : Printer → Type 0
IsCreated absent = ⊥
IsCreated _ = Unit

module _ (sync_reply : Bool) (duration_sec n : ℕ) where
  abbrev IsGood : Main → ℕ → Phase → Type 0
  IsGood m i p = (i < born n m → IsBorn p) × (IsBorn p → i < born n m)

  pub record Laid (m : Main) (printer : Printer) (phases : ℕ → Phase) : Type 0 where
    pub in_range : position m ≤ n
    pub has_printer : IsPastStart m → IsCreated printer
    pub good : (i : ℕ) → IsGood m i (phases i)

  abbrev IsLaid : System → Type 0
  IsLaid s = Laid s.main s.printer s.workers

  -- A thread goes on.
  Laid-update :
      (s : System) (i : ℕ) (p q : Phase)
      → s.workers i ≡ p
      → IsBorn p
      → IsBorn q
      → IsLaid s
      → Laid s.main s.printer (update i q s.workers)
  Laid-update s i p q e b b' v = record {
    in_range = v.in_range;
    has_printer = v.has_printer;
    good =
        update-All (IsGood s.main) i q s.workers
          ((λ _. b'), (λ _. (v.good i).1 (subst IsBorn (sym e) b))) (λ j _. v.good j);
  }

  -- `main` goes on, with all threads of workers started.
  Laid-main :
      (s : System) {m m' : Main} {printer : Printer}
      → s.main ≡ m
      → born n m' ≡ born n m
      → position m' ≤ n
      → (IsPastStart m' → IsCreated printer)
      → IsLaid s
      → Laid m' printer s.workers
  Laid-main s e b p c v = record {
    in_range = p;
    has_printer = c;
    good = λ i. rw b (subst (λ m. IsGood m i (s.workers i)) e (v.good i));
  }

  -- The printing thread goes on.
  Laid-printer : (s : System) {p : Printer} → IsCreated p → IsLaid s → Laid s.main p s.workers
  Laid-printer s c v = record { in_range = v.in_range; has_printer = λ _. c; good = v.good }

  printer_of : (s : System) {m : Main} → s.main ≡ m → IsPastStart m → IsLaid s → IsCreated s.printer
  printer_of s e h v = subst (λ m. IsPastStart m → IsCreated s.printer) e v.has_printer h

  Laid-spawn :
      (s : System) (k : ℕ)
      → s.main ≡ starting k
      → k < n
      → IsLaid s
      → Laid (starting (suc k)) s.printer (update k created s.workers)
  Laid-spawn s k e h v = record {
    in_range = h;
    has_printer = λ x. absurd x;
    good =
        update-All (IsGood (starting (suc k))) k created s.workers ((λ _. tt), (λ _. omega arith))
          (λ j d.
            let (x, y) = subst (λ m. IsGood m j (s.workers j)) e (v.good j) in
            ((λ l. x (omega (arith, l, d))), (λ b. omega (arith, y b))));
  }

  Laid-Step : {s t : System} → Step sync_reply duration_sec n s t → IsLaid s → IsLaid t
  Laid-Step {s} (spawn k e h) v = Laid-spawn s k e h v
  Laid-Step {s} (start_timer e) v = Laid-main s e refl (omega arith) (λ x. absurd x) v
  Laid-Step {s} (create_rps_thread e) v = Laid-main s e refl (omega arith) (λ x. tt) v
  Laid-Step {s} (wake e h) v = Laid-main s e refl (omega arith) (λ x. printer_of s e tt v) v
  Laid-Step {s} (join_rps e o) v = Laid-main s e refl (omega arith) (λ x. printer_of s e tt v) v
  Laid-Step {s} (join_timer e a) v = Laid-main s e refl (omega arith) (λ x. printer_of s e tt v) v
  Laid-Step {s} (join k e h d) v = Laid-main s e refl h (λ x. printer_of s e tt v) v
  Laid-Step {s} (print e) v = Laid-main s e refl (omega arith) (λ x. printer_of s e tt v) v
  Laid-Step signal v = v
  Laid-Step (fire e) v = v
  Laid-Step {s} (doze prev e h) v = Laid-printer s tt v
  Laid-Step {s} (tell prev total_recv e h) v = Laid-printer s tt v
  Laid-Step {s} (printer_ends prev e h) v = Laid-printer s tt v
  Laid-Step {s} (begin i outcomes contexts e f) v = Laid-update s i _ _ e tt tt v
  Laid-Step {s} (refuse i e) v = Laid-update s i _ _ e tt tt v
  Laid-Step {s} (turn i batch outcomes contexts w w' e g o q) v = Laid-update s i _ _ e tt tt v
  Laid-Step {s} (fail i batch outcomes contexts w w' e g q) v = Laid-update s i _ _ e tt tt v
  Laid-Step {s} (leave i outcomes contexts w e g) v = Laid-update s i _ _ e tt tt v

  pub Reach-Laid :
      {s : System} → Reach sync_reply duration_sec n s → Laid s.main s.printer s.workers
  Reach-Laid at_first = record {
    in_range = omega arith;
    has_printer = λ x. absurd x;
    good = λ i. ((λ h. absurd (omega arith)), (λ x. absurd x));
  }
  Reach-Laid (later r e) = Laid-Step e (Reach-Laid r)
