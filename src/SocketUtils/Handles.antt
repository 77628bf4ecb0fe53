-- ===== src/SocketUtils/Handles.antt =====
-- What the actions of Calls leave open.
use mathlib.Core.List.{append_assoc}
use win_udpsharded_echo.Prelude.{
  ℕ, suc, ◌+◌, ◌-◌, ◌≤◌, ◌<◌, ◌≡◌, refl, sym, ap, ◌∙◌, List, [], ◌∷◌, ◌++◌, arith, length,
}
use win_udpsharded_echo.SocketUtils.Contexts.{remove, count, count-remove}
use win_udpsharded_echo.SocketUtils.Calls.{
  Call, Result, ok, thrown, World, Action, ◌>>=◌, ◌>>◌, apply, scope, reset_socket, reset_port,
}

-- The handles `l'` are those of `l` and `more`, each as often as in both.
abbrev pub Adds : List ℕ → List ℕ → List ℕ → Type 0
Adds more l l' = (h : ℕ) → count h l' ≡ count h l + count h more

-- The scope's objects: first the ports, then the sockets.
abbrev pub close_ports : List ℕ → World → World
close_ports [] w = w
close_ports (p ∷ ps) w = close_ports ps (reset_port p w)

abbrev pub close_sockets : List ℕ → World → World
close_sockets [] w = w
close_sockets (s ∷ ss) w = close_sockets ss (reset_socket s w)

abbrev pub release : List ℕ → List ℕ → World → World
release ss ps w = close_sockets ss (close_ports ps w)

-- An action that owns what another one gave, until the result of both is handed on.
unfoldable pub owning :
    {A B : Type 0} → (A → List ℕ) → (A → List ℕ) → Action A → (A → Action B) → Action (A × B)
owning ss ps m k = m >>= λ a. apply (λ b. (a, b)) (scope (release (ss a) (ps a)) (k a))

pub sockets-close_ports : (ps : List ℕ) (w : World) → (close_ports ps w).sockets ≡ w.sockets
unfolding reset_port
sockets-close_ports [] w = refl
sockets-close_ports (p ∷ ps) w = sockets-close_ports ps (reset_port p w)

pub ports-close_sockets : (ss : List ℕ) (w : World) → (close_sockets ss w).ports ≡ w.ports
unfolding reset_socket
ports-close_sockets [] w = refl
ports-close_sockets (s ∷ ss) w = ports-close_sockets ss (reset_socket s w)

pub count-close_ports :
    (h : ℕ) (ps : List ℕ) (w : World)
    → count h (close_ports ps w).ports ≡ count h w.ports - count h ps
unfolding reset_port
count-close_ports h [] w = omega arith
count-close_ports h (p ∷ ps) w =
    ground (arith, count-close_ports h ps (reset_port p w), count-remove p h w.ports)

pub count-close_sockets :
    (h : ℕ) (ss : List ℕ) (w : World)
    → count h (close_sockets ss w).sockets ≡ count h w.sockets - count h ss
unfolding reset_socket
count-close_sockets h [] w = omega arith
count-close_sockets h (s ∷ ss) w =
    ground (arith, count-close_sockets h ss (reset_socket s w), count-remove s h w.sockets)

-- What an action promises of its result: a property, the sockets and the ports that it opens, and the
-- calls that it makes; and how many ports it may lose by an exception.
pub record Spec (A : Type 0) : Type 1 where
  pub good : A → Type 0
  pub sockets : A → List ℕ
  pub ports : A → List ℕ
  pub calls : A → List Call
  pub lost : ℕ

-- How it ends from a state `w`: with an exception, all is closed but the ports that are lost.
abbrev pub Leaves : {A : Type 0} → Spec A → World → Result A × World → Type 0
Leaves x w (ok a, w') =
    x.good a
    × Adds (x.sockets a) w.sockets w'.sockets
    × Adds (x.ports a) w.ports w'.ports
    × (w'.calls ≡ w.calls ++ x.calls a)
Leaves x w (thrown e, w') =
    Adds [] w.sockets w'.sockets
    × ((lost : List ℕ) × (length lost ≤ x.lost) × Adds lost w.ports w'.ports)

pub record Keeps {A : Type 0} (x : Spec A) (m : Action A) : Type 0 where
  pub at : (w : World) → Leaves x w (m w)

-- A result that holds the same handles, made by the same calls.
pub record Same {A B : Type 0} (x : Spec A) (y : Spec B) (f : A → B) : Type 0 where
  pub good_if : (a : A) → x.good a → y.good (f a)
  pub same_sockets : (a : A) (h : ℕ) → count h (y.sockets (f a)) ≡ count h (x.sockets a)
  pub same_ports : (a : A) (h : ℕ) → count h (y.ports (f a)) ≡ count h (x.ports a)
  pub same_calls : (a : A) → x.good a → y.calls (f a) ≡ x.calls a
  pub no_more_lost : x.lost ≤ y.lost

module _ {A B : Type 0} (x : Spec A) (y : Spec B) (f : A → B) (same : Same x y f) where
  Leaves-apply :
      (w : World) (r : Result A) (w' : World)
      → Leaves x w (r, w')
      → Leaves y w (elim r [ ok a ↦ (ok (f a), w') | thrown e ↦ (thrown e, w') ])
  Leaves-apply w (ok a) w' (q, s, p, c) = (
    same.good_if a q,
    λ h. omega (arith, s h, same.same_sockets a h),
    λ h. omega (arith, p h, same.same_ports a h),
    c ∙ ap (λ l. w.calls ++ l) (sym (same.same_calls a q)),
  )
  Leaves-apply w (thrown e) w' (s, (lost, few, p)) =
      (s, (lost, omega (arith, few, same.no_more_lost), p))

  pub Keeps-apply : {m : Action A} → Keeps x m → Keeps y (apply f m)
  Keeps-apply {m} k = record { at = λ w. let (r, w') = m w in Leaves-apply w r w' (k.at w) }

pub count-append : (h : ℕ) (xs ys : List ℕ) → count h (xs ++ ys) ≡ count h xs + count h ys
count-append h [] ys = omega arith
count-append h (x ∷ xs) ys = omega (arith, count-append h xs ys)

-- What the two actions of `owning` promise together.
abbrev pub pair : {A B : Type 0} → Spec A → (A → Spec B) → ℕ → Spec (A × B)
pair x y n = record {
  good = λ (a, b). x.good a × (y a).good b;
  sockets = λ (a, b). x.sockets a ++ (y a).sockets b;
  ports = λ (a, b). x.ports a ++ (y a).ports b;
  calls = λ (a, b). x.calls a ++ (y a).calls b;
  lost = n;
}

module _ {A B : Type 0} (x : Spec A) (y : A → Spec B) (n : ℕ) (few : x.lost ≤ n)
    (few_then : (a : A) → (y a).lost ≤ n) where
  Leaves-second :
      (w : World) (a : A) (w₁ : World) (r : Result B) (w₂ : World)
      → Leaves x w (ok a, w₁)
      → Leaves (y a) w₁ (r, w₂)
      → Leaves
          (pair x y n)
          w
          (apply (λ b. (a, b)) (scope (release (x.sockets a) (x.ports a)) (λ _. (r, w₂))) w₁)
  unfolding scope
  Leaves-second w a w₁ (ok b) w₂ (q, s, p, c) (q', s', p', c') = (
    (q, q'),
    λ h. omega (arith, s h, s' h, count-append h (x.sockets a) ((y a).sockets b)),
    λ h. omega (arith, p h, p' h, count-append h (x.ports a) ((y a).ports b)),
    rw (c', c) (append_assoc w.calls (x.calls a) ((y a).calls b)),
  )
  Leaves-second w a w₁ (thrown e) w₂ (q, s, p, c) (s', (lost, fewer, p')) =
      let w₃ = close_ports (x.ports a) w₂ in
      (
        λ h. omega (
          arith,
          s h,
          s' h,
          count-close_sockets h (x.sockets a) w₃,
          ap (count h) (sockets-close_ports (x.ports a) w₂),
        ),
        (
          lost,
          omega (arith, fewer, few_then a),
          λ h. omega (
            arith,
            p h,
            p' h,
            count-close_ports h (x.ports a) w₂,
            ap (count h) (ports-close_sockets (x.sockets a) w₃),
          ),
        ),
      )

  Leaves-first :
      (k : A → Action B) (w : World) (r : Result A) (w₁ : World)
      → ((a : A) → x.good a → Keeps (y a) (k a))
      → Leaves x w (r, w₁)
      → Leaves (pair x y n) w (owning x.sockets x.ports (λ _. (r, w₁)) k w)
  unfolding owning scope
  Leaves-first k w (ok a) w₁ keeps l =
      let (r, w₂) = k a w₁ in Leaves-second w a w₁ r w₂ l ((keeps a l.0).at w₁)
  Leaves-first k w (thrown e) w₁ keeps (s, (lost, fewer, p)) = (s, (lost, omega arith, p))

  -- Two actions, of which the second one owns what the first one opened.
  pub Keeps-owning :
      {m : Action A} {k : A → Action B}
      → Keeps x m
      → ((a : A) → x.good a → Keeps (y a) (k a))
      → Keeps (pair x y n) (owning x.sockets x.ports m k)
  unfolding owning
  Keeps-owning {m} {k} first then_ = record {
    at = λ w. let (r, w₁) = m w in Leaves-first k w r w₁ then_ (first.at w);
  }

-- A call that opens nothing.
abbrev pub says : List Call → Spec (Unit {0})
says cs = record { good = λ _. Unit; sockets = λ _. []; ports = λ _. []; calls = λ _. cs; lost = 0 }

-- What comes after such a call.
abbrev pub after : {A : Type 0} → List Call → Spec A → Spec A
after cs x = record x { calls = λ a. cs ++ x.calls a }

module _ {A : Type 0} (cs : List Call) (x : Spec A) where
  Leaves-then :
      (k : Action A) (w : World) (r : Result (Unit {0})) (w₁ : World)
      → Keeps x k
      → Leaves (says cs) w (r, w₁)
      → Leaves (after cs x) w (elim r [ ok a ↦ k w₁ | thrown e ↦ (thrown e, w₁) ])
  Leaves-then k w (ok a) w₁ keeps l = let (r, w₂) = k w₁ in go r w₂ l (keeps.at w₁)
    where
      go :
          (r : Result A) (w₂ : World)
          → Leaves (says cs) w (ok a, w₁)
          → Leaves x w₁ (r, w₂)
          → Leaves (after cs x) w (r, w₂)
      go (ok b) w₂ (q, s, p, c) (q', s', p', c') = (
        q',
        λ h. omega (arith, s h, s' h),
        λ h. omega (arith, p h, p' h),
        rw (c', c) (append_assoc w.calls cs (x.calls b)),
      )
      go (thrown e) w₂ (q, s, p, c) (s', (lost, few, p')) =
          (λ h. omega (arith, s h, s' h), (lost, few, λ h. omega (arith, p h, p' h)))
  Leaves-then k w (thrown e) w₁ keeps (s, (lost, few, p)) = (s, (lost, omega arith, p))

  pub Keeps-then :
      {m : Action (Unit {0})} {k : Action A}
      → Keeps (says cs) m
      → Keeps x k
      → Keeps (after cs x) (m >> k)
  Keeps-then {m} {k} first then_ = record {
    at = λ w. let (r, w₁) = m w in Leaves-then k w r w₁ then_ (first.at w);
  }

pub count-nil : (l : List ℕ) → ((h : ℕ) → count h l ≡ 0) → l ≡ []
count-nil [] z = refl
count-nil (x ∷ l) z = absurd (ground (arith, z x))

length-remove : (h : ℕ) (l : List ℕ) → 0 < count h l → suc (length (remove h l)) ≡ length l
length-remove h [] m = absurd (omega arith)
length-remove h (x ∷ l) m = ground (arith, length-remove h l)

-- Lists that hold the same handles have one length.
pub count-length : (k l : List ℕ) → ((h : ℕ) → count h l ≡ count h k) → length l ≡ length k
count-length [] l e = rw (count-nil l (λ h. omega (arith, e h))) refl
count-length (x ∷ k) l e =
    let shorter = count-length k (remove x l) (λ h. ground (arith, e h, count-remove x h l)) in
    omega (arith, shorter, length-remove x l (ground (arith, e x)))
