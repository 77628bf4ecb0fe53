-- ===== src/Client/Turns.antt =====
-- One round of `worker_thread_func` of client/main.cpp as a sequence of small steps.
use mathlib.Core.Path.{subst}
use mathlib.Core.List.{append_assoc}
use win_udpsharded_echo.Prelude.{
  ℕ, ◌++◌, ◌+◌, ◌≡◌, refl, sym, List, [], ◌∷◌, Option, none, some, Bool-cases, inl, inr,
}
use win_udpsharded_echo.Float.{Double}
use win_udpsharded_echo.Cc.{Controller}
use win_udpsharded_echo.Pacer.{can_send}
use win_udpsharded_echo.SocketUtils.Io.{Io}
use win_udpsharded_echo.Client.Worker.{
  Config, Client, Tick, Completion, Progress, runs, breaks, ◌>>=◌, build_packet, count_send,
  send_packet, check, send_all, take_completion, take_batch, poll_pacer,
}
use win_udpsharded_echo.Client.Loop.{Turn, take_answers, take_turn}
use win_udpsharded_echo.Client.Reach.{Kept, IsDue, IsDelivered, Note, sent, answers, Reached}

module _ {F C : Type 0} ⦃d : Double F⦄ (controller : Controller F C) (config : Config) where
  -- Windows has each context for which an entry of the batch comes, at the time that it is handled,
  -- and reports what it put there.
  abbrev pub IsOrderly : List Completion → Client F C → Type 0
  IsOrderly [] c = Unit {0}
  IsOrderly (e ∷ es) c =
      IsDue e c.io × IsDelivered e × Kept (IsOrderly es) (take_completion controller config e c)

  abbrev pub IsOrderlyBatch : Option (List Completion) → Client F C → Type 0
  IsOrderlyBatch none c = Unit {0}
  IsOrderlyBatch (some es) c = IsOrderly es c

  available-count_send :
      (t : Tick) (i : ℕ) (rest : List ℕ) (c : Client F C) (o : Option Io)
      → Kept
          (λ c'. c'.available ≡ rest)
          (count_send controller config t c.next_sequence
            (build_packet controller config t i rest c)
            o)
  unfolding count_send build_packet
  available-count_send t i rest c none = tt
  available-count_send t i rest c (some io) = refl

  pub Kept-bind :
      (P Q : Client F C → Type 0) (s : Progress F C) (f : Client F C → Progress F C)
      → Kept P s
      → ((c : Client F C) → s ≡ runs c → P c → Kept Q (f c))
      → Kept Q (s >>= f)
  Kept-bind P Q (runs c) f k g = g c refl k
  Kept-bind P Q (breaks c) f k g = tt

  pub Kept-both :
      (P Q : Client F C → Type 0) (s : Progress F C) → Kept P s → Kept Q s → Kept (λ c. P c × Q c) s
  Kept-both P Q (runs c) p q = (p, q)
  Kept-both P Q (breaks c) p q = tt

  -- A property of states that the small steps of a worker keep.
  pub record Closed (P : Client F C → Type 0) : Type 0 where
    pub checked : (now : ℕ) (c : Client F C) → P c → P (check controller config now c)
    pub polled : (now : ℕ) (c : Client F C) → P c → P (poll_pacer controller config now c)
    pub packet :
        (t : Tick) (i : ℕ) (rest : List ℕ) {c : Client F C} (c' : Client F C)
        → P c
        → c.available ≡ i ∷ rest
        → send_packet controller config t i rest c ≡ runs c'
        → P c'
    pub completed :
        (e : Completion) (c c' : Client F C)
        → P c
        → IsDue e c.io
        → IsDelivered e
        → take_completion controller config e c ≡ runs c'
        → P c'

  module _ (P : Client F C → Type 0) (closed : Closed P) where
    send_all-Closed :
        (ticks : ℕ → Tick) (k : ℕ) (free : List ℕ) (c : Client F C)
        → c.available ≡ free
        → P c
        → Kept P (send_all controller config ticks k free c)
    unfolding send_all send_packet check
    send_all-Closed ticks k [] c a r = r
    send_all-Closed ticks k (i ∷ rest) c a r =
        let now = (ticks k).check_ns in
        let r' = closed.checked now c r in
        elim (Bool-cases (can_send controller now c.pacer).1) [
          | inl b ↦
              rw (b, Kept)
                (Kept-bind (λ c'. c'.available ≡ rest) P _ _
                  (available-count_send (ticks k) i rest (check controller config now c) _)
                  (λ c' e a'.
                    send_all-Closed ticks (k + 1) rest c' a'
                      (closed.packet (ticks k) i rest c' r' a e)))
          | inr b ↦ rw (b, Kept) r'
        ]

    take_batch-Closed :
        (es : List Completion) (c : Client F C)
        → IsOrderly es c
        → P c
        → Kept P (take_batch controller config es c)
    unfolding take_batch
    take_batch-Closed [] c o r = r
    take_batch-Closed (e ∷ es) c (due, del, o) r =
        Kept-bind (IsOrderly es) P _ _ o
          (λ c' eq o'. take_batch-Closed es c' o' (closed.completed e c c' r due del eq))

    take_answers-Closed :
        (batch : Option (List Completion)) (now : ℕ) (c : Client F C)
        → IsOrderlyBatch batch (poll_pacer controller config now c)
        → P c
        → Kept P (take_answers controller config batch now c)
    unfolding take_answers
    take_answers-Closed none now c o r = r
    take_answers-Closed (some es) now c o r = take_batch-Closed es _ o (closed.polled now c r)

    pub take_turn-Closed :
        (t : Turn) (c : Client F C)
        → Kept
            (λ c'. IsOrderlyBatch t.batch (poll_pacer controller config t.poll_ns c'))
            (send_all controller config t.ticks 0 c.available c)
        → P c
        → Kept P (take_turn controller config t c)
    unfolding take_turn
    take_turn-Closed t c o r =
        let Fits : Client F C → Type 0 =
          λ c'. IsOrderlyBatch t.batch (poll_pacer controller config t.poll_ns c') in
        Kept-bind (λ c'. Fits c' × P c') P _ _
          (Kept-both Fits P _ o (send_all-Closed t.ticks 0 c.available c refl r))
          (λ c' eq p. take_answers-Closed t.batch t.poll_ns c' p.0 p.1)

  -- The steps of a worker from a state `c₀` on, with what they note, the last one first.
  pub data Moves (c₀ : Client F C) : Client F C → List Note → Type 0 where
    stays : Moves c₀ c₀ []
    checked :
        (now : ℕ) {c : Client F C} {h : List Note}
        → Moves c₀ c h
        → Moves c₀ (check controller config now c) h
    polled :
        (now : ℕ) {c : Client F C} {h : List Note}
        → Moves c₀ c h
        → Moves c₀ (poll_pacer controller config now c) h
    packet :
        (t : Tick) (i : ℕ) (rest : List ℕ) {c c' : Client F C} {h : List Note}
        → Moves c₀ c h
        → c.available ≡ i ∷ rest
        → send_packet controller config t i rest c ≡ runs c'
        → Moves c₀ c' (sent c.next_sequence ∷ h)
    completed :
        (e : Completion) {c c' : Client F C} {h : List Note}
        → Moves c₀ c h
        → IsDue e c.io
        → IsDelivered e
        → take_completion controller config e c ≡ runs c'
        → Moves c₀ c' (answers controller config e c ++ h)

  pub Moves-Reached :
      {c₀ c : Client F C} {h ns : List Note}
      → Reached controller config c₀ h
      → Moves c₀ c ns
      → Reached controller config c (ns ++ h)
  Moves-Reached r stays = r
  Moves-Reached r (checked now m) = Reached.checked now (Moves-Reached r m)
  Moves-Reached r (polled now m) = Reached.polled now (Moves-Reached r m)
  Moves-Reached r (packet t i rest m a e) = Reached.packet t i rest (Moves-Reached r m) a e
  Moves-Reached {h} r (completed e {c} m due del eq) =
      subst (Reached controller config _) (sym (append_assoc (answers controller config e c) _ h))
        (Reached.completed e (Moves-Reached r m) due del eq)

  -- Every round with orderly batches is such a sequence.
  pub take_turn-Moves :
      (t : Turn) (c : Client F C)
      → Kept
          (λ c'. IsOrderlyBatch t.batch (poll_pacer controller config t.poll_ns c'))
          (send_all controller config t.ticks 0 c.available c)
      → Kept (λ c'. (ns : List Note) × Moves c c' ns) (take_turn controller config t c)
  take_turn-Moves t c o =
      take_turn-Closed (λ c'. (ns : List Note) × Moves c c' ns)
        (record {
          checked = λ now c' p. (p.0, checked now p.1);
          polled = λ now c' p. (p.0, polled now p.1);
          packet = λ t i rest {c = c₁} c' p a e. (_, packet t i rest p.1 a e);
          completed = λ e c₁ c' p due del eq. (_, completed e p.1 due del eq);
        })
        t c o (([], stays))
