-- ===== src/Server/Echoes.antt =====
-- A whole run of the loop of server/main.cpp with `g_sync_reply`: what it sends and counts.
use mathlib.Core.Path.{subst}
use mathlib.Core.List.{append_assoc, append-nil}
use win_udpsharded_echo.Prelude.{
  ℕ, ◌+◌, ◌≡◌, refl, sym, ap, ◌∙◌, List, [], ◌∷◌, ◌++◌, Bool, true, false, Option, none, some, ◌||◌,
  arith, length, All, add64, ltb, if◌then◌else◌, Bool-cases, Option-cases, inl, inr,
}
use win_udpsharded_echo.SocketUtils.Io.{
  recv, IoContext, Outcome, Io, Datagram, max_packet_size, post_recv, send_sync,
}
use win_udpsharded_echo.SocketUtils.Contexts.{complete, sized-complete}
use win_udpsharded_echo.Server.Worker.{
  Worker, Entry, going, serve, serve_at, serve_all, handle, handle_recv_completion, reply,
  reply_sync, post_all, start,
}
use win_udpsharded_echo.Server.Reach.{IsDelivered}
use win_udpsharded_echo.Server.Echo.{
  worker_of, replies, answer, count_up, HasSent, HasSent-serve_at,
}
use win_udpsharded_echo.Server.Loop.{Round, Ending, waits, ends, fails, take_batch, loop}

-- The echo of an entry: for a datagram of one byte or more, its bytes to the address they came from, if
-- `sendto` takes them.
abbrev pub echo : Entry → List Datagram
echo e = elim e.overlapped [
  | none ↦ []
  | some c ↦ if ltb 0 e.bytes_transferred then answer true e [] else []
]

abbrev pub echoes : List Entry → List Datagram
echoes [] = []
echoes (e ∷ es) = echo e ++ echoes es

-- The counter of datagrams received, from `n` on.
abbrev pub received : List Entry → ℕ → ℕ
received [] n = n
received (e ∷ es) n = received es (elim e.overlapped [ none ↦ n | some c ↦ add64 n 1 ])

abbrev pub entries : Option (List Entry) → List Entry
entries none = []
entries (some es) = es

-- The entries that come before the first round which finds `g_shutdown` set, and whether there is one.
abbrev pub before_shutdown : List Round → List Entry
before_shutdown [] = []
before_shutdown (r ∷ rounds) = if r.shutdown then [] else entries r.batch ++ before_shutdown rounds

abbrev pub is_stopped : List Round → Bool
is_stopped [] = false
is_stopped (r ∷ rounds) = r.shutdown || is_stopped rounds

-- From `w` to `w'` just the echoes of the entries were sent, and counted, and the entries counted.
pub record Echoed (es : List Entry) (w w' : Worker) : Type 0 where
  pub on_wire : w'.io.wire ≡ w.io.wire ++ echoes es
  pub in_sent : w'.packets_sent ≡ count_up (echoes es) w.packets_sent
  pub in_received : w'.packets_received ≡ received es w.packets_received

-- All contexts are for receives, with whole buffers.
record IsPlain (io : Io) : Type 0 where
  receives : (j : ℕ) → (io.contexts j).operation ≡ recv
  sized : (j : ℕ) → length (io.contexts j).buffer ≡ max_packet_size

IsPlain-post_recv : (o : Outcome) (c : ℕ) (io : Io) → IsPlain io → IsPlain (post_recv o c io)
unfolding post_recv
IsPlain-post_recv o c io p = record {
  receives = λ j. ground (arith, p.receives j);
  sized = λ j. ground (arith, p.sized j, p.sized c);
}

IsPlain-complete :
    (payload : List ℕ) (source c : ℕ) (io : Io)
    → IsPlain io
    → IsPlain (complete payload source c io)
unfolding complete
IsPlain-complete payload source c io p = record {
  receives = λ j. rw (p.receives c) (ground (arith, p.receives j, p.receives c));
  sized = sized-complete payload source c io p.sized;
}

IsPlain-post_all :
    (c : ℕ) (outcomes : List Outcome) (io : Io) → IsPlain io → IsPlain (post_all c outcomes io)
unfolding post_all
IsPlain-post_all c [] io p = p
IsPlain-post_all c (o ∷ outcomes) io p =
    IsPlain-post_all (c + 1) outcomes _ (IsPlain-post_recv o c io p)

IsPlain-reply_sync :
    (e : Entry) (c : ℕ) (w : Worker)
    → IsPlain w.io
    → IsPlain (reply_sync e c w).io × ((reply_sync e c w).packets_received ≡ w.packets_received)
unfolding reply_sync send_sync
IsPlain-reply_sync e c w p = elim (Option-cases e.sent) [
  | inl n ↦ rw n (IsPlain-post_recv e.on_recv c w.io p, refl)
  | inr (m, n) ↦
      rw n
        (IsPlain-post_recv e.on_recv c _ (record { receives = p.receives; sized = p.sized }), refl)
]

-- One entry is served without an exception.
IsServed : Entry → Worker → Type 0
IsServed e w =
    (w' : Worker) × (serve true e w ≡ going w')
    × IsPlain w'.io
    × (w'.packets_received ≡ received (e ∷ []) w.packets_received)

serve-IsServed : (e : Entry) (w : Worker) → IsPlain w.io → IsServed e w
unfolding IsServed serve serve_at handle handle_recv_completion reply reply_sync
serve-IsServed e w p = elim (Option-cases e.overlapped) [
  | inl n ↦ rw n (w, refl, p, refl)
  | inr (c, n) ↦
      let p' = IsPlain-complete e.payload e.source c w.io p in
      rw (n, p.receives c)
        (elim (Bool-cases (ltb 0 e.bytes_transferred)) [
          | inl b ↦ let (q, n) = IsPlain-reply_sync e c _ p' in rw b (_, refl, q, n)
          | inr b ↦ rw b (_, refl, IsPlain-post_recv e.on_recv c _ p', refl)
        ])
]

replies-echo : (e : Entry) (w : Worker) → IsPlain w.io → replies true e w ≡ echo e
replies-echo e w p = elim (Option-cases e.overlapped) [
  | inl n ↦ rw n refl
  | inr (c, n) ↦ rw (n, p.receives c) refl
]

count_up-append : (r s : List Datagram) (n : ℕ) → count_up (r ++ s) n ≡ count_up s (count_up r n)
count_up-append [] s n = refl
count_up-append (_ ∷ r) s n = count_up-append r s (add64 n 1)

echoes-append : (es fs : List Entry) → echoes (es ++ fs) ≡ echoes es ++ echoes fs
echoes-append [] fs = refl
echoes-append (e ∷ es) fs =
    ap (λ l. echo e ++ l) (echoes-append es fs)
    ∙ sym (append_assoc (echo e) (echoes es) (echoes fs))

received-append : (es fs : List Entry) (n : ℕ) → received (es ++ fs) n ≡ received fs (received es n)
received-append [] fs n = refl
received-append (e ∷ es) fs n = received-append es fs _

Echoed-nothing : (w : Worker) → Echoed [] w w
Echoed-nothing w = record {
  on_wire = sym (append-nil w.io.wire);
  in_sent = refl;
  in_received = refl;
}

Echoed-append :
    (es fs : List Entry) {w₁ w₂ w₃ : Worker}
    → Echoed es w₁ w₂
    → Echoed fs w₂ w₃
    → Echoed (es ++ fs) w₁ w₃
Echoed-append es fs {w₁} a b = record {
  on_wire =
      b.on_wire
      ∙ ap (λ l. l ++ echoes fs) a.on_wire
      ∙ append_assoc w₁.io.wire (echoes es) (echoes fs)
      ∙ ap (λ l. w₁.io.wire ++ l) (sym (echoes-append es fs));
  in_sent =
      b.in_sent
      ∙ ap (count_up (echoes fs)) a.in_sent
      ∙ sym (count_up-append (echoes es) (echoes fs) w₁.packets_sent)
      ∙ ap (λ l. count_up l w₁.packets_sent) (sym (echoes-append es fs));
  in_received =
      b.in_received
      ∙ ap (received fs) a.in_received
      ∙ sym (received-append es fs w₁.packets_received);
}

-- One entry, by what Echo shows of it.
Echoed-serve :
    (e : Entry) (w : Worker)
    → IsPlain w.io
    → IsDelivered e
    → (w' : Worker) × (serve true e w ≡ going w') × IsPlain w'.io × Echoed (e ∷ []) w w'
unfolding serve IsServed
Echoed-serve e w p del =
    let (w', eq, p', n) = serve-IsServed e w p in
    let sent : HasSent w w' (echo e) = subst (HasSent w w') (replies-echo e w p) (
      subst (λ s. HasSent w (worker_of s) (replies true e w)) eq
        (HasSent-serve_at true e e.overlapped w del p.sized)) in
    (
      w',
      eq,
      p',
      record {
        on_wire = sent.on_wire ∙ ap (λ l. w.io.wire ++ l) (sym (append-nil (echo e)));
        in_sent = sent.in_count ∙ ap (λ l. count_up l w.packets_sent) (sym (append-nil (echo e)));
        in_received = n;
      },
    )

Echoed-serve_all :
    (es : List Entry) (w : Worker)
    → IsPlain w.io
    → All IsDelivered es
    → (w' : Worker) × (serve_all true es w ≡ going w') × IsPlain w'.io × Echoed es w w'
unfolding serve_all
Echoed-serve_all [] w p del = (w, refl, p, Echoed-nothing w)
Echoed-serve_all (e ∷ es) w p (del, dels) =
    let (w₁, eq₁, p₁, a) = Echoed-serve e w p del in
    let (w₂, eq₂, p₂, b) = Echoed-serve_all es w₁ p₁ dels in
    (w₂, rw (eq₁, serve_all) eq₂, p₂, Echoed-append (e ∷ []) es a b)

Echoed-take_batch :
    (batch : Option (List Entry)) (w : Worker)
    → IsPlain w.io
    → All IsDelivered (entries batch)
    → (w' : Worker) × (take_batch true batch w ≡ going w')
      × IsPlain w'.io
      × Echoed (entries batch) w w'
unfolding take_batch
Echoed-take_batch none w p del = (w, refl, p, Echoed-nothing w)
Echoed-take_batch (some es) w p del = Echoed-serve_all es w p del

-- How a run from `w` ends: never by an exception, and the thread has ended if it was stopped.
abbrev pub Went : List Entry → Bool → Worker → Ending → Type 0
Went es stopped w (waits w') = (stopped ≡ false) × Echoed es w w'
Went es stopped w (ends w') = (stopped ≡ true) × Echoed es w w'
Went es stopped w (fails w') = ⊥

Went-append :
    (es fs : List Entry) (stopped : Bool) {w₁ w₂ : Worker} (x : Ending)
    → Echoed es w₁ w₂
    → Went fs stopped w₂ x
    → Went (es ++ fs) stopped w₁ x
Went-append es fs stopped (waits w') a (q, b) = (q, Echoed-append es fs a b)
Went-append es fs stopped (ends w') a (q, b) = (q, Echoed-append es fs a b)
Went-append es fs stopped (fails w') a b = b

All-parts :
    (es fs : List Entry) → All IsDelivered (es ++ fs) → All IsDelivered es × All IsDelivered fs
All-parts [] fs d = (tt, d)
All-parts (e ∷ es) fs (d, ds) = let (a, b) = All-parts es fs ds in ((d, a), b)

Went-loop :
    (rounds : List Round) (w : Worker)
    → IsPlain w.io
    → All IsDelivered (before_shutdown rounds)
    → Went (before_shutdown rounds) (is_stopped rounds) w (loop true rounds w)
unfolding loop
Went-loop [] w p del = (refl, Echoed-nothing w)
Went-loop (r ∷ rounds) w p del = elim (Bool-cases r.shutdown) [
  | inl b ↦ rw b (refl, Echoed-nothing w)
  | inr b ↦
      let later = before_shutdown rounds in
      let dels = subst (λ c. All IsDelivered (if c then [] else entries r.batch ++ later)) b del in
      let parts = All-parts (entries r.batch) later dels in
      let (w', eq, p', a) = Echoed-take_batch r.batch w p parts.0 in
      rw (b, eq)
        (Went-append (entries r.batch) later (is_stopped rounds) (loop true rounds w') a
          (Went-loop rounds w' p' parts.1))
]

-- With `g_sync_reply`, and with contexts as their constructor leaves them, a worker's run, once its thread
-- is pinned, is never ended by an exception, whatever batches come, as long as each entry before a stop
-- reports the length of what came, at most 65507 bytes. It ends when a round finds `g_shutdown` set,
-- and else still waits. It sends just the echoes of the entries before that round, in their order: for
-- each datagram of one byte or more that `sendto` takes, the same bytes, once, to the address they came
-- from. `packets_sent` counts the echoes, and `packets_received` the entries with a context, modulo 2^64.
pub loop-Went :
    (rounds : List Round) (outcomes : List Outcome) (contexts : ℕ → IoContext)
    → ((j : ℕ) → (contexts j).operation ≡ recv)
    → ((j : ℕ) → length (contexts j).buffer ≡ max_packet_size)
    → All IsDelivered (before_shutdown rounds)
    → Went
        (before_shutdown rounds)
        (is_stopped rounds)
        (start outcomes contexts)
        (loop true rounds (start outcomes contexts))
unfolding start
loop-Went rounds outcomes contexts r z del =
    Went-loop rounds (start outcomes contexts)
      (IsPlain-post_all 0 outcomes _ (record { receives = r; sized = z })) del
