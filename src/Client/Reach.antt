-- ===== src/Client/Reach.antt =====
-- The states that a worker of client/main.cpp can reach, and where its contexts are in them.
use mathlib.Core.Path.{subst}
use win_udpsharded_echo.Prelude.{
  ℕ, zero, suc, ◌≤◌, ◌<◌, ◌≡◌, refl, ◌∙◌, List, [], ◌∷◌, ◌++◌, Option, none, some, arith, leb,
  if◌then◌else◌, Bool-cases, inl, inr, length, member,
}
use win_udpsharded_echo.Float.{Double}
use win_udpsharded_echo.Cc.{Controller}
use win_udpsharded_echo.Pacer.{Pacer}
use win_udpsharded_echo.SocketUtils.Io.{
  Operation, recv, send, IoContext, Outcome, Io, outstanding_ops, max_packet_size, post_send,
}
use win_udpsharded_echo.SocketUtils.Contexts.{
  pool, complete, count, count-pool, IsSound, IsSound-idle, IsSound-post_recv, pending-post_recv,
  IsSound-complete_recv, IsSound-complete_send, IsSound-post_send, IsSound-set_buffer,
  length-overwrite,
}
use win_udpsharded_echo.SocketUtils.Packet.{header_size, get_header, put_header}
use win_udpsharded_echo.Client.Worker.{
  Config, Client, Tick, Completion, Progress, runs, breaks, is_none, build_packet, count_send,
  send_packet, check, take_echo, rearm, count_echo, handle_completion, complete_at, take_completion,
  poll_pacer, reset_pacer,
}
use win_udpsharded_echo.Client.Loop.{post_down, launch}

abbrev pub IsReady : {F C : Type 0} → Client F C → Type 0
IsReady c = IsSound c.available c.io

abbrev pub IsDue : Completion → Io → Type 0
IsDue e io = (i : ℕ) → e.overlapped ≡ some i → 0 < count i io.pending

-- Windows reports the length of what it put into a context, which is at most that of the buffer.
abbrev pub IsDelivered : Completion → Type 0
IsDelivered e = (length e.payload ≡ e.bytes_transferred) × (e.bytes_transferred ≤ max_packet_size)

-- After an exception nothing is asked.
abbrev pub Kept : {F C : Type 0} → (Client F C → Type 0) → Progress F C → Type 0
Kept P (runs c) = P c
Kept P (breaks c) = Unit

-- The contexts as their constructor leaves them.
pub record IsFresh (contexts : ℕ → IoContext) : Type 0 where
  pub operation_recv : (j : ℕ) → (contexts j).operation ≡ recv
  pub sized : (j : ℕ) → length (contexts j).buffer ≡ max_packet_size

-- A packet that was handed to Windows, and an echo with a header that was taken.
pub data Note : Type 0 where
  sent answered : ℕ → Note

abbrev pub answer_of : Completion → Operation → List Note
answer_of e recv =
    if leb header_size e.bytes_transferred
    then answered (get_header e.payload).sequence_number ∷ []
    else []
answer_of e send = []

module _ {F C : Type 0} ⦃d : Double F⦄ (controller : Controller F C) (config : Config) where
  IsReady-build_packet :
      (t : Tick) (i : ℕ) (rest : List ℕ) (c : Client F C)
      → IsSound (i ∷ rest) c.io
      → IsSound (i ∷ rest) (build_packet controller config t i rest c).io
  unfolding build_packet put_header
  IsReady-build_packet t i rest c s =
      IsSound-set_buffer i _ (i ∷ rest) c.io
        (length-overwrite _ (c.io.contexts i).buffer ∙ s.sized i) s

  IsReady-count_send :
      (t : Tick) (seq i : ℕ) (bytes : List ℕ) (len dest : ℕ) (c : Client F C) (o : Option Io)
      → IsSound (i ∷ c.available) c.io
      → post_send t.on_send i bytes len dest c.io ≡ o
      → Kept IsReady (count_send controller config t seq c o)
  unfolding count_send
  IsReady-count_send t seq i bytes len dest c none s p = tt
  IsReady-count_send t seq i bytes len dest c (some io) s p =
      (IsSound-post_send _ _ _ _ _ _ _ _ p s).0

  IsReady-send_packet :
      (t : Tick) (i : ℕ) (rest : List ℕ) (c : Client F C)
      → c.available ≡ i ∷ rest
      → IsReady c
      → Kept IsReady (send_packet controller config t i rest c)
  unfolding send_packet build_packet
  IsReady-send_packet t i rest c h s =
      IsReady-count_send t c.next_sequence i _ _ _ (build_packet controller config t i rest c) _
        (IsReady-build_packet t i rest c (rw h at s)) refl

  IsReady-rearm :
      (e : Completion) (i : ℕ) (c : Client F C)
      → i < outstanding_ops
      → count i c.io.pending ≡ 0
      → IsReady c
      → Kept IsReady (rearm controller config e i c)
  unfolding rearm
  IsReady-rearm e i c h z s = elim (Bool-cases (member e.completion_key config.sockets)) [
    | inl b ↦ rw b (IsSound-post_recv e.on_recv i c.available c.io h z s)
    | inr b ↦ elim (Bool-cases (is_none config.sockets)) [
      | inl n ↦ rw (b, n) s
      | inr n ↦ rw (b, n) tt
    ]
  ]

  IsReady-handle_completion :
      (e : Completion) (i : ℕ) (o : Operation) (c : Client F C)
      → (c.io.contexts i).operation ≡ o
      → 0 < count i c.io.pending
      → IsReady c
      → Kept IsReady (
          handle_completion controller config e i o
            (record c { io = complete e.payload e.source i c.io }))
  unfolding handle_completion count_echo take_echo
  IsReady-handle_completion e i recv c o due s =
      let (t, h, z) = IsSound-complete_recv e.payload e.source i c.available c.io due o s in
      elim (Bool-cases (leb header_size e.bytes_transferred)) [
        | inl b ↦ rw b (IsReady-rearm e i _ h z t)
        | inr b ↦ rw b (IsReady-rearm e i _ h z t)
      ]
  IsReady-handle_completion e i send c o due s =
      IsSound-complete_send e.payload e.source i c.available c.io due o s

  IsReady-complete_at :
      (e : Completion) (o : Option ℕ) (c : Client F C)
      → ((i : ℕ) → o ≡ some i → 0 < count i c.io.pending)
      → IsReady c
      → Kept IsReady (complete_at controller config e o c)
  unfolding complete_at
  IsReady-complete_at e none c due s = s
  IsReady-complete_at e (some i) c due s = IsReady-handle_completion e i _ c refl (due i refl) s

  IsReady-take_completion :
      (e : Completion) (c : Client F C)
      → IsDue e c.io
      → IsReady c
      → Kept IsReady (take_completion controller config e c)
  unfolding take_completion
  IsReady-take_completion e c due s = IsReady-complete_at e e.overlapped c due s

  IsSound-post_down :
      (n : ℕ) (outcomes : ℕ → Outcome) (free : List ℕ) (io : Io)
      → n ≤ outstanding_ops
      → ((j : ℕ) → j < n → count j io.pending ≡ 0)
      → IsSound free io
      → IsSound free (post_down n outcomes io)
  unfolding post_down
  IsSound-post_down zero outcomes free io h z s = s
  IsSound-post_down (suc n) outcomes free io h z s =
      IsSound-post_down n outcomes free _ (omega arith)
        (λ j. ground (arith, z j, pending-post_recv (outcomes n) n io))
        (IsSound-post_recv (outcomes n) n free io (omega arith) (z n (omega arith)) s)

  IsReady-launch :
      (pacer : Pacer F C) (outcomes : ℕ → Outcome) (contexts : ℕ → IoContext)
      → IsFresh contexts
      → IsReady (launch controller config pacer outcomes contexts)
  unfolding launch
  IsReady-launch pacer outcomes contexts f =
      let idle =
        IsSound-idle (pool outstanding_ops) contexts (count-pool outstanding_ops) f.operation_recv
          f.sized in
      elim (Bool-cases (is_none config.sockets)) [
        | inl b ↦ rw b idle
        | inr b ↦
            rw b (IsSound-post_down outstanding_ops outcomes _ _ (omega arith) (λ j h. refl) idle)
      ]

  abbrev pub answers_at : Completion → Option ℕ → Client F C → List Note
  answers_at e none c = []
  answers_at e (some i) c = answer_of e (c.io.contexts i).operation

  abbrev pub answers : Completion → Client F C → List Note
  answers e c = answers_at e e.overlapped c

  -- The states of a worker without an exception, with its packets and echoes, the last one first: any
  -- order of checks, packets, completions of contexts that Windows has, polls, and resets by `main`.
  pub data Reached : Client F C → List Note → Type 0 where
    launched :
        (pacer : Pacer F C) (outcomes : ℕ → Outcome) (contexts : ℕ → IoContext)
        → IsFresh contexts
        → Reached (launch controller config pacer outcomes contexts) []
    checked :
        (now : ℕ) {c : Client F C} {h : List Note}
        → Reached c h
        → Reached (check controller config now c) h
    polled :
        (now : ℕ) {c : Client F C} {h : List Note}
        → Reached c h
        → Reached (poll_pacer controller config now c) h
    reset :
        (now : ℕ) {c : Client F C} {h : List Note}
        → Reached c h
        → Reached (reset_pacer controller config now c) h
    packet :
        (t : Tick) (i : ℕ) (rest : List ℕ) {c c' : Client F C} {h : List Note}
        → Reached c h
        → c.available ≡ i ∷ rest
        → send_packet controller config t i rest c ≡ runs c'
        → Reached c' (sent c.next_sequence ∷ h)
    completed :
        (e : Completion) {c c' : Client F C} {h : List Note}
        → Reached c h
        → IsDue e c.io
        → IsDelivered e
        → take_completion controller config e c ≡ runs c'
        → Reached c' (answers e c ++ h)

  -- In every state that a worker reaches without an exception, each of its 16 send contexts is either
  -- free or in one pending send; a receive context is in at most one pending receive and never free;
  -- and the operation noted in a pending context is the one it is for.
  pub Reached-IsReady : {c : Client F C} {h : List Note} → Reached c h → IsReady c
  unfolding check poll_pacer reset_pacer
  Reached-IsReady (launched pacer outcomes contexts f) = IsReady-launch pacer outcomes contexts f
  Reached-IsReady (checked now r) = Reached-IsReady r
  Reached-IsReady (polled now r) = Reached-IsReady r
  Reached-IsReady (reset now r) = Reached-IsReady r
  Reached-IsReady (packet t i rest {c} r a e) =
      subst (Kept IsReady) e (IsReady-send_packet t i rest c a (Reached-IsReady r))
  Reached-IsReady (completed e {c} r due del eq) =
      subst (Kept IsReady) eq (IsReady-take_completion e c due (Reached-IsReady r))
