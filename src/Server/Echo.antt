-- ===== src/Server/Echo.antt =====
-- What a worker of server/main.cpp sends for a completion entry.
use mathlib.Core.List.{append-nil}
use win_udpsharded_echo.Prelude.{
  ℕ, ◌≤◌, ◌≡◌, refl, sym, ap, ◌∙◌, List, [], ◌∷◌, ◌++◌, Bool, true, false, Option, none, some,
  arith, ltb, if◌then◌else◌, add64, take, length, Bool-cases, Option-cases, inl, inr,
}
use win_udpsharded_echo.SocketUtils.Io.{
  Operation, recv, send, IoContext, Outcome, accepted, connreset, error, Io, Datagram,
  max_packet_size, outstanding_ops, post_recv, overwrite, post_send, send_sync,
}
use win_udpsharded_echo.Server.Worker.{
  Worker, Entry, Served, going, threw, repost, reply_sync, count_reply, reply_async, reply,
  handle_recv_completion, handle, serve_at, serve,
}
use win_udpsharded_echo.SocketUtils.Contexts.{complete, sized-complete, Outcome-cases}
use win_udpsharded_echo.Server.Reach.{Reached, IsDelivered, Reached-IsWell}

abbrev pub worker_of : Served → Worker
worker_of (going w) = w
worker_of (threw w) = w

-- The datagrams that answer a datagram: itself, unless Windows refuses or no context is free.
abbrev pub answer : Bool → Entry → List ℕ → List Datagram
answer true e free = elim e.sent [
  | none ↦ []
  | some n ↦ record { payload = e.payload; dest = e.source } ∷ []
]
answer false e [] = []
answer false e (_ ∷ _) = elim e.on_send [
  | accepted ↦ record { payload = e.payload; dest = e.source } ∷ []
  | connreset ↦ []
  | error ↦ []
]

abbrev pub answer_at : Bool → Entry → List ℕ → Operation → List Datagram
answer_at sync_reply e free recv =
    if ltb 0 e.bytes_transferred then answer sync_reply e free else []
answer_at sync_reply e free send = []

abbrev pub replies_at : Bool → Entry → Option ℕ → Worker → List Datagram
replies_at sync_reply e none w = []
replies_at sync_reply e (some c) w =
    answer_at sync_reply e w.available_send_contexts (w.io.contexts c).operation

abbrev pub replies : Bool → Entry → Worker → List Datagram
replies sync_reply e w = replies_at sync_reply e e.overlapped w

abbrev pub count_up : List Datagram → ℕ → ℕ
count_up [] n = n
count_up (_ ∷ r) n = count_up r (add64 n 1)

-- The step from `w` to `w'` sent the datagrams `r`, and counted them.
pub record HasSent (w w' : Worker) (r : List Datagram) : Type 0 where
  pub on_wire : w'.io.wire ≡ w.io.wire ++ r
  pub in_count : w'.packets_sent ≡ count_up r w.packets_sent

abbrev pub IsSized : Io → Type 0
IsSized io = (j : ℕ) → length (io.contexts j).buffer ≡ max_packet_size

take-overwrite :
    (bs buffer : List ℕ) → length bs ≤ length buffer → take (length bs) (overwrite bs buffer) ≡ bs
take-overwrite [] buffer h = refl
take-overwrite (b ∷ bs) [] h = absurd (omega arith)
take-overwrite (b ∷ bs) (x ∷ buffer) h = ap (λ l. b ∷ l) (take-overwrite bs buffer (omega arith))

pub post_recv-wire : (o : Outcome) (c : ℕ) (io : Io) → (post_recv o c io).wire ≡ io.wire
unfolding post_recv
post_recv-wire o c io = refl

HasSent-repost :
    (o : Outcome) (c : ℕ) (w w' : Worker) (r : List Datagram)
    → HasSent w w' r
    → HasSent w (repost o c w') r
HasSent-repost o c w w' r s = record {
  on_wire = post_recv-wire o c w'.io ∙ s.on_wire;
  in_count = s.in_count;
}

HasSent-nothing : (o : Outcome) (c : ℕ) (w : Worker) → HasSent w (repost o c w) []
HasSent-nothing o c w =
    HasSent-repost o c w w [] (record { on_wire = sym (append-nil w.io.wire); in_count = refl })

-- A context that holds the datagram of the entry.
record IsFilled (e : Entry) (c : ℕ) (io : Io) : Type 0 where
  text : take e.bytes_transferred (io.contexts c).buffer ≡ e.payload
  peer : (io.contexts c).remote_addr ≡ e.source
  fits : e.bytes_transferred ≤ max_packet_size

IsFilled-complete :
    (e : Entry) (c : ℕ) (io : Io)
    → (io.contexts c).operation ≡ recv
    → IsDelivered e
    → IsSized io
    → IsFilled e c (complete e.payload e.source c io)
unfolding complete
IsFilled-complete e c io o (n, h) z = record {
  text = ground (arith, o, n, h, z c, take-overwrite e.payload (io.contexts c).buffer);
  peer = ground (arith, o);
  fits = h;
}

HasSent-reply_sync :
    (e : Entry) (c : ℕ) (free : List ℕ) (w : Worker)
    → IsFilled e c w.io
    → HasSent w (reply_sync e c w) (answer true e free)
unfolding reply_sync send_sync
HasSent-reply_sync e c free w f = elim (Option-cases e.sent) [
  | inl n ↦ rw n (HasSent-nothing e.on_recv c w)
  | inr (m, n) ↦ rw n (
      HasSent-repost e.on_recv c w _ _
        (record { on_wire = ground (arith, f.text, f.peer, f.fits); in_count = refl }))
]

-- The exception leaves nothing sent and nothing counted.
HasSent-threw :
    (w : Worker) (rest : List ℕ) → HasSent w (record w { available_send_contexts = rest }) []
HasSent-threw w rest = record { on_wire = sym (append-nil w.io.wire); in_count = refl }

HasSent-count_reply :
    (e : Entry) (c i : ℕ) (free rest : List ℕ) (w : Worker)
    → IsFilled e c w.io
    → IsSized w.io
    → let x = w.io.contexts c in
      HasSent w
        (worker_of (
          count_reply e c
            (record w { available_send_contexts = rest })
            (post_send e.on_send i x.buffer e.bytes_transferred x.remote_addr w.io)))
        (answer false e (i ∷ free))
unfolding count_reply post_send
HasSent-count_reply e c i free rest w f z = elim (Outcome-cases e.on_send) [
  | inl o ↦ rw o (
      HasSent-repost e.on_recv c w _ _
        (record { on_wire = ground (arith, f.text, f.peer, f.fits, z i); in_count = refl }))
  | inr (inl o) ↦ rw o (HasSent-threw w rest)
  | inr (inr o) ↦ rw o (HasSent-threw w rest)
]

HasSent-reply_async :
    (e : Entry) (c : ℕ) (free : List ℕ) (w : Worker)
    → IsFilled e c w.io
    → IsSized w.io
    → HasSent w (worker_of (reply_async e c free w)) (answer false e free)
unfolding reply_async
HasSent-reply_async e c [] w f z = HasSent-nothing e.on_recv c w
HasSent-reply_async e c (i ∷ rest) w f z = HasSent-count_reply e c i rest rest w f z

HasSent-reply :
    (sync_reply : Bool) (e : Entry) (c : ℕ) (w : Worker)
    → IsFilled e c w.io
    → IsSized w.io
    → HasSent w (worker_of (reply sync_reply e c w)) (answer sync_reply e w.available_send_contexts)
unfolding reply
HasSent-reply true e c w f z = HasSent-reply_sync e c [] w f
HasSent-reply false e c w f z = HasSent-reply_async e c _ w f z

-- What is counted before the reply does not matter to what is sent.
HasSent-counted :
    (w w' : Worker) (e : Entry) (c : ℕ) (r : List Datagram)
    → HasSent
        (record w {
          packets_received = add64 w.packets_received 1;
          bytes_received = add64 w.bytes_received e.bytes_transferred;
          io = complete e.payload e.source c w.io;
        })
        w'
        r
    → HasSent w w' r
unfolding complete
HasSent-counted w w' e c r s = record { on_wire = s.on_wire; in_count = s.in_count }

HasSent-freed :
    (w : Worker) (e : Entry) (c : ℕ)
    → HasSent w
        (record w {
          available_send_contexts = c ∷ w.available_send_contexts;
          io = complete e.payload e.source c w.io;
        })
        []
unfolding complete
HasSent-freed w e c = record { on_wire = sym (append-nil w.io.wire); in_count = refl }

HasSent-handle :
    (sync_reply : Bool) (e : Entry) (c : ℕ) (o : Operation) (w : Worker)
    → (w.io.contexts c).operation ≡ o
    → IsDelivered e
    → IsSized w.io
    → HasSent w
        (worker_of (handle sync_reply e c o (record w { io = complete e.payload e.source c w.io })))
        (answer_at sync_reply e w.available_send_contexts o)
unfolding handle handle_recv_completion
HasSent-handle sync_reply e c recv w o n z = elim (Bool-cases (ltb 0 e.bytes_transferred)) [
  | inl b ↦ rw b (
      HasSent-counted w _ e c _ (
        HasSent-reply sync_reply e c _ (IsFilled-complete e c w.io o n z)
          (sized-complete e.payload e.source c w.io z)))
  | inr b ↦ rw b (HasSent-counted w _ e c _ (HasSent-nothing e.on_recv c _))
]
HasSent-handle sync_reply e c send w o n z = HasSent-freed w e c

pub HasSent-serve_at :
    (sync_reply : Bool) (e : Entry) (o : Option ℕ) (w : Worker)
    → IsDelivered e
    → IsSized w.io
    → HasSent w (worker_of (serve_at sync_reply e o w)) (replies_at sync_reply e o w)
unfolding serve_at
HasSent-serve_at sync_reply e none w n z = HasSent-threw w w.available_send_contexts
HasSent-serve_at sync_reply e (some c) w n z = HasSent-handle sync_reply e c _ w refl n z

-- A worker starts with contexts as their constructor leaves them. In every state that it reaches, the
-- handling of an entry that reports the length of what came, at most 65507 bytes, sends exactly this:
-- for a datagram of one byte or more, the same bytes to the address they came from, once, if `sendto`
-- succeeds or a send context is free and `WSASendTo` takes it; for an empty one, the completion of a
-- send, an entry without a context, a failed call and an exhausted pool, nothing. `packets_sent`
-- counts just that.
pub Reached-serve-replies :
    (sync_reply : Bool) (outcomes : List Outcome) (contexts : ℕ → IoContext) (w : Worker)
    (e : Entry)
    → length outcomes ≡ outstanding_ops
    → ((j : ℕ) → (contexts j).operation ≡ recv)
    → ((j : ℕ) → length (contexts j).buffer ≡ max_packet_size)
    → Reached sync_reply outcomes contexts w
    → IsDelivered e
    → HasSent w (worker_of (serve sync_reply e w)) (replies sync_reply e w)
unfolding serve
Reached-serve-replies sync_reply outcomes contexts w e n r z reached d =
    HasSent-serve_at sync_reply e e.overlapped w d
      (Reached-IsWell sync_reply outcomes contexts w n r z reached).sized
