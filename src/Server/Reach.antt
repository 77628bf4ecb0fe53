-- ===== src/Server/Reach.antt =====
-- The states that a worker of server/main.cpp can reach, and where its contexts are in them.
use mathlib.Core.Path.{subst}
use win_udpsharded_echo.Prelude.{
  ℕ, ◌+◌, ◌≤◌, ◌<◌, ◌≡◌, refl, sym, ◌∙◌, List, [], ◌∷◌, Bool, true, false, Option, none, some,
  arith, ltb, Bool-cases, Option-cases, inl, inr, length,
}
use win_udpsharded_echo.SocketUtils.Io.{
  Operation, recv, send, IoContext, Outcome, Io, outstanding_ops, max_packet_size, post_recv,
  post_send, send_sync,
}
use win_udpsharded_echo.SocketUtils.Contexts.{
  pool, complete, count, count-pool, IsSound-idle, IsSound, IsSound-post_recv, pending-post_recv,
  IsSound-complete_recv, IsSound-complete_send, IsSound-post_send,
}
use win_udpsharded_echo.Server.Worker.{
  Worker, Entry, Served, going, threw, reply_sync, count_reply, reply_async, reply,
  handle_recv_completion, handle, serve_at, serve, post_all, start,
}

abbrev pub IsWell : Worker → Type 0
IsWell w = IsSound w.available_send_contexts w.io

-- What Windows put into a context: the datagram that came, at most as long as the buffer.
abbrev pub IsDelivered : Entry → Type 0
IsDelivered e = (length e.payload ≡ e.bytes_transferred) × (e.bytes_transferred ≤ max_packet_size)

abbrev pub IsDue : Entry → Io → Type 0
IsDue e io = (c : ℕ) → e.overlapped ≡ some c → 0 < count c io.pending

IsWell-reply_sync :
    (e : Entry) (c : ℕ) (w : Worker)
    → c < outstanding_ops
    → count c w.io.pending ≡ 0
    → IsWell w
    → IsWell (reply_sync e c w)
unfolding reply_sync send_sync
IsWell-reply_sync e c w h z s = elim (Option-cases e.sent) [
  | inl n ↦ rw n (IsSound-post_recv e.on_recv c w.available_send_contexts w.io h z s)
  | inr (m, n) ↦ rw n (
      IsSound-post_recv e.on_recv c w.available_send_contexts _ h z (record {
        once = s.once;
        not_free = s.not_free;
        armed_once = s.armed_once;
        no_other = s.no_other;
        receives = s.receives;
        sends = s.sends;
        sized = s.sized;
      }))
]

-- After an exception nothing is asked: the thread ends.
abbrev pub IsKept : Served → Type 0
IsKept (going w) = IsWell w
IsKept (threw w) = Unit

IsKept-count_reply :
    (e : Entry) (c i : ℕ) (bytes : List ℕ) (len dest : ℕ) (w : Worker) (o : Option Io)
    → c < outstanding_ops
    → count c w.io.pending ≡ 0
    → IsSound (i ∷ w.available_send_contexts) w.io
    → post_send e.on_send i bytes len dest w.io ≡ o
    → IsKept (count_reply e c w o)
unfolding count_reply
IsKept-count_reply e c i bytes len dest w none h z s p = tt
IsKept-count_reply e c i bytes len dest w (some io) h z s p =
    let (t, same) = IsSound-post_send _ _ _ _ _ _ _ _ p s in
    IsSound-post_recv e.on_recv c w.available_send_contexts io h (same c h ∙ z) t

IsKept-reply_async :
    (e : Entry) (c : ℕ) (free : List ℕ) (w : Worker)
    → c < outstanding_ops
    → count c w.io.pending ≡ 0
    → free ≡ w.available_send_contexts
    → IsSound free w.io
    → IsKept (reply_async e c free w)
unfolding reply_async
IsKept-reply_async e c [] w h z f s = IsSound-post_recv e.on_recv c _ w.io h z (rw (sym f) s)
IsKept-reply_async e c (i ∷ rest) w h z f s = IsKept-count_reply e c i _ _ _ _ _ h z s refl

IsKept-reply :
    (sync_reply : Bool) (e : Entry) (c : ℕ) (w : Worker)
    → c < outstanding_ops
    → count c w.io.pending ≡ 0
    → IsWell w
    → IsKept (reply sync_reply e c w)
unfolding reply
IsKept-reply true e c w h z s = IsWell-reply_sync e c w h z s
IsKept-reply false e c w h z s = IsKept-reply_async e c _ w h z refl s

IsKept-handle_recv_completion :
    (sync_reply : Bool) (e : Entry) (c : ℕ) (w : Worker)
    → c < outstanding_ops
    → count c w.io.pending ≡ 0
    → IsWell w
    → IsKept (handle_recv_completion sync_reply e c w)
unfolding handle_recv_completion
IsKept-handle_recv_completion sync_reply e c w h z s =
    elim (Bool-cases (ltb 0 e.bytes_transferred)) [
      | inl b ↦ rw b (IsKept-reply sync_reply e c _ h z s)
      | inr b ↦ rw b (IsSound-post_recv e.on_recv c _ w.io h z s)
    ]

IsKept-handle :
    (sync_reply : Bool) (e : Entry) (c : ℕ) (o : Operation) (w : Worker)
    → (w.io.contexts c).operation ≡ o
    → 0 < count c w.io.pending
    → IsWell w
    → IsKept (handle sync_reply e c o (record w { io = complete e.payload e.source c w.io }))
unfolding handle
IsKept-handle sync_reply e c recv w o due s =
    let (t, h, z) = IsSound-complete_recv e.payload e.source c _ w.io due o s in
    IsKept-handle_recv_completion sync_reply e c _ h z t
IsKept-handle sync_reply e c send w o due s =
    IsSound-complete_send e.payload e.source c _ w.io due o s

IsKept-serve_at :
    (sync_reply : Bool) (e : Entry) (o : Option ℕ) (w : Worker)
    → ((c : ℕ) → o ≡ some c → 0 < count c w.io.pending)
    → IsWell w
    → IsKept (serve_at sync_reply e o w)
unfolding serve_at
IsKept-serve_at sync_reply e none w due s = s
IsKept-serve_at sync_reply e (some c) w due s = IsKept-handle sync_reply e c _ w refl (due c refl) s

IsKept-serve :
    (sync_reply : Bool) (e : Entry) (w : Worker)
    → IsDue e w.io
    → IsWell w
    → IsKept (serve sync_reply e w)
unfolding serve
IsKept-serve sync_reply e w due s = IsKept-serve_at sync_reply e e.overlapped w due s

IsSound-post_all :
    (c : ℕ) (outcomes : List Outcome) (free : List ℕ) (io : Io)
    → c + length outcomes ≤ outstanding_ops
    → ((j : ℕ) → c ≤ j → j < outstanding_ops → count j io.pending ≡ 0)
    → IsSound free io
    → IsSound free (post_all c outcomes io)
unfolding post_all
IsSound-post_all c [] free io h z s = s
IsSound-post_all c (o ∷ outcomes) free io h z s =
    IsSound-post_all (c + 1) outcomes free (post_recv o c io) (omega arith)
      (λ j. ground (arith, z j, pending-post_recv o c io))
      (IsSound-post_recv o c free io (omega arith) (z c (omega arith) (omega arith)) s)

IsWell-start :
    (outcomes : List Outcome) (contexts : ℕ → IoContext)
    → length outcomes ≡ outstanding_ops
    → ((j : ℕ) → (contexts j).operation ≡ recv)
    → ((j : ℕ) → length (contexts j).buffer ≡ max_packet_size)
    → IsWell (start outcomes contexts)
unfolding start
IsWell-start outcomes contexts n r z =
    IsSound-post_all 0 outcomes _ _ (omega arith) (λ j h k. refl)
      (IsSound-idle (pool outstanding_ops) contexts (count-pool outstanding_ops) r z)

-- The states of a worker that has had no exception: any entries, each for a context that Windows
-- has, which report the length of what came, with any answers.
pub data Reached (sync_reply : Bool) (outcomes : List Outcome) (contexts : ℕ → IoContext)
    : Worker → Type 0 where
  started : Reached sync_reply outcomes contexts (start outcomes contexts)
  served :
      {w w' : Worker}
      → Reached sync_reply outcomes contexts w
      → (e : Entry) → IsDue e w.io
      → IsDelivered e
      → serve sync_reply e w ≡ going w'
      → Reached sync_reply outcomes contexts w'

-- A worker starts with contexts as their constructor leaves them and 16 receives, whatever Windows
-- answers to those. In every state that it reaches without an exception, by entries for contexts that
-- Windows has, each of the 16 send contexts is either free or in one pending send, never both and
-- never lost; a receive context is in at most one pending receive and never among the free ones; and
-- the operation noted in a pending context is the one it is for.
pub Reached-IsWell :
    (sync_reply : Bool) (outcomes : List Outcome) (contexts : ℕ → IoContext) (w : Worker)
    → length outcomes ≡ outstanding_ops
    → ((j : ℕ) → (contexts j).operation ≡ recv)
    → ((j : ℕ) → length (contexts j).buffer ≡ max_packet_size)
    → Reached sync_reply outcomes contexts w
    → IsWell w
Reached-IsWell sync_reply outcomes contexts w n r z started = IsWell-start outcomes contexts n r z
Reached-IsWell sync_reply outcomes contexts w n r z (served reached e due del eq) =
    subst IsKept eq (
      IsKept-serve sync_reply e _ due (Reached-IsWell sync_reply outcomes contexts _ n r z reached))
