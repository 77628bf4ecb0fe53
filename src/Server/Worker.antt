-- ===== src/Server/Worker.antt =====
-- `server_worker_context` and `worker_thread_func` of server/main.cpp. What Windows answers comes
-- with each completion entry. The receive contexts are 0 to 15 and the send contexts 16 to 31, by
-- their place in `recv_contexts` and after it in `send_contexts`. Affinity and log lines are left out.
use win_udpsharded_echo.Prelude.{
  ℕ, ◌+◌, List, [], ◌∷◌, Bool, true, false, Option, none, some, ltb, if◌then◌else◌, add64,
}
use win_udpsharded_echo.SocketUtils.Io.{
  Operation, recv, send, IoContext, Outcome, Io, outstanding_ops, post_recv, post_send, send_sync,
}
use win_udpsharded_echo.SocketUtils.Contexts.{complete, pool}

pub record Worker : Type 0 where
  pub packets_received : ℕ
  pub packets_sent : ℕ
  pub bytes_received : ℕ
  pub bytes_sent : ℕ
  -- The vector, its back first.
  pub available_send_contexts : List ℕ
  pub io : Io

-- An `OVERLAPPED_ENTRY`, with what Windows wrote into the context of a receive, and its answers to
-- the calls that the handling of the entry can make: `sendto`, `WSASendTo`, `WSARecvFrom`.
pub record Entry : Type 0 where
  pub overlapped : Option ℕ
  pub bytes_transferred : ℕ
  pub payload : List ℕ
  pub source : ℕ
  pub sent : Option ℕ
  pub on_send : Outcome
  pub on_recv : Outcome

-- After an exception the thread ends and `g_shutdown` is set.
pub data Served : Type 0 where
  going threw : Worker → Served

abbrev pub repost : Outcome → ℕ → Worker → Worker
repost outcome c w = record w { io = post_recv outcome c w.io }

unfoldable pub reply_sync : Entry → ℕ → Worker → Worker
reply_sync e c w =
    let x = w.io.contexts c in
    elim (send_sync e.sent x.buffer e.bytes_transferred x.remote_addr w.io) [
      | none ↦ repost e.on_recv c w
      | some (n, io) ↦ repost e.on_recv c (record w {
        packets_sent = add64 w.packets_sent 1;
        bytes_sent = add64 w.bytes_sent n;
        io = io;
      })
    ]

-- After `post_send` from the context that was popped.
unfoldable pub count_reply : Entry → ℕ → Worker → Option Io → Served
count_reply e c w none = threw w
count_reply e c w (some io) = going (
    repost e.on_recv c (record w {
      packets_sent = add64 w.packets_sent 1;
      bytes_sent = add64 w.bytes_sent e.bytes_transferred;
      io = io;
    }))

unfoldable pub reply_async : Entry → ℕ → List ℕ → Worker → Served
reply_async e c [] w = going (repost e.on_recv c w)
reply_async e c (i ∷ rest) w =
    let x = w.io.contexts c in
    count_reply e c (record w { available_send_contexts = rest })
      (post_send e.on_send i x.buffer e.bytes_transferred x.remote_addr w.io)

unfoldable pub reply : Bool → Entry → ℕ → Worker → Served
reply true e c w = going (reply_sync e c w)
reply false e c w = reply_async e c w.available_send_contexts w

unfoldable pub handle_recv_completion : Bool → Entry → ℕ → Worker → Served
handle_recv_completion sync_reply e c w =
    let counted = record w {
      packets_received = add64 w.packets_received 1;
      bytes_received = add64 w.bytes_received e.bytes_transferred;
    } in
    if ltb 0 e.bytes_transferred
    then reply sync_reply e c counted
    else going (repost e.on_recv c counted)

unfoldable pub handle : Bool → Entry → ℕ → Operation → Worker → Served
handle sync_reply e c recv w = handle_recv_completion sync_reply e c w
handle sync_reply e c send w =
    going (record w { available_send_contexts = c ∷ w.available_send_contexts })

unfoldable pub serve_at : Bool → Entry → Option ℕ → Worker → Served
serve_at sync_reply e none w = going w
serve_at sync_reply e (some c) w =
    handle sync_reply e c ((w.io.contexts c).operation)
      (record w { io = complete e.payload e.source c w.io })

unfoldable pub serve : Bool → Entry → Worker → Served
serve sync_reply e w = serve_at sync_reply e e.overlapped w

-- The entries of a batch, up to an exception.
unfoldable pub serve_all : Bool → List Entry → Worker → Served
serve_all sync_reply [] w = going w
serve_all sync_reply (e ∷ es) w = elim (serve sync_reply e w) [
  | going w' ↦ serve_all sync_reply es w'
  | threw w' ↦ threw w'
]

-- The initial receives on the contexts `c`, `c + 1`, …, with Windows' answers.
unfoldable pub post_all : ℕ → List Outcome → Io → Io
post_all c [] io = io
post_all c (o ∷ outcomes) io = post_all (c + 1) outcomes (post_recv o c io)

unfoldable pub start : List Outcome → (ℕ → IoContext) → Worker
start outcomes contexts = record {
  packets_received = 0;
  packets_sent = 0;
  bytes_received = 0;
  bytes_sent = 0;
  available_send_contexts = pool outstanding_ops;
  io = post_all 0 outcomes (record { contexts = contexts; pending = []; wire = [] });
}
