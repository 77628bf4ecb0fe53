-- ===== src/Client/Loop.antt =====
-- The start and the outer loop of `worker_thread_func` of client/main.cpp, and how long it waits for
-- completions.
use win_udpsharded_echo.Prelude.{
  ℕ, zero, suc, ◌+◌, ◌*◌, ◌/◌, List, [], ◌∷◌, Bool, true, false, Option, none, some, ltb, ◌==◌,
  ◌||◌, if◌then◌else◌,
}
use win_udpsharded_echo.Float.{Double}
use win_udpsharded_echo.Cc.{Controller}
use win_udpsharded_echo.Pacer.{Pacer}
use win_udpsharded_echo.SocketUtils.Io.{IoContext, Outcome, Io, outstanding_ops, post_recv}
use win_udpsharded_echo.SocketUtils.Contexts.{pool}
use win_udpsharded_echo.Client.Worker.{
  Config, Client, Tick, Completion, Progress, runs, breaks, ◌>>=◌, is_none, send_all, take_batch,
  poll_pacer, wind_up,
}

abbrev pub tight_spin_ns : ℕ
tight_spin_ns = 200_000

abbrev pub short_sleep_ns : ℕ
short_sleep_ns = 2_000_000

abbrev pub iocp_timeout_ms : ℕ
iocp_timeout_ms = 10

-- How a round waits: the timeout of the call in milliseconds, then, if nothing completed, giving up
-- the processor until so many nanoseconds have passed, by `Sleep(0)` or by `yield`.
pub data Wait : Type 0 where
  poll_only : Wait
  blocks : ℕ → Wait
  sleeps : ℕ → Wait
  spins : ℕ → Wait

pub choose_wait : ℕ → Wait
choose_wait wait_ns =
    let wait_ms = (wait_ns + 999_999) / 1_000_000 in
    if wait_ns == 0
    then poll_only
    else if ltb short_sleep_ns wait_ns
    then blocks (if ltb wait_ms iocp_timeout_ms then wait_ms else iocp_timeout_ms)
    else if ltb tight_spin_ns wait_ns
    then sleeps wait_ns
    else spins wait_ns

-- The wait of a round in nanoseconds, when nothing completes and there is no shutdown.
abbrev pub waited_ns : Wait → ℕ
waited_ns poll_only = 0
waited_ns (blocks ms) = ms * 1_000_000
waited_ns (sleeps ns) = ns
waited_ns (spins ns) = ns

-- One round: the flags as the loop reads them, the packets that the pacer may let through, the batch
-- that Windows returns, or `none` when the call fails or times out, and the reading of `poll`.
pub record Turn : Type 0 where
  pub shutdown : Bool
  pub stop_sending : Bool
  pub ticks : ℕ → Tick
  pub batch : Option (List Completion)
  pub poll_ns : ℕ

-- Windows' answers ran out; the thread ended; an exception ended it and set `g_shutdown`.
pub data Ending (F C : Type 0) : Type 0 where
  waits ends fails : Client F C → Ending F C

-- `n` receives, on the contexts from `n - 1` down to 0.
unfoldable pub post_down : ℕ → (ℕ → Outcome) → Io → Io
post_down zero outcomes io = io
post_down (suc n) outcomes io = post_down n outcomes (post_recv (outcomes n) n io)

module _ {F C : Type 0} ⦃d : Double F⦄ (controller : Controller F C) (config : Config) where
  unfoldable pub launch : Pacer F C → (ℕ → Outcome) → (ℕ → IoContext) → Client F C
  launch pacer outcomes contexts =
      let io : Io = record { contexts = contexts; pending = []; wire = [] } in
      record {
        next_sequence = 0;
        packets_sent = 0;
        packets_received = 0;
        packets_dropped = 0;
        bytes_sent = 0;
        bytes_received = 0;
        total_rtt_ns = 0;
        min_rtt_ns = 18_446_744_073_709_551_615;
        max_rtt_ns = 0;
        outstanding_sequences = [];
        next_socket_index = 0;
        last_send_timestamp_ns = 0;
        current_rtt = none;
        current_pacing = none;
        posted_rtt = [];
        posted_pacing = [];
        pacer = pacer;
        available = pool outstanding_ops;
        io = if is_none config.sockets then io else post_down outstanding_ops outcomes io;
      }

  -- A call that fails or times out skips the poll.
  unfoldable pub take_answers : Option (List Completion) → ℕ → Client F C → Progress F C
  take_answers none now c = runs c
  take_answers (some es) now c =
      take_batch controller config es (poll_pacer controller config now c)

  unfoldable pub take_turn : Turn → Client F C → Progress F C
  take_turn t c = do
    c' ← send_all controller config t.ticks 0 c.available c
    take_answers t.batch t.poll_ns c'

  -- `rest` is what comes after a round without an exception.
  abbrev pub or_fails : Progress F C → (Client F C → Ending F C) → Ending F C
  or_fails (runs c) rest = rest c
  or_fails (breaks c) rest = fails c

  unfoldable pub loop : List Turn → Client F C → Ending F C
  loop [] c = waits c
  loop (t ∷ ts) c = elim (t.shutdown || t.stop_sending) [
    | true ↦ ends (wind_up controller config c)
    | false ↦ or_fails (take_turn t c) (λ c'. loop ts c')
  ]
