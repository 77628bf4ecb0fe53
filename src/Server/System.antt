-- ===== src/Server/System.antt =====
-- The threads of server/main.cpp together: `main` from the start of the workers' threads to the final
-- statistics, each worker, the thread that prints the requests of each second, and the one that ends a
-- run after its duration. The threads take turns in any order; a round of a worker is one step, as it
-- touches only what is its own. A signal can come at any time.
use win_udpsharded_echo.Prelude.{
  update, ℕ, zero, suc, ◌+◌, ◌<◌, ◌≡◌, List, [], ◌∷◌, ◌++◌, Bool, true, false, Option, ltb, length,
  if◌then◌else◌,
}
use win_udpsharded_echo.SocketUtils.Io.{IoContext, recv, Outcome, outstanding_ops, max_packet_size}
use win_udpsharded_echo.Server.Worker.{Worker, Entry, going, threw, start}
use win_udpsharded_echo.Server.Loop.{take_batch, IsOrderlyBatch}
use win_udpsharded_echo.Server.Stats.{Totals, print_final_stats, total_received, rps}

-- Where `main` is: the workers' threads below `k` are started; the thread of the duration is started;
-- it sleeps until `g_shutdown` is set; it joins the printing thread, then that of the duration; it has
-- joined the workers below `k`; the statistics are printed.
pub data Main : Type 0 where
  starting joining : ℕ → Main
  started sleeping joining_rps joining_timer printed : Main

-- A worker's thread: without a thread; with one that has not begun; ended by an exception before its
-- loop; in its loop; after its loop; ended by an exception. A state comes with the answers to the first
-- receives and with the contexts, as they were made.
pub data Phase : Type 0 where
  unborn created refused : Phase
  looping ended : List Outcome → (ℕ → IoContext) → Worker → Phase
  failed : Worker → Phase

-- The printing thread: not started; at the test of its loop, with `prev_total`; in the second that it
-- waits; ended.
pub data Printer : Type 0 where
  absent over : Printer
  testing waiting : ℕ → Printer

-- The thread of the duration: none, asleep, ended.
pub data Timer : Type 0 where
  none_set asleep fired : Timer

pub record System : Type 0 where
  pub main : Main
  pub shutdown : Bool
  pub printer : Printer
  pub lines : List ℕ
  pub timer : Timer
  pub workers : ℕ → Phase

-- The thread has ended.
abbrev pub IsDone : Phase → Type 0
IsDone refused = Unit
IsDone (failed w) = Unit
IsDone (ended outcomes contexts w) = Unit
IsDone _ = ⊥

abbrev pub IsOver : Printer → Type 0
IsOver over = Unit
IsOver _ = ⊥

-- There is no thread of the duration that has not ended.
abbrev pub IsAwake : Timer → Type 0
IsAwake asleep = ⊥
IsAwake _ = Unit

-- The counters of a worker as the other threads see them.
abbrev pub worker_at : Phase → List Worker
worker_at (looping outcomes contexts w) = w ∷ []
worker_at (ended outcomes contexts w) = w ∷ []
worker_at (failed w) = w ∷ []
worker_at _ = []

abbrev pub workers_from : ℕ → ℕ → (ℕ → Phase) → List Worker
workers_from i zero phases = []
workers_from i (suc k) phases = worker_at (phases i) ++ workers_from (i + 1) k phases

-- Contexts as their constructor leaves them, and an answer to each first receive.
pub record IsFresh (outcomes : List Outcome) (contexts : ℕ → IoContext) : Type 0 where
  pub answered : length outcomes ≡ outstanding_ops
  pub operation_recv : (j : ℕ) → (contexts j).operation ≡ recv
  pub sized : (j : ℕ) → length (contexts j).buffer ≡ max_packet_size

module _ (sync_reply : Bool) (duration_sec n : ℕ) where
  abbrev pub at_start : System
  at_start = record {
    main = starting 0;
    shutdown = false;
    printer = absent;
    lines = [];
    timer = none_set;
    workers = λ i. unborn;
  }

  pub data Step (s : System) : System → Type 0 where
    spawn :
        (k : ℕ)
        → s.main ≡ starting k
        → k < n
        → Step s (record s { main = starting (suc k); workers = update k created s.workers })
    start_timer :
        s.main ≡ starting n
        → Step s
            (record s { main = started; timer = if ltb 0 duration_sec then asleep else none_set })
    create_rps_thread :
        s.main ≡ started → Step s (record s { main = sleeping; printer = testing 0 })
    wake : s.main ≡ sleeping → s.shutdown ≡ true → Step s (record s { main = joining_rps })
    join_rps : s.main ≡ joining_rps → IsOver s.printer → Step s (record s { main = joining_timer })
    join_timer : s.main ≡ joining_timer → IsAwake s.timer → Step s (record s { main = joining 0 })
    join :
        (k : ℕ)
        → s.main ≡ joining k
        → k < n
        → IsDone (s.workers k)
        → Step s (record s { main = joining (suc k) })
    print : s.main ≡ joining n → Step s (record s { main = printed })
    signal : Step s (record s { shutdown = true })
    fire : s.timer ≡ asleep → Step s (record s { timer = fired; shutdown = true })
    doze :
        (prev : ℕ)
        → s.printer ≡ testing prev
        → s.shutdown ≡ false
        → Step s (record s { printer = waiting prev })
    tell :
        (prev total_recv : ℕ)
        → s.printer ≡ waiting prev
        → total_recv ≡ total_received 0 (workers_from 0 n s.workers)
        → Step s (record s { printer = testing total_recv; lines = rps prev total_recv ∷ s.lines })
    printer_ends :
        (prev : ℕ)
        → s.printer ≡ testing prev
        → s.shutdown ≡ true
        → Step s (record s { printer = over })
    begin :
        (i : ℕ) (outcomes : List Outcome) (contexts : ℕ → IoContext)
        → s.workers i ≡ created
        → IsFresh outcomes contexts
        → Step s (record s {
          workers = update i (looping outcomes contexts (start outcomes contexts)) s.workers;
        })
    refuse :
        (i : ℕ)
        → s.workers i ≡ created
        → Step s (record s { shutdown = true; workers = update i refused s.workers })
    turn :
        (i : ℕ) (batch : Option (List Entry)) (outcomes : List Outcome) (contexts : ℕ → IoContext)
        (w w' : Worker)
        → s.workers i ≡ looping outcomes contexts w
        → s.shutdown ≡ false
        → IsOrderlyBatch sync_reply outcomes contexts batch w
        → take_batch sync_reply batch w ≡ going w'
        → Step s (record s { workers = update i (looping outcomes contexts w') s.workers })
    fail :
        (i : ℕ) (batch : Option (List Entry)) (outcomes : List Outcome) (contexts : ℕ → IoContext)
        (w w' : Worker)
        → s.workers i ≡ looping outcomes contexts w
        → s.shutdown ≡ false
        → take_batch sync_reply batch w ≡ threw w'
        → Step s (record s { shutdown = true; workers = update i (failed w') s.workers })
    leave :
        (i : ℕ) (outcomes : List Outcome) (contexts : ℕ → IoContext) (w : Worker)
        → s.workers i ≡ looping outcomes contexts w
        → s.shutdown ≡ true
        → Step s (record s { workers = update i (ended outcomes contexts w) s.workers })

  pub data Reach : System → Type 0 where
    at_first : Reach at_start
    later : {s t : System} → Reach s → Step s t → Reach t

  -- The statistics, from the counters as they are.
  unfoldable pub stats : System → Totals
  stats s = print_final_stats (workers_from 0 n s.workers)
