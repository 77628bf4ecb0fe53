-- ===== src/Client/System.antt =====
-- The threads of client/main.cpp together: `main` from the start of the workers' threads to the final
-- statistics, each worker, and the thread that merges digests, with the flags that they share. The
-- threads take turns in any order; a round of a worker is one step, as it touches only what is its own.
-- A signal can come at any time.
use win_udpsharded_echo.Prelude.{
  update, ℕ, zero, suc, ◌+◌, ◌<◌, ◌≡◌, List, [], ◌∷◌, ◌++◌, Bool, true, false, ◌||◌,
}
use win_udpsharded_echo.Float.{Double}
use win_udpsharded_echo.Cc.{Controller}
use win_udpsharded_echo.Pacer.{Pacer, reset_to_now}
use win_udpsharded_echo.SocketUtils.Io.{IoContext, Outcome}
use win_udpsharded_echo.Client.Worker.{Config, Client, runs, breaks, reset_pacer, wind_up}
use win_udpsharded_echo.Client.Loop.{Turn, launch, take_turn}
use win_udpsharded_echo.Client.Reach.{IsFresh, Note}
use win_udpsharded_echo.Client.Turns.{Moves}
use win_udpsharded_echo.Client.Stats.{Totals, final_stats}

-- Where `main` is: the workers' threads below `k` are started; the pacers below `k` are reset; it runs
-- for the duration; it has set `g_stop_sending` and waits a second; it has set `g_shutdown`, closed the
-- ports and joined the workers below `k`; it has joined all threads; the statistics are printed.
pub data Main : Type 0 where
  starting resetting joining : ℕ → Main
  running stopping merging printed : Main

-- A worker's thread, with what a worker in its loop has noted so far: without a thread; with a pacer;
-- ended by an exception before it had contexts; waiting for the start signal; in its loop; after its
-- loop, which it left in the state given; ended by an exception.
pub data Phase (F C : Type 0) : Type 0 where
  unborn refused : Phase F C
  created : Pacer F C → Phase F C
  waiting failed : Client F C → Phase F C
  looping ended : Client F C → List Note → Phase F C

pub record System (F C : Type 0) : Type 0 where
  pub main : Main
  pub start_sending : Bool
  pub stop_sending : Bool
  pub shutdown : Bool
  pub merger_ended : Bool
  pub workers : ℕ → Phase F C

-- The thread has ended.
abbrev pub IsDone : {F C : Type 0} → Phase F C → Type 0
IsDone refused = Unit
IsDone (failed c) = Unit
IsDone (ended c h) = Unit
IsDone _ = ⊥

module _ {F C : Type 0} ⦃d : Double F⦄ (controller : Controller F C) (configs : ℕ → Config)
    (n : ℕ) where
  abbrev pub at_start : System F C
  at_start = record {
    main = starting 0;
    start_sending = false;
    stop_sending = false;
    shutdown = false;
    merger_ended = false;
    workers = λ i. unborn;
  }

  -- `reset_to_now` on the pacer of a worker, whatever its thread does.
  unfoldable pub reset_phase : ℕ → ℕ → Phase F C → Phase F C
  reset_phase i now unborn = unborn
  reset_phase i now refused = refused
  reset_phase i now (created p) = created (reset_to_now now p)
  reset_phase i now (waiting c) = waiting (reset_pacer controller (configs i) now c)
  reset_phase i now (failed c) = failed (reset_pacer controller (configs i) now c)
  reset_phase i now (looping c h) = looping (reset_pacer controller (configs i) now c) h
  reset_phase i now (ended c h) = ended (reset_pacer controller (configs i) now c) h

  pub data Step (s : System F C) : System F C → Type 0 where
    spawn :
        (k : ℕ) (pacer : Pacer F C)
        → s.main ≡ starting k
        → k < n
        → Step s
            (record s { main = starting (suc k); workers = update k (created pacer) s.workers })
    start_all : s.main ≡ starting n → Step s (record s { main = resetting 0; start_sending = true })
    reset_one :
        (k now : ℕ)
        → s.main ≡ resetting k
        → k < n
        → Step s (record s {
          main = resetting (suc k);
          workers = update k (reset_phase k now (s.workers k)) s.workers;
        })
    measure : s.main ≡ resetting n → Step s (record s { main = running })
    -- the duration is over, or `g_shutdown` is set
    end_run : s.main ≡ running → Step s (record s { main = stopping; stop_sending = true })
    request : s.main ≡ stopping → Step s (record s { main = joining 0; shutdown = true })
    join :
        (k : ℕ)
        → s.main ≡ joining k
        → k < n
        → IsDone (s.workers k)
        → Step s (record s { main = joining (suc k) })
    join_merger : s.main ≡ joining n → s.merger_ended ≡ true → Step s (record s { main = merging })
    print : s.main ≡ merging → Step s (record s { main = printed })
    signal : Step s (record s { shutdown = true })
    merger_ends :
        s.shutdown ≡ true → s.merger_ended ≡ false → Step s (record s { merger_ended = true })
    begin :
        (i : ℕ) (pacer : Pacer F C) (outcomes : ℕ → Outcome) (contexts : ℕ → IoContext)
        → s.workers i ≡ created pacer
        → IsFresh contexts
        → Step s (record s {
          workers =
              update i (waiting (launch controller (configs i) pacer outcomes contexts)) s.workers;
        })
    refuse :
        (i : ℕ) (pacer : Pacer F C)
        → s.workers i ≡ created pacer
        → Step s (record s { shutdown = true; workers = update i refused s.workers })
    go :
        (i : ℕ) (c : Client F C)
        → s.workers i ≡ waiting c
        → (s.start_sending || s.shutdown) ≡ true
        → Step s (record s { workers = update i (looping c []) s.workers })
    turn :
        (i : ℕ) (t : Turn) (c c' : Client F C) (h notes : List Note)
        → s.workers i ≡ looping c h
        → (s.shutdown || s.stop_sending) ≡ false
        → take_turn controller (configs i) t c ≡ runs c'
        → Moves controller (configs i) c c' notes
        → Step s (record s { workers = update i (looping c' (notes ++ h)) s.workers })
    fail :
        (i : ℕ) (t : Turn) (c c' : Client F C) (h : List Note)
        → s.workers i ≡ looping c h
        → (s.shutdown || s.stop_sending) ≡ false
        → take_turn controller (configs i) t c ≡ breaks c'
        → Step s (record s { shutdown = true; workers = update i (failed c') s.workers })
    leave :
        (i : ℕ) (c : Client F C) (h : List Note)
        → s.workers i ≡ looping c h
        → (s.shutdown || s.stop_sending) ≡ true
        → Step s (record s { workers = update i (ended c h) s.workers })

  pub data Reach : System F C → Type 0 where
    start : Reach at_start
    later : {s t : System F C} → Reach s → Step s t → Reach t

  -- The counters of a worker as `main` sees them. Without a client they are as they were set up, which
  -- changes no total.
  abbrev pub client_at : ℕ → Phase F C → List (Client F C)
  client_at i unborn = []
  client_at i refused = []
  client_at i (created p) = []
  client_at i (waiting c) = c ∷ []
  client_at i (failed c) = c ∷ []
  client_at i (looping c h) = c ∷ []
  client_at i (ended c h) = wind_up controller (configs i) c ∷ []

  abbrev pub clients_from : ℕ → ℕ → (ℕ → Phase F C) → List (Client F C)
  clients_from i zero phases = []
  clients_from i (suc k) phases = client_at i (phases i) ++ clients_from (i + 1) k phases

  -- The statistics, from the counters as they are.
  unfoldable pub stats : System F C → Totals
  stats s = final_stats (clients_from 0 n s.workers)
