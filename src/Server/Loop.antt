-- ===== src/Server/Loop.antt =====
-- The loop of `worker_thread_func` of server/main.cpp that waits for batches of completion entries.
use win_udpsharded_echo.Prelude.{ℕ, ◌≡◌, refl, List, [], ◌∷◌, Bool, true, false, Option, none, some}
use win_udpsharded_echo.SocketUtils.Io.{IoContext, Outcome}
use win_udpsharded_echo.Server.Worker.{Worker, Entry, Served, going, threw, serve, serve_all}
use win_udpsharded_echo.Server.Reach.{IsDelivered, IsDue, Reached, served}

-- One round: `g_shutdown` as the loop reads it, and the batch that Windows returns, or `none` when the
-- call fails or times out.
pub record Round : Type 0 where
  pub shutdown : Bool
  pub batch : Option (List Entry)

-- Windows' answers ran out; the thread ended; an exception ended it and set `g_shutdown`.
pub data Ending : Type 0 where
  waits ends fails : Worker → Ending

unfoldable pub take_batch : Bool → Option (List Entry) → Worker → Served
take_batch sync_reply none w = going w
take_batch sync_reply (some es) w = serve_all sync_reply es w

-- `rest` is what comes after a round without an exception.
abbrev pub or_fails : Served → (Worker → Ending) → Ending
or_fails (going w) rest = rest w
or_fails (threw w) rest = fails w

unfoldable pub loop : Bool → List Round → Worker → Ending
loop sync_reply [] w = waits w
loop sync_reply (r ∷ rounds) w = elim r.shutdown [
  | true ↦ ends w
  | false ↦ or_fails (take_batch sync_reply r.batch w) (λ w'. loop sync_reply rounds w')
]

-- After an exception nothing is asked.
abbrev pub Kept : (Worker → Type 0) → Served → Type 0
Kept P (going w) = P w
Kept P (threw w) = Unit

Kept-elim :
    (P Q : Worker → Type 0) (s : Served) (f : Worker → Served)
    → Kept P s
    → ((w : Worker) → s ≡ going w → P w → Kept Q (f w))
    → Kept Q (elim s [ going w ↦ f w | threw w ↦ threw w ])
Kept-elim P Q (going w) f k g = g w refl k
Kept-elim P Q (threw w) f k g = tt

module _ (sync_reply : Bool) (outcomes : List Outcome) (contexts : ℕ → IoContext) where
  -- Windows has each context for which an entry of the batch comes, at the time that it is handled,
  -- and reports what it put there.
  abbrev pub IsOrderly : List Entry → Worker → Type 0
  IsOrderly [] w = Unit {0}
  IsOrderly (e ∷ es) w = IsDue e w.io × IsDelivered e × Kept (IsOrderly es) (serve sync_reply e w)

  abbrev pub IsOrderlyBatch : Option (List Entry) → Worker → Type 0
  IsOrderlyBatch none w = Unit {0}
  IsOrderlyBatch (some es) w = IsOrderly es w

  serve_all-Reached :
      (es : List Entry) (w : Worker)
      → IsOrderly es w
      → Reached sync_reply outcomes contexts w
      → Kept (Reached sync_reply outcomes contexts) (serve_all sync_reply es w)
  unfolding serve_all
  serve_all-Reached [] w o r = r
  serve_all-Reached (e ∷ es) w (due, del, o) r =
      Kept-elim (IsOrderly es) (Reached sync_reply outcomes contexts) _ _ o
        (λ w' eq o'. serve_all-Reached es w' o' (served r e due del eq))

  pub take_batch-Reached :
      (batch : Option (List Entry)) (w : Worker)
      → IsOrderlyBatch batch w
      → Reached sync_reply outcomes contexts w
      → Kept (Reached sync_reply outcomes contexts) (take_batch sync_reply batch w)
  unfolding take_batch
  take_batch-Reached none w o r = r
  take_batch-Reached (some es) w o r = serve_all-Reached es w o r
