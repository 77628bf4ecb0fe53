-- ===== src/Cc/Bbr/History.antt =====
-- The two histories of common/bbr.hpp: the last 1024 sends, and the acknowledgements of the last
-- 200 ms.
use mathlib.Core.List.{append-nil, append_assoc}
use win_udpsharded_echo.Prelude.{
  ℕ, ◌+◌, ◌≤◌, ◌<◌, ◌≡◌, refl, sym, ap, ◌∙◌, List, [], ◌∷◌, ◌++◌, arith, leb, if◌then◌else◌,
  u64_mod, length, length-append,
}
use win_udpsharded_echo.Float.{Double}
use win_udpsharded_echo.Cc.{Event, sent, acked, polled, run}
use win_udpsharded_echo.Cc.Bbr.{
  Bbr, default_bbr, trim, evict, on_send, on_ack, on_poll, set_initial_rate,
  bbr_congestion_controller, max_history, ack_window_ns,
}

-- The last `n` elements.
abbrev pub last_n : ℕ → List (ℕ × ℕ) → List (ℕ × ℕ)
last_n n [] = []
last_n n (x ∷ xs) = if leb (length (x ∷ xs)) n then x ∷ xs else last_n n xs

trim-eq-last_n : (xs : List (ℕ × ℕ)) → trim xs ≡ last_n max_history xs
unfolding trim
trim-eq-last_n [] = refl
trim-eq-last_n (x ∷ xs) = ground (arith, trim-eq-last_n xs)

last_n-snoc :
    (n : ℕ) (xs : List (ℕ × ℕ)) (y : ℕ × ℕ)
    → last_n n (last_n n xs ++ y ∷ []) ≡ last_n n (xs ++ y ∷ [])
last_n-snoc n [] y = refl
last_n-snoc n (x ∷ xs) y = ground (arith, last_n-snoc n xs y, length-append xs (y ∷ []))

-- The sends of a history, oldest first.
abbrev pub sends : List Event → List (ℕ × ℕ)
sends [] = []
sends (sent now seq ∷ es) = (seq, now) ∷ sends es
sends (acked now seq rtt ∷ es) = sends es
sends (polled now ∷ es) = sends es

-- Times that do not fall along the list, from `low` up to `high`.
abbrev pub IsAscending : ℕ → List ℕ → ℕ → Type 0
IsAscending low [] high = low ≤ high
IsAscending low (t ∷ ts) high = (low ≤ t) × IsAscending t ts high

-- The times that are at most the window before `now`.
abbrev pub recent : ℕ → List ℕ → List ℕ
recent now [] = []
recent now (t ∷ ts) = if leb now (t + ack_window_ns) then t ∷ recent now ts else recent now ts

recent-all :
    (now low : ℕ) (ts : List ℕ)
    → now ≤ low + ack_window_ns
    → IsAscending low ts now
    → recent now ts ≡ ts
recent-all now low [] h a = refl
recent-all now low (t ∷ ts) h a = ground (arith, recent-all now t ts)

IsAscending-le : (low : ℕ) (ts : List ℕ) (high : ℕ) → IsAscending low ts high → low ≤ high
IsAscending-le low [] high a = a
IsAscending-le low (t ∷ ts) high a = omega (arith, IsAscending-le t ts high a.1)

evict-eq-recent :
    (now low : ℕ) (ts : List ℕ)
    → now + ack_window_ns < u64_mod
    → IsAscending low ts now
    → evict now ts ≡ recent now ts
unfolding evict
evict-eq-recent now low [] h a = refl
evict-eq-recent now low (t ∷ ts) h a =
    ground (arith, IsAscending-le t ts now, evict-eq-recent now t ts h, recent-all now t ts)

IsAscending-snoc :
    (low : ℕ) (ts : List ℕ) (high now : ℕ)
    → IsAscending low ts high
    → high ≤ now
    → IsAscending low (ts ++ now ∷ []) now
IsAscending-snoc low [] high now a h = omega arith
IsAscending-snoc low (t ∷ ts) high now a h = (a.0, IsAscending-snoc t ts high now a.1 h)

recent-snoc : (now : ℕ) (ts : List ℕ) → recent now (ts ++ now ∷ []) ≡ recent now ts ++ now ∷ []
recent-snoc now [] = ground arith
recent-snoc now (t ∷ ts) = ground (arith, recent-snoc now ts)

module _ {F : Type 0} ⦃d : Double F⦄ where
  -- If the stored times ascend up to `last`, and an acknowledgement comes no earlier than `last` and
  -- before the clock nears its wrap, the history is afterwards exactly the stored times of the last
  -- 200 ms, and then the new one.
  pub on_ack_history :
      (now last seq rtt : ℕ) (s : Bbr F)
      → IsAscending 0 s.ack_history last
      → last ≤ now
      → now + ack_window_ns < u64_mod
      → (on_ack now seq rtt s).ack_history ≡ recent now s.ack_history ++ now ∷ []
  unfolding on_ack
  on_ack_history now last seq rtt s a h w =
      evict-eq-recent now 0 _ w (IsAscending-snoc 0 s.ack_history last now a h)
      ∙ recent-snoc now s.ack_history

  on_poll_sent_history : (now : ℕ) (s : Bbr F) → (on_poll now s).sent_history ≡ s.sent_history
  unfolding on_poll
  on_poll_sent_history now s = ground arith

  run_sent_history :
      (s : Bbr F) (past : List (ℕ × ℕ)) (es : List Event)
      → s.sent_history ≡ last_n max_history past
      → (run bbr_congestion_controller s es).sent_history ≡ last_n max_history (past ++ sends es)
  unfolding run on_send on_ack
  run_sent_history s past [] h = h ∙ ap (last_n max_history) (sym (append-nil past))
  run_sent_history s past (sent now seq ∷ es) h =
      run_sent_history (on_send now seq s) (past ++ (seq, now) ∷ []) es (
        trim-eq-last_n (s.sent_history ++ (seq, now) ∷ [])
        ∙ ap (λ xs. last_n max_history (xs ++ (seq, now) ∷ [])) h
        ∙ last_n-snoc max_history past (seq, now))
      ∙ ap (last_n max_history) (append_assoc past ((seq, now) ∷ []) (sends es))
  run_sent_history s past (acked now seq rtt ∷ es) h =
      run_sent_history (on_ack now seq rtt s) past es h
  run_sent_history s past (polled now ∷ es) h =
      run_sent_history (on_poll now s) past es (on_poll_sent_history now s ∙ h)

  -- After any history the controller remembers exactly the last 1024 sends.
  pub run-sent_history :
      (pps : F) (es : List Event)
      → (run bbr_congestion_controller (set_initial_rate pps default_bbr) es).sent_history
        ≡ last_n max_history (sends es)
  unfolding set_initial_rate
  run-sent_history pps es = run_sent_history _ [] es refl
