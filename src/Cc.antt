-- ===== src/Cc.antt =====
-- common/congestion_controller.hpp: what the pacer asks of a congestion controller, the concept
-- `CongestionControllerConcept`, with the events that drive one. The children are the controllers of
-- common/null_cc.hpp, common/reno.hpp and common/bbr.hpp.
pub mod Null
pub mod Reno
pub mod Bbr
use win_udpsharded_echo.Prelude.{ℕ, List, [], ◌∷◌}

-- A method that changes the object returns the new one. Times and round trips are nanoseconds.
pub record Controller (F C : Type 0) : Type 0 where
  pub default : C
  pub set_initial_rate : F → C → C
  pub on_send : ℕ → ℕ → C → C
  pub on_ack : ℕ → ℕ → ℕ → C → C
  pub on_poll : ℕ → C → C
  pub target_rate_pps : C → F

pub data Event : Type 0 where
  sent : ℕ → ℕ → Event
  acked : ℕ → ℕ → ℕ → Event
  polled : ℕ → Event

module _ {F C : Type 0} (cc : Controller F C) where
  abbrev pub notify : C → Event → C
  notify c (sent now seq) = cc.on_send now seq c
  notify c (acked now seq rtt) = cc.on_ack now seq rtt c
  notify c (polled now) = cc.on_poll now c

  -- The controller after a history of events.
  pub run : C → List Event → C
  run c [] = c
  run c (e ∷ es) = run (notify c e) es

  -- What the first rate establishes and every event keeps holds after any history.
  pub run_inv {ℓ} :
      (P : C → Type ℓ)
      → ((c : C) (e : Event) → P c → P (notify c e))
      → (c : C) (es : List Event) → P c
      → P (run c es)
  unfolding run
  run_inv P keep c [] p = p
  run_inv P keep c (e ∷ es) p = run_inv P keep (notify c e) es (keep c e p)
