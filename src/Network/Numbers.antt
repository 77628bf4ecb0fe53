-- ===== src/Network/Numbers.antt =====
-- That a number stands for one packet.
use win_udpsharded_echo.Prelude.{
  ℕ, ◌<◌, ◌≤◌, ◌≡◌, refl, sym, ◌∙◌, ap, List, [], ◌∷◌, Bool, arith, length, u64_mod, Within, inl,
  inr,
}
use win_udpsharded_echo.Float.{Double}
use win_udpsharded_echo.Cc.{Controller}
use win_udpsharded_echo.SocketUtils.Packet.{PacketHeader, max_payload_size}
use win_udpsharded_echo.Server.Worker.{Worker}
use win_udpsharded_echo.Client.Worker.{Config, Client}
use win_udpsharded_echo.Client.Reach.{Note, answers}
use win_udpsharded_echo.Client.Sequences.{packets_of, packets_of-answers_at, Reached-Agrees}
use win_udpsharded_echo.Network.{Net, begun, checked, polled, reset, sends, gets, serves}
use win_udpsharded_echo.Network.Honest.{Net-Sound}

-- Numbered from 0 on, the last one first.
abbrev pub IsNumbered : List PacketHeader → Type 0
IsNumbered [] = Unit {0}
IsNumbered (p ∷ log) = (p.sequence_number ≡ length log) × IsNumbered log

IsNumbered-below :
    (p : PacketHeader) (log : List PacketHeader)
    → IsNumbered log
    → Within p log
    → p.sequence_number < length log
IsNumbered-below p [] n at = absurd at
IsNumbered-below p (q ∷ log) n (inl e) = omega (arith, n.0, ap (λ p. p.sequence_number) e)
IsNumbered-below p (q ∷ log) n (inr at) = omega (arith, IsNumbered-below p log n.1 at)

pub IsNumbered-unique :
    (p p' : PacketHeader) (log : List PacketHeader)
    → IsNumbered log
    → Within p log
    → Within p' log
    → p.sequence_number ≡ p'.sequence_number
    → p ≡ p'
IsNumbered-unique p p' [] n at at' h = absurd at
IsNumbered-unique p p' (q ∷ log) n (inl e) (inl e') h = e ∙ sym e'
IsNumbered-unique p p' (q ∷ log) n (inl e) (inr at') h =
    absurd (omega (arith, n.0, h, ap (λ p. p.sequence_number) e, IsNumbered-below p' log n.1 at'))
IsNumbered-unique p p' (q ∷ log) n (inr at) (inl e') h =
    absurd (omega (arith, n.0, h, ap (λ p. p.sequence_number) e', IsNumbered-below p log n.1 at))
IsNumbered-unique p p' (q ∷ log) n (inr at) (inr at') h = IsNumbered-unique p p' log n.1 at at' h

module _ {F C : Type 0} ⦃d : Double F⦄ (controller : Controller F C) (config : Config)
    (sync_reply : Bool) (is_mine : ℕ → Bool) (fits : config.payload_size ≤ max_payload_size) where
  pub Net-IsNumbered :
      {c : Client F C} {h : List Note} {log : List PacketHeader} {ws : ℕ → Worker}
      → Net controller config sync_reply is_mine c h log ws
      → packets_of h < u64_mod
      → (length log ≡ packets_of h) × IsNumbered log
  Net-IsNumbered (begun pacer outcomes contexts answers server_contexts f g) m = (refl, tt)
  Net-IsNumbered (checked now n) m = Net-IsNumbered n m
  Net-IsNumbered (polled now n) m = Net-IsNumbered n m
  Net-IsNumbered (reset now n) m = Net-IsNumbered n m
  Net-IsNumbered (sends t i rest n u a eq) m =
      let (len, num) = Net-IsNumbered n (omega arith) in
      let agrees =
        Reached-Agrees controller config
          (Net-Sound controller config sync_reply is_mine fits n).reached (omega arith) in
      (omega (arith, len), (agrees.next_eq ∙ sym len, num))
  Net-IsNumbered (gets e {c} {h = h} n due del comes eq) m =
      let kept = packets_of-answers_at controller config e e.overlapped c h in
      let (len, num) = Net-IsNumbered n (omega (arith, kept)) in (len ∙ sym kept, num)
  Net-IsNumbered (serves k e n due del copy eq) m = Net-IsNumbered n m
