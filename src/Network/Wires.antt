-- ===== src/Network/Wires.antt =====
-- What a completion entry leaves on the wire of a client's worker, and what a reply of a server is.
use win_udpsharded_echo.Prelude.{
  ℕ, zero, suc, arith, ◌≡◌, refl, ◌∙◌, List, [], ◌∷◌, Bool, true, false, Option, none, some, ltb,
  member, All, Bool-cases, Option-cases, inl, inr,
}
use win_udpsharded_echo.Float.{Double}
use win_udpsharded_echo.Cc.{Controller}
use win_udpsharded_echo.SocketUtils.Io.{
  Operation, recv, send, Io, IoContext, outstanding_ops, post_recv, Datagram, Outcome,
}
use win_udpsharded_echo.SocketUtils.Contexts.{complete, Outcome-cases}
use win_udpsharded_echo.Server.Worker.{Worker, Entry, start}
use win_udpsharded_echo.Server.Count.{start_wire}
use win_udpsharded_echo.Server.Echo.{post_recv-wire, replies, replies_at, answer, answer_at}
use win_udpsharded_echo.Client.Worker.{
  Config, Client, Completion, take_echo, is_none, rearm, count_echo, handle_completion, complete_at,
  take_completion,
}
use win_udpsharded_echo.Client.Loop.{launch, post_down}
use win_udpsharded_echo.Pacer.{Pacer}
use win_udpsharded_echo.Client.Reach.{Kept}

module _ {F C : Type 0} ⦃d : Double F⦄ (controller : Controller F C) (config : Config) where
  abbrev HasWire : List Datagram → Client F C → Type 0
  HasWire wire c = c.io.wire ≡ wire

  wire-count_echo :
      (e : Completion) (i : ℕ) (c : Client F C)
      → (count_echo controller config e i c).io.wire ≡ c.io.wire
  unfolding count_echo take_echo
  wire-count_echo e i c = ground arith

  wire-rearm :
      (e : Completion) (i : ℕ) (wire : List Datagram) (c : Client F C)
      → HasWire wire c
      → Kept (HasWire wire) (rearm controller config e i c)
  unfolding rearm
  wire-rearm e i wire c h = elim (Bool-cases (member e.completion_key config.sockets)) [
    | inl m ↦ rw m (post_recv-wire e.on_recv i c.io ∙ h)
    | inr m ↦ elim (Bool-cases (is_none config.sockets)) [
      | inl n ↦ rw (m, n) h
      | inr n ↦ rw (m, n) tt
    ]
  ]

  wire-handle_completion :
      (e : Completion) (i : ℕ) (o : Operation) (c : Client F C)
      → Kept (HasWire c.io.wire) (
          handle_completion controller config e i o
            (record c { io = complete e.payload e.source i c.io }))
  unfolding handle_completion complete
  wire-handle_completion e i recv c = wire-rearm e i c.io.wire _ (wire-count_echo e i _)
  wire-handle_completion e i send c = refl

  wire-complete_at :
      (e : Completion) (o : Option ℕ) (c : Client F C)
      → Kept (HasWire c.io.wire) (complete_at controller config e o c)
  unfolding complete_at
  wire-complete_at e none c = refl
  wire-complete_at e (some i) c = wire-handle_completion e i _ c

  -- Nothing is sent for a completion entry.
  pub wire-take_completion :
      (e : Completion) (c : Client F C)
      → Kept (HasWire c.io.wire) (take_completion controller config e c)
  unfolding take_completion
  wire-take_completion e c = wire-complete_at e e.overlapped c

wire-post_down :
    (n : ℕ) (outcomes : ℕ → Outcome) (io : Io) → (post_down n outcomes io).wire ≡ io.wire
unfolding post_down
wire-post_down zero outcomes io = refl
wire-post_down (suc n) outcomes io =
    wire-post_down n outcomes (post_recv (outcomes n) n io) ∙ post_recv-wire (outcomes n) n io

-- A worker of the client starts with nothing sent.
pub wire-launch :
    {F C : Type 0} ⦃d : Double F⦄ (controller : Controller F C) (config : Config)
    (pacer : Pacer F C) (outcomes : ℕ → Outcome) (contexts : ℕ → IoContext)
    → (launch controller config pacer outcomes contexts).io.wire ≡ []
unfolding launch
wire-launch controller config pacer outcomes contexts = elim (Bool-cases (is_none config.sockets)) [
  | inl b ↦ rw b refl
  | inr b ↦ rw b (wire-post_down outstanding_ops outcomes _)
]

-- Every reply is what the entry brought, to where it came from.
abbrev pub IsEcho : Entry → Datagram → Type 0
IsEcho e y = (y.payload ≡ e.payload) × (y.dest ≡ e.source)

answer-IsEcho :
    (sync_reply : Bool) (e : Entry) (free : List ℕ) → All (IsEcho e) (answer sync_reply e free)
answer-IsEcho true e free = elim (Option-cases e.sent) [
  | inl n ↦ rw n tt
  | inr (m, n) ↦ rw n ((refl, refl), tt)
]
answer-IsEcho false e [] = tt
answer-IsEcho false e (i ∷ rest) = elim (Outcome-cases e.on_send) [
  | inl o ↦ rw o ((refl, refl), tt)
  | inr (inl o) ↦ rw o tt
  | inr (inr o) ↦ rw o tt
]

answer_at-IsEcho :
    (sync_reply : Bool) (e : Entry) (free : List ℕ) (o : Operation)
    → All (IsEcho e) (answer_at sync_reply e free o)
answer_at-IsEcho sync_reply e free recv = elim (Bool-cases (ltb 0 e.bytes_transferred)) [
  | inl b ↦ rw b (answer-IsEcho sync_reply e free)
  | inr b ↦ rw b tt
]
answer_at-IsEcho sync_reply e free send = tt

replies_at-IsEcho :
    (sync_reply : Bool) (e : Entry) (o : Option ℕ) (w : Worker)
    → All (IsEcho e) (replies_at sync_reply e o w)
replies_at-IsEcho sync_reply e none w = tt
replies_at-IsEcho sync_reply e (some c) w =
    answer_at-IsEcho sync_reply e w.available_send_contexts (w.io.contexts c).operation

pub replies-IsEcho :
    (sync_reply : Bool) (e : Entry) (w : Worker) → All (IsEcho e) (replies sync_reply e w)
replies-IsEcho sync_reply e w = replies_at-IsEcho sync_reply e e.overlapped w

-- Nor has a worker of the server.
pub wire-start :
    (outcomes : List Outcome) (contexts : ℕ → IoContext) → (start outcomes contexts).io.wire ≡ []
unfolding start
wire-start outcomes contexts = start_wire 0 outcomes _
