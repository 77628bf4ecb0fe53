-- ===== src/Server/Count.antt =====
-- The counter `packets_sent` of a worker of server/main.cpp.
use mathlib.Core.Path.{subst}
use win_udpsharded_echo.Prelude.{
  ℕ, ◌+◌, ◌%◌, ◌≡◌, refl, sym, ap, ◌∙◌, List, [], ◌∷◌, Bool, arith, length, length-append, u64_mod,
}
use win_udpsharded_echo.SocketUtils.Io.{
  recv, IoContext, Outcome, Io, Datagram, max_packet_size, outstanding_ops, post_recv,
}
use win_udpsharded_echo.Server.Worker.{Worker, post_all, start}
use win_udpsharded_echo.Server.Reach.{Reached, started, served}
use win_udpsharded_echo.Server.Echo.{
  HasSent, worker_of, replies, count_up, post_recv-wire, Reached-serve-replies,
}

count_up-length : (r : List Datagram) (n : ℕ) → count_up r (n % u64_mod) ≡ (n + length r) % u64_mod
count_up-length [] n = ap (λ m. m % u64_mod) (omega arith)
count_up-length (x ∷ r) n =
    ap (count_up r) (omega arith) ∙ count_up-length r (n + 1) ∙ ap (λ m. m % u64_mod) (omega arith)

pub start_wire :
    (c : ℕ) (outcomes : List Outcome) (io : Io) → (post_all c outcomes io).wire ≡ io.wire
unfolding post_all
start_wire c [] io = refl
start_wire c (o ∷ outcomes) io =
    start_wire (c + 1) outcomes (post_recv o c io) ∙ post_recv-wire o c io

-- A worker starts with contexts as their constructor leaves them. In every state that it reaches by
-- entries that report the length of what came, at most 65507 bytes, `packets_sent` is the number of
-- datagrams that Windows has taken, modulo 2^64.
pub Reached-packets_sent :
    (sync_reply : Bool) (outcomes : List Outcome) (contexts : ℕ → IoContext) (w : Worker)
    → length outcomes ≡ outstanding_ops
    → ((j : ℕ) → (contexts j).operation ≡ recv)
    → ((j : ℕ) → length (contexts j).buffer ≡ max_packet_size)
    → Reached sync_reply outcomes contexts w
    → w.packets_sent ≡ length w.io.wire % u64_mod
unfolding start
Reached-packets_sent sync_reply outcomes contexts w n r z started =
    ap (λ l. length l % u64_mod) (sym (start_wire 0 outcomes _))
Reached-packets_sent sync_reply outcomes contexts w' n r z (served {w} reached e due del eq) =
    let before = Reached-packets_sent sync_reply outcomes contexts w n r z reached in
    let step : HasSent w w' (replies sync_reply e w) =
      subst (λ s. HasSent w (worker_of s) (replies sync_reply e w)) eq
        (Reached-serve-replies sync_reply outcomes contexts w e n r z reached del) in
    step.in_count
    ∙ ap (count_up (replies sync_reply e w)) before
    ∙ count_up-length (replies sync_reply e w) (length w.io.wire)
    ∙ ap (λ m. m % u64_mod)
        (sym (ap length step.on_wire ∙ length-append w.io.wire (replies sync_reply e w)))
