-- ===== src/Network.antt =====
-- A worker of client/main.cpp, any number of workers of server/main.cpp, and a network between them that
-- loses, repeats, delays and reorders datagrams, and brings others to the servers. What is assumed of it:
-- it makes up no datagram from or to the client's addresses.
pub mod Wires
pub mod Honest
pub mod Numbers
pub mod Measured
pub mod Tests
use win_udpsharded_echo.Prelude.{
  ℕ, ◌<◌, ◌≤◌, ◌≡◌, List, [], ◌∷◌, ◌++◌, Bool, true, some, All, Within, update,
}
use win_udpsharded_echo.Float.{Double}
use win_udpsharded_echo.Cc.{Controller}
use win_udpsharded_echo.Pacer.{Pacer}
use win_udpsharded_echo.SocketUtils.Io.{recv, IoContext, Outcome, Datagram}
use win_udpsharded_echo.SocketUtils.Packet.{PacketHeader, IsU64}
use win_udpsharded_echo.Server.Worker.{Worker, Entry, going, serve, start}
use win_udpsharded_echo.Server.Reach
use win_udpsharded_echo.Server.System
use win_udpsharded_echo.Client.Worker.{
  Config, Client, Tick, Completion, runs, send_packet, take_completion, check, poll_pacer,
  reset_pacer,
}
use win_udpsharded_echo.Client.Loop.{launch}
use win_udpsharded_echo.Client.Reach.{IsFresh, IsDue, IsDelivered, Note, sent, answers}

-- The header that `send_packet` writes.
abbrev pub header_of : {F C : Type 0} → Tick → Client F C → PacketHeader
header_of t c = record { sequence_number = c.next_sequence; timestamp_ns = t.stamp_ns }

-- The bytes of one of the datagrams.
abbrev pub IsCopy : List ℕ → List Datagram → Type 0
IsCopy bytes ds = (x : Datagram) × Within x ds × (x.payload ≡ bytes)

abbrev pub IsReceive : {F C : Type 0} → Completion → Client F C → Type 0
IsReceive e c = (i : ℕ) × (e.overlapped ≡ some i) × ((c.io.contexts i).operation ≡ recv)

-- What comes to the client was sent to one of its addresses by a server, and the clock that is read then
-- is not behind the time stamps of the packets so far.
pub record Comes (is_mine : ℕ → Bool) (e : Completion) (log : List PacketHeader) (ws : ℕ → Worker)
    : Type 0 where
  pub sender : ℕ
  pub datagram : Datagram
  pub was_sent : Within datagram (ws sender).io.wire
  pub to_client : is_mine datagram.dest ≡ true
  pub bytes : datagram.payload ≡ e.payload
  pub on_time : All (λ p. p.timestamp_ns ≤ e.recv_time) log

module _ {F C : Type 0} ⦃d : Double F⦄ (controller : Controller F C) (config : Config)
    (sync_reply : Bool) (is_mine : ℕ → Bool) where
  -- The states that are reached together: of the client's worker with its notes and the headers of its
  -- packets, the last one first, and of the servers' workers.
  pub data Net : Client F C → List Note → List PacketHeader → (ℕ → Worker) → Type 0 where
    begun :
        (pacer : Pacer F C) (outcomes : ℕ → Outcome) (contexts : ℕ → IoContext)
        (answers : ℕ → List Outcome) (server_contexts : ℕ → ℕ → IoContext)
        → IsFresh contexts
        → ((k : ℕ) → System.IsFresh (answers k) (server_contexts k))
        → Net
            (launch controller config pacer outcomes contexts)
            []
            []
            (λ k. start (answers k) (server_contexts k))
    checked :
        (now : ℕ) {c : Client F C} {h : List Note} {log : List PacketHeader} {ws : ℕ → Worker}
        → Net c h log ws
        → Net (check controller config now c) h log ws
    polled :
        (now : ℕ) {c : Client F C} {h : List Note} {log : List PacketHeader} {ws : ℕ → Worker}
        → Net c h log ws
        → Net (poll_pacer controller config now c) h log ws
    reset :
        (now : ℕ) {c : Client F C} {h : List Note} {log : List PacketHeader} {ws : ℕ → Worker}
        → Net c h log ws
        → Net (reset_pacer controller config now c) h log ws
    sends :
        (t : Tick) (i : ℕ) (rest : List ℕ) {c c' : Client F C} {h : List Note}
        {log : List PacketHeader} {ws : ℕ → Worker}
        → Net c h log ws
        → IsU64 (header_of t c)
        → c.available ≡ i ∷ rest
        → send_packet controller config t i rest c ≡ runs c'
        → Net c' (sent c.next_sequence ∷ h) (header_of t c ∷ log) ws
    gets :
        (e : Completion) {c c' : Client F C} {h : List Note} {log : List PacketHeader}
        {ws : ℕ → Worker}
        → Net c h log ws
        → IsDue e c.io
        → IsDelivered e
        → (IsReceive e c → Comes is_mine e log ws)
        → take_completion controller config e c ≡ runs c'
        → Net c' (answers controller config e c ++ h) log ws
    serves :
        (k : ℕ) (e : Entry) {c : Client F C} {h : List Note} {log : List PacketHeader}
        {ws : ℕ → Worker} {w : Worker}
        → Net c h log ws
        → Reach.IsDue e (ws k).io
        → Reach.IsDelivered e
        → (is_mine e.source ≡ true → IsCopy e.payload c.io.wire)
        → serve sync_reply e (ws k) ≡ going w
        → Net c h log (update k w ws)
