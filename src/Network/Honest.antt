-- ===== src/Network/Honest.antt =====
-- That every echo which the client's worker takes for an answer is one, whatever the network does.
use mathlib.Core.Path.{subst}
use win_udpsharded_echo.Prelude.{
  ℕ, ◌+◌, ◌≤◌, ◌≡◌, refl, sym, ap, ◌∙◌, List, [], ◌∷◌, ◌++◌, Bool, true, Option, none, some, length,
  leb, All, All-append, All-map, All-Within, Within, update, update-All, inl, inr, Bool-cases,
}
use win_udpsharded_echo.Float.{Double}
use win_udpsharded_echo.Cc.{Controller}
use win_udpsharded_echo.SocketUtils.Io.{Operation, recv, send, IoContext, Outcome, Datagram}
use win_udpsharded_echo.SocketUtils.Packet.{PacketHeader, get_header, header_size, max_payload_size}
use win_udpsharded_echo.Server.Worker.{Worker, Entry, going, serve}
use win_udpsharded_echo.Server.Reach
use win_udpsharded_echo.Server.System
use win_udpsharded_echo.Server.Echo.{worker_of, replies, Reached-serve-replies}
use win_udpsharded_echo.Client.Worker.{
  Config, Client, Tick, Completion, check, poll_pacer, reset_pacer,
}
use win_udpsharded_echo.Client.Reach as Alone
use win_udpsharded_echo.Client.Reach.{Kept, Note, sent, answered, answers, answers_at, answer_of}
use win_udpsharded_echo.Client.Wire.{Carries, send_packet-wire}
use win_udpsharded_echo.Network.{
  Net, begun, checked, polled, reset, sends, gets, serves, IsCopy, Comes, IsReceive, header_of,
}
use win_udpsharded_echo.Network.Wires.{
  wire-take_completion, wire-launch, wire-start, IsEcho, replies-IsEcho,
}

-- Each answer is noted after its packet, the last note first.
abbrev pub IsHonest : List Note → Type 0
IsHonest [] = Unit {0}
IsHonest (sent j ∷ h) = IsHonest h
IsHonest (answered j ∷ h) = Within (sent j) h × IsHonest h

IsHonest-answer_of :
    (e : Completion) (o : Operation) (h : List Note)
    → (o ≡ recv → Within (sent (get_header e.payload).sequence_number) h)
    → IsHonest h
    → IsHonest (answer_of e o ++ h)
IsHonest-answer_of e recv h f k = elim (Bool-cases (leb header_size e.bytes_transferred)) [
  | inl b ↦ rw b (f refl, k)
  | inr b ↦ rw b k
]
IsHonest-answer_of e send h f k = k

module _ {F C : Type 0} ⦃d : Double F⦄ (controller : Controller F C) (config : Config)
    (sync_reply : Bool) (is_mine : ℕ → Bool) (fits : config.payload_size ≤ max_payload_size) where
  IsHonest-answers_at :
      (e : Completion) (o : Option ℕ) (c : Client F C) (h : List Note)
      → ((i : ℕ)
          → o ≡ some i
          → (c.io.contexts i).operation ≡ recv
          → Within (sent (get_header e.payload).sequence_number) h)
      → IsHonest h
      → IsHonest (answers_at controller config e o c ++ h)
  IsHonest-answers_at e none c h f k = k
  IsHonest-answers_at e (some i) c h f k = IsHonest-answer_of e _ h (f i refl) k

  -- The bytes of a packet with one of the headers.
  pub record IsPacket (log : List PacketHeader) (bytes : List ℕ) : Type 0 where
    pub header : PacketHeader
    pub in_log : Within header log
    pub reads_back : get_header bytes ≡ header
    pub whole : length bytes ≡ header_size + config.payload_size

  IsPacket-later :
      (p : PacketHeader) (log : List PacketHeader) (bytes : List ℕ)
      → IsPacket log bytes
      → IsPacket (p ∷ log) bytes
  IsPacket-later p log bytes k = record {
    header = k.header;
    in_log = inr k.in_log;
    reads_back = k.reads_back;
    whole = k.whole;
  }

  -- A datagram of a server is a packet, if it goes to the client.
  abbrev pub IsReply : List PacketHeader → Datagram → Type 0
  IsReply log y = is_mine y.dest ≡ true → IsPacket log y.payload

  abbrev pub Serves : Worker → Type 0
  Serves w =
      (answers : List Outcome) × (contexts : ℕ → IoContext) × System.IsFresh answers contexts
      × Reach.Reached sync_reply answers contexts w

  -- What holds of all that is reached together.
  pub record Sound (c : Client F C) (h : List Note) (log : List PacketHeader) (ws : ℕ → Worker)
      : Type 0 where
    pub reached : Alone.Reached controller config c h
    pub served : (k : ℕ) → Serves (ws k)
    pub on_wire : All (λ x. IsPacket log x.payload) c.io.wire
    pub replied : (k : ℕ) → All (IsReply log) (ws k).io.wire
    pub noted : All (λ p. Within (sent p.sequence_number) h) log
    pub honest : IsHonest h

  Sound-quiet :
      {c c' : Client F C} {h : List Note} {log : List PacketHeader} {ws : ℕ → Worker}
      → c'.io.wire ≡ c.io.wire
      → Alone.Reached controller config c' h
      → Sound c h log ws
      → Sound c' h log ws
  Sound-quiet {log} w r s = record {
    reached = r;
    served = s.served;
    on_wire = subst (All (λ x. IsPacket log x.payload)) (sym w) s.on_wire;
    replied = s.replied;
    noted = s.noted;
    honest = s.honest;
  }

  Sound-sends :
      (t : Tick) {c c' : Client F C} {h : List Note} {log : List PacketHeader} {ws : ℕ → Worker}
      → Alone.Reached controller config c' (sent c.next_sequence ∷ h)
      → (x : Datagram) × (c'.io.wire ≡ c.io.wire ++ x ∷ []) × Carries config (header_of t c) x
      → Sound c h log ws
      → Sound c' (sent c.next_sequence ∷ h) (header_of t c ∷ log) ws
  Sound-sends t {c} {c'} {h} {log} {ws} r (x, w, carries) s =
      let p = header_of t c in
      let later = IsPacket-later p log in
      record {
        reached = r;
        served = s.served;
        on_wire = subst (All (λ x. IsPacket (p ∷ log) x.payload)) (sym w) (
            All-append (λ x. IsPacket (p ∷ log) x.payload) c.io.wire (x ∷ [])
              (All-map (λ x. IsPacket log x.payload) _ c.io.wire (λ x. later x.payload) s.on_wire)
              (
                record {
                  header = p;
                  in_log = inl refl;
                  reads_back = carries.reads_back;
                  whole = carries.whole;
                },
                tt,
              ));
        replied = λ k.
            All-map (IsReply log) (IsReply (p ∷ log)) (ws k).io.wire
              (λ y f m. later y.payload (f m)) (s.replied k);
        noted = (
          inl refl,
          All-map (λ p. Within (sent p.sequence_number) h) _ log (λ p at. inr at) s.noted,
        );
        honest = s.honest;
      }

  -- What comes to the client from a server is a packet.
  pub Comes-IsPacket :
      (e : Completion) {c : Client F C} {h : List Note} {log : List PacketHeader} {ws : ℕ → Worker}
      → Sound c h log ws
      → Comes is_mine e log ws
      → IsPacket log e.payload
  Comes-IsPacket e {log} {ws} s m = subst (IsPacket log) m.bytes (
      All-Within (IsReply log) (ws m.sender).io.wire m.datagram (s.replied m.sender) m.was_sent
        m.to_client)

  noted-IsPacket :
      {c : Client F C} {h : List Note} {log : List PacketHeader} {ws : ℕ → Worker} (bytes : List ℕ)
      → Sound c h log ws
      → IsPacket log bytes
      → Within (sent (get_header bytes).sequence_number) h
  noted-IsPacket {h} {log} bytes s k =
      subst (λ p. Within (sent p.sequence_number) h) (sym k.reads_back)
        (All-Within (λ p. Within (sent p.sequence_number) h) log k.header s.noted k.in_log)

  Within-append : (x : Note) (ns h : List Note) → Within x h → Within x (ns ++ h)
  Within-append x [] h at = at
  Within-append x (n ∷ ns) h at = inr (Within-append x ns h at)

  Sound-gets :
      (e : Completion) {c c' : Client F C} {h : List Note} {log : List PacketHeader}
      {ws : ℕ → Worker}
      → Alone.Reached controller config c' (answers controller config e c ++ h)
      → c'.io.wire ≡ c.io.wire
      → (IsReceive e c → Comes is_mine e log ws)
      → Sound c h log ws
      → Sound c' (answers controller config e c ++ h) log ws
  Sound-gets e {c} {c'} {h} {log} {ws} r w comes s = record {
    reached = r;
    served = s.served;
    on_wire = subst (All (λ x. IsPacket log x.payload)) (sym w) s.on_wire;
    replied = s.replied;
    noted =
        All-map (λ p. Within (sent p.sequence_number) h) _ log
          (λ p at. Within-append (sent p.sequence_number) (answers controller config e c) h at)
          s.noted;
    honest =
        IsHonest-answers_at e e.overlapped c h
          (λ i at op. noted-IsPacket e.payload s (Comes-IsPacket e s (comes (i, at, op)))) s.honest;
  }

  Sound-serves :
      (k : ℕ) (e : Entry) {c : Client F C} {h : List Note} {log : List PacketHeader}
      {ws : ℕ → Worker} {w : Worker}
      → Reach.IsDue e (ws k).io
      → Reach.IsDelivered e
      → (is_mine e.source ≡ true → IsCopy e.payload c.io.wire)
      → serve sync_reply e (ws k) ≡ going w
      → Sound c h log ws
      → Sound c h log (update k w ws)
  Sound-serves k e {c} {h} {log} {ws} {w} due del copy eq s =
      let (answers, contexts, f, r) = s.served k in
      let step =
        Reached-serve-replies sync_reply answers contexts (ws k) e f.answered f.operation_recv
          f.sized r del in
      let wire_eq : w.io.wire ≡ (ws k).io.wire ++ replies sync_reply e (ws k) =
        ap (λ o. (worker_of o).io.wire) (sym eq) ∙ step.on_wire in
      let echoes : All (IsReply log) (replies sync_reply e (ws k)) =
        All-map (IsEcho e) (IsReply log) (replies sync_reply e (ws k))
          (λ y same mine.
            let (x, at, bytes) = copy (ap is_mine (sym same.1) ∙ mine) in
            subst (IsPacket log) (bytes ∙ sym same.0)
              (All-Within (λ x. IsPacket log x.payload) c.io.wire x s.on_wire at))
          (replies-IsEcho sync_reply e (ws k)) in
      record {
        reached = s.reached;
        served =
            update-All (λ j. Serves) k w ws (answers, contexts, f, Reach.served r e due del eq)
              (λ j _. s.served j);
        on_wire = s.on_wire;
        replied =
            update-All (λ j w. All (IsReply log) w.io.wire) k w ws
              (subst (All (IsReply log)) (sym wire_eq)
                (All-append (IsReply log) (ws k).io.wire _ (s.replied k) echoes))
              (λ j _. s.replied j);
        noted = s.noted;
        honest = s.honest;
      }

  pub Net-Sound :
      {c : Client F C} {h : List Note} {log : List PacketHeader} {ws : ℕ → Worker}
      → Net controller config sync_reply is_mine c h log ws
      → Sound c h log ws
  unfolding check poll_pacer reset_pacer
  Net-Sound (begun pacer outcomes contexts answers server_contexts f g) = record {
    reached = Alone.launched pacer outcomes contexts f;
    served = λ k. (answers k, server_contexts k, g k, Reach.started);
    on_wire =
        subst (All (λ x. IsPacket [] x.payload))
          (sym (wire-launch controller config pacer outcomes contexts)) tt;
    replied = λ k. subst (All (IsReply [])) (sym (wire-start (answers k) (server_contexts k))) tt;
    noted = tt;
    honest = tt;
  }
  Net-Sound (checked now n) =
      let s = Net-Sound n in Sound-quiet refl (Alone.checked now s.reached) s
  Net-Sound (polled now n) = let s = Net-Sound n in Sound-quiet refl (Alone.polled now s.reached) s
  Net-Sound (reset now n) = let s = Net-Sound n in Sound-quiet refl (Alone.reset now s.reached) s
  Net-Sound (sends t i rest n u a eq) =
      let s = Net-Sound n in
      Sound-sends t (Alone.packet t i rest s.reached a eq)
        (send_packet-wire controller config t i rest fits u s.reached a eq) s
  Net-Sound (gets e {c} n due del comes eq) =
      let s = Net-Sound n in
      Sound-gets e (Alone.completed e s.reached due del eq)
        (subst (Kept (λ c'. c'.io.wire ≡ c.io.wire)) eq
          (wire-take_completion controller config e c))
        comes s
  Net-Sound (serves k e n due del copy eq) = Sound-serves k e due del copy eq (Net-Sound n)
