-- ===== src/SocketUtils/Io.antt =====
-- `io_context`, `post_recv`, `post_send` and `send_sync` of common/socket_utils. What Windows answers
-- to a call is an argument; a context is known by a number, its address, and the contexts are a
-- store. The list `pending` holds the contexts whose operation Windows has accepted, with a
-- completion still to come, and `wire` what was handed to Windows to send.
use win_udpsharded_echo.Prelude.{
  ℕ, List, [], ◌∷◌, ◌++◌, Option, none, some, ltb, ◌==◌, if◌then◌else◌, take, length,
}

abbrev pub max_packet_size : ℕ
max_packet_size = 65507

abbrev pub outstanding_ops : ℕ
outstanding_ops = 16

pub data Operation : Type 0 where
  recv send : Operation

-- The buffer is `max_packet_size` bytes; `len` is that of the `WSABUF`.
pub record IoContext : Type 0 where
  pub operation : Operation
  pub buffer : List ℕ
  pub len : ℕ
  pub remote_addr : ℕ

pub record Datagram : Type 0 where
  pub payload : List ℕ
  pub dest : ℕ

-- What `WSARecvFrom` and `WSASendTo` report: success or `WSA_IO_PENDING`, after which a completion
-- comes; `WSAECONNRESET`; any other error.
pub data Outcome : Type 0 where
  accepted connreset error : Outcome

pub record Io : Type 0 where
  pub contexts : ℕ → IoContext
  pub pending : List ℕ
  pub wire : List Datagram

abbrev pub set_context : ℕ → IoContext → (ℕ → IoContext) → ℕ → IoContext
set_context c x contexts j = if c == j then x else contexts j

-- Of the errors of a receive one is logged and one is passed over; neither is thrown.
unfoldable pub post_recv : Outcome → ℕ → Io → Io
post_recv outcome c io =
    let x = io.contexts c in
    let armed = record x { operation = recv; len = length x.buffer } in
    record io {
      contexts = set_context c armed io.contexts;
      pending = elim outcome [
        | accepted ↦ c ∷ io.pending
        | connreset ↦ io.pending
        | error ↦ io.pending
      ];
    }

-- `memcpy` over the front of the buffer.
abbrev pub overwrite : List ℕ → List ℕ → List ℕ
overwrite [] buffer = buffer
overwrite (b ∷ bs) [] = []
overwrite (b ∷ bs) (_ ∷ buffer) = b ∷ overwrite bs buffer

-- `none` is the exception, for every error. The `len` bytes at `bytes` are cut to the buffer.
unfoldable pub post_send : Outcome → ℕ → List ℕ → ℕ → ℕ → Io → Option Io
post_send outcome c bytes len dest io =
    let x = io.contexts c in
    let cut = if ltb (length x.buffer) len then length x.buffer else len in
    let body = take cut bytes in
    let filled = record x { operation = send; buffer = overwrite body x.buffer; len = cut } in
    elim outcome [
      | accepted ↦ some (record {
        contexts = set_context c filled io.contexts;
        pending = c ∷ io.pending;
        wire = io.wire ++ record { payload = body; dest = dest } ∷ [];
      })
      | connreset ↦ none
      | error ↦ none
    ]

-- `sent` is what `sendto` returns, `none` for an error; `int` holds at most 2^31 - 1.
unfoldable pub send_sync : Option ℕ → List ℕ → ℕ → ℕ → Io → Option (ℕ × Io)
send_sync none bytes len dest io = none
send_sync (some sent) bytes len dest io =
    let to_send = if ltb 2_147_483_647 len then 2_147_483_647 else len in
    some (
      sent,
      record io { wire = io.wire ++ record { payload = take to_send bytes; dest = dest } ∷ [] },
    )
