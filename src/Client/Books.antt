-- ===== src/Client/Books.antt =====
-- How one step of a worker of client/main.cpp changes the accounts of its packets.
use win_udpsharded_echo.Prelude.{
  ℕ, ◌≡◌, refl, ap, ◌∙◌, List, [], ◌∷◌, Option, none, some, arith, leb, Bool-cases, inl, inr,
  length, add64, member, set_insert, set_erase,
}
use win_udpsharded_echo.Float.{Double}
use win_udpsharded_echo.Cc.{Controller}
use win_udpsharded_echo.SocketUtils.Io.{Operation, recv, send, Io, max_packet_size, overwrite}
use win_udpsharded_echo.SocketUtils.Contexts.{complete}
use win_udpsharded_echo.SocketUtils.Packet.{header_size, get_header, get_header-overwrite}
use win_udpsharded_echo.Client.Worker.{
  Config, Client, Tick, Completion, build_packet, count_send, send_packet, is_none, take_echo,
  rearm, count_echo, handle_completion, complete_at, take_completion,
}
use win_udpsharded_echo.Client.Reach.{
  Kept, IsDelivered, Note, sent, answered, answer_of, answers_at, answers,
}

-- The four fields that the accounts are about.
pub record Books : Type 0 where
  pub next : ℕ
  pub packets : ℕ
  pub dropped : ℕ
  pub outstanding : List ℕ

abbrev pub books : {F C : Type 0} → Client F C → Books
books c = record {
  next = c.next_sequence;
  packets = c.packets_sent;
  dropped = c.packets_dropped;
  outstanding = c.outstanding_sequences;
}

abbrev pub after_answers : List Note → Books → Books
after_answers [] b = b
after_answers (answered j ∷ ns) b =
    let r = after_answers ns b in record r { outstanding = set_erase j r.outstanding }
after_answers (sent j ∷ ns) b = after_answers ns b

abbrev pub after_packet : Books → Books
after_packet b = record b {
  next = add64 b.next 1;
  packets = add64 b.packets 1;
  outstanding = set_insert b.next b.outstanding;
}

module _ {F C : Type 0} ⦃d : Double F⦄ (controller : Controller F C) (config : Config) where
  books-count_send :
      (t : Tick) (i : ℕ) (rest : List ℕ) (c : Client F C) (o : Option Io)
      → Kept
          (λ c'. books c' ≡ after_packet (books c))
          (count_send controller config t c.next_sequence
            (build_packet controller config t i rest c)
            o)
  unfolding count_send build_packet
  books-count_send t i rest c none = tt
  books-count_send t i rest c (some io) = refl

  pub books-send_packet :
      (t : Tick) (i : ℕ) (rest : List ℕ) (c : Client F C)
      → Kept (λ c'. books c' ≡ after_packet (books c)) (send_packet controller config t i rest c)
  unfolding send_packet
  books-send_packet t i rest c = books-count_send t i rest c _

  books-rearm :
      (e : Completion) (i : ℕ) (c : Client F C) (b : Books)
      → books c ≡ b
      → Kept (λ c'. books c' ≡ b) (rearm controller config e i c)
  unfolding rearm
  books-rearm e i c b h = elim (Bool-cases (member e.completion_key config.sockets)) [
    | inl m ↦ rw m h
    | inr m ↦ elim (Bool-cases (is_none config.sockets)) [
      | inl n ↦ rw (m, n) h
      | inr n ↦ rw (m, n) tt
    ]
  ]

  pub buffer-complete :
      (payload : List ℕ) (source i : ℕ) (io : Io)
      → (io.contexts i).operation ≡ recv
      → ((complete payload source i io).contexts i).buffer
        ≡ overwrite payload (io.contexts i).buffer
  unfolding complete
  buffer-complete payload source i io o = ground (arith, o)

  books-count_echo :
      (e : Completion) (i : ℕ) (c : Client F C)
      → (c.io.contexts i).operation ≡ recv
      → length (c.io.contexts i).buffer ≡ max_packet_size
      → IsDelivered e
      → books
          (count_echo controller config e i (record c { io = complete e.payload e.source i c.io }))
        ≡ after_answers (answer_of e recv) (books c)
  unfolding count_echo take_echo
  books-count_echo e i c o z (n, m) = elim (Bool-cases (leb header_size e.bytes_transferred)) [
    | inl b ↦
        let seen =
          ap get_header (buffer-complete e.payload e.source i c.io o)
          ∙ get_header-overwrite e.payload (c.io.contexts i).buffer (ground arith) (omega arith) in
        rw (b, seen) refl
    | inr b ↦ rw b refl
  ]

  books-handle_completion :
      (e : Completion) (i : ℕ) (o : Operation) (c : Client F C)
      → (c.io.contexts i).operation ≡ o
      → length (c.io.contexts i).buffer ≡ max_packet_size
      → IsDelivered e
      → Kept
          (λ c'. books c' ≡ after_answers (answer_of e o) (books c))
          (handle_completion controller config e i o
            (record c { io = complete e.payload e.source i c.io }))
  unfolding handle_completion
  books-handle_completion e i recv c o z del = books-rearm e i _ _ (books-count_echo e i c o z del)
  books-handle_completion e i send c o z del = refl

  books-complete_at :
      (e : Completion) (o : Option ℕ) (c : Client F C)
      → ((j : ℕ) → length (c.io.contexts j).buffer ≡ max_packet_size)
      → IsDelivered e
      → Kept
          (λ c'. books c' ≡ after_answers (answers_at controller config e o c) (books c))
          (complete_at controller config e o c)
  unfolding complete_at
  books-complete_at e none c z del = refl
  books-complete_at e (some i) c z del = books-handle_completion e i _ c refl (z i) del

  pub books-take_completion :
      (e : Completion) (c : Client F C)
      → ((j : ℕ) → length (c.io.contexts j).buffer ≡ max_packet_size)
      → IsDelivered e
      → Kept
          (λ c'. books c' ≡ after_answers (answers controller config e c) (books c))
          (take_completion controller config e c)
  unfolding take_completion
  books-take_completion e c z del = books-complete_at e e.overlapped c z del
