-- ===== src/Client/Sequences.antt =====
-- What a worker of client/main.cpp knows of its packets: which are outstanding, and how many are
-- dropped in the end.
use mathlib.Core.Path.{subst}
use win_udpsharded_echo.Prelude.{
  ℕ, suc, ◌+◌, ◌<◌, ◌≡◌, refl, ◌∙◌, List, [], ◌∷◌, ◌++◌, Bool, true, false, Option, none, some,
  arith, leb, ◌==◌, ==_iff, if◌then◌else◌, Bool-cases, inl, inr, length, u64_mod, member,
  set_insert, set_erase, member-set_insert, member-set_erase, IsDistinct, IsDistinct-set_insert,
  IsDistinct-set_erase, length-set_erase,
}
use win_udpsharded_echo.Float.{Double}
use win_udpsharded_echo.Cc.{Controller}
use win_udpsharded_echo.SocketUtils.Io.{Operation, recv, send}
use win_udpsharded_echo.SocketUtils.Packet.{header_size}
use win_udpsharded_echo.Client.Worker.{
  Config, Client, Completion, check, poll_pacer, reset_pacer, wind_up,
}
use win_udpsharded_echo.Client.Loop.{launch}
use win_udpsharded_echo.Client.Books.{
  Books, books, after_answers, after_packet, books-send_packet, books-take_completion,
}
use win_udpsharded_echo.Client.Reach.{
  Kept, Note, sent, answered, answer_of, answers_at, answers, Reached, launched, checked, polled,
  reset, packet, completed, Reached-IsReady,
}

-- Whether a packet is on its way, from the notes of what came before.
abbrev pub is_open : ℕ → List Note → Bool
is_open j [] = false
is_open j (sent k ∷ h) = if k == j then true else is_open j h
is_open j (answered k ∷ h) = if k == j then false else is_open j h

-- How many packets were handed over, and how many of them were answered: a second answer, or one to
-- no packet, does not count.
abbrev pub packets_of : List Note → ℕ
packets_of [] = 0
packets_of (sent k ∷ h) = suc (packets_of h)
packets_of (answered k ∷ h) = packets_of h

abbrev pub echoed_of : List Note → ℕ
echoed_of [] = 0
echoed_of (sent k ∷ h) = echoed_of h
echoed_of (answered k ∷ h) = (if is_open k h then 1 else 0) + echoed_of h

-- The accounts agree with the notes.
pub record Agrees (b : Books) (h : List Note) : Type 0 where
  pub next_eq : b.next ≡ packets_of h
  pub packets_eq : b.packets ≡ packets_of h
  pub none_dropped : b.dropped ≡ 0
  pub distinct : IsDistinct b.outstanding
  pub members : (j : ℕ) → member j b.outstanding ≡ is_open j h
  pub below : (j : ℕ) → is_open j h ≡ true → j < packets_of h
  pub all_there : length b.outstanding + echoed_of h ≡ packets_of h

Agrees-after_packet :
    (b : Books) (h : List Note)
    → suc (packets_of h) < u64_mod
    → Agrees b h
    → Agrees (after_packet b) (sent b.next ∷ h)
unfolding set_insert
Agrees-after_packet b h small a =
    let fresh : member b.next b.outstanding ≡ false = elim (Bool-cases (is_open b.next h)) [
      | inl o ↦ absurd (omega (arith, a.below b.next o, a.next_eq))
      | inr o ↦ a.members b.next ∙ o
    ] in
    record {
      next_eq = omega (arith, a.next_eq);
      packets_eq = omega (arith, a.packets_eq);
      none_dropped = a.none_dropped;
      distinct = IsDistinct-set_insert b.next b.outstanding a.distinct;
      members = λ j. ground (arith, member-set_insert b.next j b.outstanding, a.members j);
      below = λ j. ground (arith, ==_iff b.next j, a.below j, a.next_eq);
      all_there = ground (arith, fresh, a.all_there);
    }

Agrees-answered :
    (b : Books) (h : List Note) (k : ℕ)
    → Agrees b h
    → Agrees (record b { outstanding = set_erase k b.outstanding }) (answered k ∷ h)
Agrees-answered b h k a = record {
  next_eq = a.next_eq;
  packets_eq = a.packets_eq;
  none_dropped = a.none_dropped;
  distinct = IsDistinct-set_erase k b.outstanding a.distinct;
  members = λ j. ground (arith, member-set_erase k j b.outstanding, a.members j);
  below = λ j. ground (arith, a.below j);
  all_there = ground (arith, length-set_erase k b.outstanding a.distinct, a.members k, a.all_there);
}

Agrees-answer_of :
    (e : Completion) (o : Operation) (b : Books) (h : List Note)
    → Agrees b h
    → Agrees (after_answers (answer_of e o) b) (answer_of e o ++ h)
Agrees-answer_of e recv b h a = elim (Bool-cases (leb header_size e.bytes_transferred)) [
  | inl t ↦ rw t (Agrees-answered b h _ a)
  | inr t ↦ rw t a
]
Agrees-answer_of e send b h a = a

packets_of-answer_of :
    (e : Completion) (o : Operation) (h : List Note)
    → packets_of (answer_of e o ++ h) ≡ packets_of h
packets_of-answer_of e recv h = elim (Bool-cases (leb header_size e.bytes_transferred)) [
  | inl t ↦ rw t refl
  | inr t ↦ rw t refl
]
packets_of-answer_of e send h = refl

module _ {F C : Type 0} ⦃d : Double F⦄ (controller : Controller F C) (config : Config) where
  Agrees-answers_at :
      (e : Completion) (o : Option ℕ) (c : Client F C) (b : Books) (h : List Note)
      → Agrees b h
      → Agrees
          (after_answers (answers_at controller config e o c) b)
          (answers_at controller config e o c ++ h)
  Agrees-answers_at e none c b h a = a
  Agrees-answers_at e (some i) c b h a = Agrees-answer_of e _ b h a

  pub packets_of-answers_at :
      (e : Completion) (o : Option ℕ) (c : Client F C) (h : List Note)
      → packets_of (answers_at controller config e o c ++ h) ≡ packets_of h
  packets_of-answers_at e none c h = refl
  packets_of-answers_at e (some i) c h = packets_of-answer_of e _ h

  pub Reached-Agrees :
      {c : Client F C} {h : List Note}
      → Reached controller config c h
      → packets_of h < u64_mod
      → Agrees (books c) h
  unfolding launch check poll_pacer reset_pacer member
  Reached-Agrees (launched pacer outcomes contexts f) m = record {
    next_eq = refl;
    packets_eq = refl;
    none_dropped = refl;
    distinct = tt;
    members = λ j. refl;
    below = λ j. ground arith;
    all_there = refl;
  }
  Reached-Agrees (checked now r) m = Reached-Agrees r m
  Reached-Agrees (polled now r) m = Reached-Agrees r m
  Reached-Agrees (reset now r) m = Reached-Agrees r m
  Reached-Agrees (packet t i rest {c} {c'} {h} r a e) m =
      let changed : books c' ≡ after_packet (books c) =
        subst (Kept (λ x. books x ≡ after_packet (books c))) e
          (books-send_packet controller config t i rest c) in
      rw changed (Agrees-after_packet (books c) h m (Reached-Agrees r (omega arith)))
  Reached-Agrees (completed e {c} {c'} {h} r due del eq) m =
      let ns = answers controller config e c in
      let changed : books c' ≡ after_answers ns (books c) =
        subst (Kept (λ x. books x ≡ after_answers ns (books c))) eq (
          books-take_completion controller config e c (Reached-IsReady controller config r).sized
            del) in
      let kept = packets_of-answers_at e e.overlapped c h in
      rw changed
        (Agrees-answers_at e e.overlapped c (books c) h (Reached-Agrees r (omega (arith, kept))))

  -- In every state that a worker reaches without an exception and with fewer than 2^64 packets, the
  -- outstanding numbers are exactly those of the packets that were handed over and not answered since.
  -- If the worker ends there, each packet counts once: `packets_dropped`, with the packets that were
  -- answered, makes `packets_sent`, and what was still on its way at the end counts as dropped.
  pub Reached-accounts :
      {c : Client F C} {h : List Note}
      → Reached controller config c h
      → packets_of h < u64_mod
      → (c.packets_sent ≡ packets_of h)
        × ((j : ℕ) → member j c.outstanding_sequences ≡ is_open j h)
        × ((wind_up controller config c).packets_dropped + echoed_of h ≡ c.packets_sent)
  unfolding wind_up
  Reached-accounts r m =
      let a = Reached-Agrees r m in
      (a.packets_eq, a.members, omega (arith, a.all_there, a.packets_eq, a.none_dropped))
