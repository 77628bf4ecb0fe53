-- ===== src/Client/Fills.antt =====
-- The inner loop of `worker_thread_func` of client/main.cpp, which sends while there is a context and the
-- pacer permits.
use mathlib.Core.Path.{subst}
use win_udpsharded_echo.Prelude.{
  ℕ, zero, suc, ◌+◌, ◌≡◌, refl, ap, ◌∙◌, List, [], ◌∷◌, ◌++◌, true, false, arith, length, add64,
  Bool-cases, inl, inr, ◌⊎◌,
}
use win_udpsharded_echo.Float.{Double}
use win_udpsharded_echo.Cc.{Controller}
use win_udpsharded_echo.Pacer.{Pacer, can_send, record_send}
use win_udpsharded_echo.SocketUtils.Io.{post_send}
use win_udpsharded_echo.SocketUtils.Contexts.{Outcome-cases}
use win_udpsharded_echo.Client.Worker.{
  Config, Client, Tick, Progress, runs, breaks, build_packet, count_send, send_packet, check,
  send_all,
}
use win_udpsharded_echo.Client.Reach.{Kept}
use win_udpsharded_echo.Client.Turns.{Kept-bind}

-- The number after `n` packets, from `seq` on; also a counter after as many.
abbrev pub advance : ℕ → ℕ → ℕ
advance zero seq = seq
advance (suc n) seq = advance n (add64 seq 1)

length-append_one : {A : Type 0} (xs : List A) (x : A) → length (xs ++ x ∷ []) ≡ suc (length xs)
length-append_one [] x = refl
length-append_one (y ∷ xs) x = ap suc (length-append_one xs x)

module _ {F C : Type 0} ⦃d : Double F⦄ (controller : Controller F C) (config : Config) where
  -- From the `k`th check on, the pacer grants `n` packets one after the other, the first with the number
  -- `seq`, and learns of each; then it is `q`.
  pub data Grants (ticks : ℕ → Tick) : ℕ → ℕ → ℕ → Pacer F C → Pacer F C → Type 0 where
    no_more : {k seq : ℕ} {p : Pacer F C} → Grants ticks k 0 seq p p
    one_more :
        {k n seq : ℕ} {p q : Pacer F C}
        → (can_send controller (ticks k).check_ns p).1 ≡ true
        → Grants ticks
            (k + 1)
            n
            (add64 seq 1)
            (record_send controller
              (ticks k).record_ns
              seq
              (can_send controller (ticks k).check_ns p).0)
            q
        → Grants ticks k (suc n) seq p q

  -- `n` packets were sent, each granted, and then no context was free or the pacer refused.
  pub record Fills (ticks : ℕ → Tick) (k : ℕ) (c c' : Client F C) : Type 0 where
    pub n : ℕ
    pub last : Pacer F C
    pub granted : Grants ticks k n c.next_sequence c.pacer last
    pub used : length c'.available + n ≡ length c.available
    pub on_wire : length c'.io.wire ≡ length c.io.wire + n
    pub in_count : c'.packets_sent ≡ advance n c.packets_sent
    pub numbered : c'.next_sequence ≡ advance n c.next_sequence
    pub at_end :
        ((c'.available ≡ []) × (c'.pacer ≡ last))
        ⊎ (((can_send controller (ticks (k + n)).check_ns last).1 ≡ false)
            × (c'.pacer ≡ (can_send controller (ticks (k + n)).check_ns last).0))

  -- One packet, after a check that granted it.
  record SendsOne (t : Tick) (rest : List ℕ) (c c' : Client F C) : Type 0 where
    available_eq : c'.available ≡ rest
    wire_eq : length c'.io.wire ≡ suc (length c.io.wire)
    count_eq : c'.packets_sent ≡ add64 c.packets_sent 1
    sequence_eq : c'.next_sequence ≡ add64 c.next_sequence 1
    pacer_eq : c'.pacer ≡ record_send controller t.record_ns c.next_sequence c.pacer

  SendsOne-send_packet :
      (t : Tick) (i : ℕ) (rest : List ℕ) (c : Client F C)
      → Kept (SendsOne t rest c) (send_packet controller config t i rest c)
  unfolding send_packet build_packet count_send post_send
  SendsOne-send_packet t i rest c = elim (Outcome-cases t.on_send) [
    | inl o ↦ rw o (record {
      available_eq = refl;
      wire_eq = length-append_one c.io.wire _;
      count_eq = refl;
      sequence_eq = refl;
      pacer_eq = refl;
    })
    | inr (inl o) ↦ rw o tt
    | inr (inr o) ↦ rw o tt
  ]

  Fills-none : (ticks : ℕ → Tick) (k : ℕ) (c : Client F C) → c.available ≡ [] → Fills ticks k c c
  Fills-none ticks k c a = record {
    n = 0;
    last = c.pacer;
    granted = no_more;
    used = omega arith;
    on_wire = omega arith;
    in_count = refl;
    numbered = refl;
    at_end = inl (a, refl);
  }

  Fills-refused :
      (ticks : ℕ → Tick) (k : ℕ) (c : Client F C)
      → (can_send controller (ticks k).check_ns c.pacer).1 ≡ false
      → Fills ticks k c (check controller config (ticks k).check_ns c)
  unfolding check
  Fills-refused ticks k c b =
      let same : k + 0 ≡ k = omega arith in
      record {
        n = 0;
        last = c.pacer;
        granted = no_more;
        used = omega arith;
        on_wire = omega arith;
        in_count = refl;
        numbered = refl;
        at_end = rw same (inr (b, refl));
      }

  Fills-one_more :
      (ticks : ℕ → Tick) (k i : ℕ) (rest : List ℕ) (c c₁ c' : Client F C)
      → c.available ≡ i ∷ rest
      → (can_send controller (ticks k).check_ns c.pacer).1 ≡ true
      → SendsOne (ticks k) rest (check controller config (ticks k).check_ns c) c₁
      → Fills ticks (k + 1) c₁ c'
      → Fills ticks k c c'
  unfolding check
  Fills-one_more ticks k i rest c c₁ c' a b s f =
      let next : k + 1 + f.n ≡ k + suc f.n = omega arith in
      record {
        n = suc f.n;
        last = f.last;
        granted = one_more b (
            subst (λ p. Grants ticks (k + 1) f.n (add64 c.next_sequence 1) p f.last) s.pacer_eq
              (subst (λ seq. Grants ticks (k + 1) f.n seq c₁.pacer f.last) s.sequence_eq
                f.granted));
        used = omega (arith, f.used, ap length s.available_eq, ap length a);
        on_wire = omega (arith, f.on_wire, s.wire_eq);
        in_count = f.in_count ∙ ap (advance f.n) s.count_eq;
        numbered = f.numbered ∙ ap (advance f.n) s.sequence_eq;
        at_end =
            subst
              (λ j.
                ((c'.available ≡ []) × (c'.pacer ≡ f.last))
                ⊎ (((can_send controller (ticks j).check_ns f.last).1 ≡ false)
                    × (c'.pacer ≡ (can_send controller (ticks j).check_ns f.last).0)))
              next f.at_end;
      }

  Fills-send_all :
      (ticks : ℕ → Tick) (k : ℕ) (free : List ℕ) (c : Client F C)
      → c.available ≡ free
      → Kept (Fills ticks k c) (send_all controller config ticks k free c)
  unfolding send_all
  Fills-send_all ticks k [] c a = Fills-none ticks k c a
  Fills-send_all ticks k (i ∷ rest) c a =
      elim (Bool-cases (can_send controller (ticks k).check_ns c.pacer).1) [
        | inl b ↦
            let checked = check controller config (ticks k).check_ns c in
            rw (b, Kept)
              (Kept-bind controller config (SendsOne (ticks k) rest checked) (Fills ticks k c) _ _
                (SendsOne-send_packet (ticks k) i rest checked)
                (λ c₁ eq s.
                  Kept-map (Fills ticks (k + 1) c₁) (Fills ticks k c)
                    (send_all controller config ticks (k + 1) rest c₁)
                    (λ c' f. Fills-one_more ticks k i rest c c₁ c' a b s f)
                    (Fills-send_all ticks (k + 1) rest c₁ s.available_eq)))
        | inr b ↦ rw (b, Kept) (Fills-refused ticks k c b)
      ]
    where
      Kept-map :
          (P Q : Client F C → Type 0) (s : Progress F C)
          → ((c : Client F C) → P c → Q c)
          → Kept P s
          → Kept Q s
      Kept-map P Q (runs c) f p = f c p
      Kept-map P Q (breaks c) f p = tt

  -- A worker's burst without an exception: it sends some number of packets, each of which the pacer
  -- granted at the check before it and then heard of, with its number. Each takes a free context, puts
  -- one datagram on the wire, and counts, modulo 2^64, in `packets_sent` and the numbers. The burst does
  -- not end before the free contexts are used up or the pacer refuses the next packet.
  pub send_all-Fills :
      (ticks : ℕ → Tick) (c c' : Client F C)
      → send_all controller config ticks 0 c.available c ≡ runs c'
      → Fills ticks 0 c c'
  send_all-Fills ticks c c' eq =
      subst (Kept (Fills ticks 0 c)) eq (Fills-send_all ticks 0 c.available c refl)
