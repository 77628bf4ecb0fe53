-- ===== src/SocketUtils/Contexts.antt =====
-- Where the 32 contexts of a worker are: free, or with Windows. The receive contexts are 0 to 15 and
-- the send contexts 16 to 31, in both programs.
use mathlib.Core.Option.{some-injective}
use win_udpsharded_echo.Prelude.{
  ℕ, zero, suc, ltb, ◌+◌, ◌-◌, ◌≤◌, ◌<◌, ◌≡◌, refl, ap, ◌∙◌, List, [], ◌∷◌, some, arith, ◌==◌,
  if◌then◌else◌, inl, inr, ◌⊎◌, length,
}
use win_udpsharded_echo.SocketUtils.Io.{
  Operation, recv, send, IoContext, Outcome, accepted, connreset, error, Io, outstanding_ops,
  max_packet_size, set_context, post_recv, overwrite, post_send,
}

abbrev pub remove : ℕ → List ℕ → List ℕ
remove c [] = []
remove c (j ∷ js) = if c == j then js else j ∷ remove c js

-- What Windows does to a context before its completion is queued.
unfoldable pub complete : List ℕ → ℕ → ℕ → Io → Io
complete payload source c io =
    let x = io.contexts c in
    record io {
      contexts = elim x.operation [
        | recv ↦
            set_context c (record x { buffer = overwrite payload x.buffer; remote_addr = source })
              io.contexts
        | send ↦ io.contexts
      ];
      pending = remove c io.pending;
    }

-- `n` send contexts, with the last in front.
abbrev pub pool : ℕ → List ℕ
pool zero = []
pool (suc n) = (outstanding_ops + n) ∷ pool n

abbrev pub count : ℕ → List ℕ → ℕ
count j [] = 0
count j (i ∷ is) = (if i == j then 1 else 0) + count j is

pub count-remove :
    (c j : ℕ) (js : List ℕ) → count j (remove c js) ≡ count j js - (if c == j then 1 else 0)
count-remove c j [] = ground arith
count-remove c j (i ∷ is) = ground (arith, count-remove c j is)

-- A send context is free or pending, and never both or twice; a receive context is pending at most
-- once; and the operation of a pending context tells which it is.
pub record IsSound (free : List ℕ) (io : Io) : Type 0 where
  pub once : (j : ℕ) → outstanding_ops ≤ j → j < 32 → count j free + count j io.pending ≡ 1
  pub not_free : (j : ℕ) → j < outstanding_ops → count j free ≡ 0
  pub armed_once : (j : ℕ) → j < outstanding_ops → count j io.pending ≤ 1
  pub no_other : (j : ℕ) → 32 ≤ j → count j free + count j io.pending ≡ 0
  pub receives : (j : ℕ) → j < outstanding_ops → (io.contexts j).operation ≡ recv
  pub sends :
      (j : ℕ) → outstanding_ops ≤ j → 0 < count j io.pending → (io.contexts j).operation ≡ send
  pub sized : (j : ℕ) → length (io.contexts j).buffer ≡ max_packet_size

pub IsSound-post_recv :
    (o : Outcome) (c : ℕ) (free : List ℕ) (io : Io)
    → c < outstanding_ops
    → count c io.pending ≡ 0
    → IsSound free io
    → IsSound free (post_recv o c io)
unfolding post_recv
IsSound-post_recv accepted c free io h z s = record {
  once = λ j. ground (arith, s.once j);
  not_free = s.not_free;
  armed_once = λ j. ground (arith, s.armed_once j);
  no_other = λ j. ground (arith, s.no_other j);
  receives = λ j. ground (arith, s.receives j);
  sends = λ j. ground (arith, s.sends j);
  sized = λ j. ground (arith, s.sized j);
}
IsSound-post_recv connreset c free io h z s = record {
  once = s.once;
  not_free = s.not_free;
  armed_once = s.armed_once;
  no_other = s.no_other;
  receives = λ j. ground (arith, s.receives j);
  sends = λ j. ground (arith, s.sends j);
  sized = λ j. ground (arith, s.sized j);
}
IsSound-post_recv error c free io h z s = record {
  once = s.once;
  not_free = s.not_free;
  armed_once = s.armed_once;
  no_other = s.no_other;
  receives = λ j. ground (arith, s.receives j);
  sends = λ j. ground (arith, s.sends j);
  sized = λ j. ground (arith, s.sized j);
}

pub pending-post_recv :
    (o : Outcome) (c : ℕ) (io : Io)
    → ((post_recv o c io).pending ≡ c ∷ io.pending) ⊎ ((post_recv o c io).pending ≡ io.pending)
unfolding post_recv
pending-post_recv accepted c io = inl refl
pending-post_recv connreset c io = inr refl
pending-post_recv error c io = inr refl

pub length-overwrite : (bs buffer : List ℕ) → length (overwrite bs buffer) ≡ length buffer
length-overwrite [] buffer = refl
length-overwrite (b ∷ bs) [] = refl
length-overwrite (b ∷ bs) (x ∷ buffer) = ap suc (length-overwrite bs buffer)

Operation-cases : (o : Operation) → (o ≡ recv) ⊎ (o ≡ send)
Operation-cases recv = inl refl
Operation-cases send = inr refl

sized-set_context :
    (c : ℕ) (x : IoContext) (contexts : ℕ → IoContext)
    → length x.buffer ≡ max_packet_size
    → ((j : ℕ) → length (contexts j).buffer ≡ max_packet_size)
    → (j : ℕ) → length (set_context c x contexts j).buffer ≡ max_packet_size
sized-set_context c x contexts h z j = ground (arith, z j)

pub sized-complete :
    (payload : List ℕ) (source c : ℕ) (io : Io)
    → ((j : ℕ) → length (io.contexts j).buffer ≡ max_packet_size)
    → (j : ℕ) → length ((complete payload source c io).contexts j).buffer ≡ max_packet_size
unfolding complete
sized-complete payload source c io z j = elim (Operation-cases (io.contexts c).operation) [
  | inl o ↦ rw o (
      sized-set_context c _ io.contexts (length-overwrite payload (io.contexts c).buffer ∙ z c) z j)
  | inr o ↦ rw o (z j)
]

-- The completion of a receive leaves its context out of Windows' hands.
pub IsSound-complete_recv :
    (payload : List ℕ) (source c : ℕ) (free : List ℕ) (io : Io)
    → 0 < count c io.pending
    → (io.contexts c).operation ≡ recv
    → IsSound free io
    → IsSound free (complete payload source c io)
      × (c < outstanding_ops)
      × (count c (complete payload source c io).pending ≡ 0)
unfolding complete
IsSound-complete_recv payload source c free io p o s =
    let small : c < outstanding_ops = ground (arith, s.sends c, s.no_other c) in
    (
      record {
        once = λ j. ground (arith, s.once j, count-remove c j io.pending);
        not_free = s.not_free;
        armed_once = λ j. ground (arith, s.armed_once j, count-remove c j io.pending);
        no_other = λ j. ground (arith, s.no_other j, count-remove c j io.pending);
        receives = λ j. ground (arith, s.receives j);
        sends = λ j. ground (arith, s.sends j, count-remove c j io.pending);
        sized = sized-complete payload source c io s.sized;
      },
      small,
      ground (arith, s.armed_once c, count-remove c c io.pending),
    )

-- The completion of a send frees its context.
pub IsSound-complete_send :
    (payload : List ℕ) (source c : ℕ) (free : List ℕ) (io : Io)
    → 0 < count c io.pending
    → (io.contexts c).operation ≡ send
    → IsSound free io
    → IsSound (c ∷ free) (complete payload source c io)
unfolding complete
IsSound-complete_send payload source c free io p o s =
    let large : outstanding_ops ≤ c = ground (arith, s.receives c) in
    record {
      once = λ j. ground (arith, s.once j, count-remove c j io.pending);
      not_free = λ j. ground (arith, s.not_free j);
      armed_once = λ j. ground (arith, s.armed_once j, count-remove c j io.pending);
      no_other = λ j. ground (arith, s.no_other j, count-remove c j io.pending);
      receives = λ j. ground (arith, s.receives j);
      sends = λ j. ground (arith, s.sends j, count-remove c j io.pending);
      sized = sized-complete payload source c io s.sized;
    }

pub IsSound-post_send :
    (o : Outcome) (c : ℕ) (bytes : List ℕ) (len dest : ℕ) (free : List ℕ) (io io' : Io)
    → post_send o c bytes len dest io ≡ some io'
    → IsSound (c ∷ free) io
    → IsSound free io' × ((j : ℕ) → j < outstanding_ops → count j io'.pending ≡ count j io.pending)
unfolding post_send
IsSound-post_send accepted c bytes len dest free io io' e s = (
  record {
    once = λ j. ground (arith, e, s.once j);
    not_free = λ j. ground (arith, e, s.not_free j);
    armed_once = λ j. ground (arith, e, s.armed_once j, s.not_free j);
    no_other = λ j. ground (arith, e, s.no_other j);
    receives = λ j. ground (arith, e, s.receives j, s.not_free j);
    sends = λ j. ground (arith, e, s.sends j);
    sized = λ j. rw⁻¹ (some-injective _ _ e) (
        sized-set_context c _ io.contexts (length-overwrite _ (io.contexts c).buffer ∙ s.sized c)
          s.sized j);
  },
  λ j. ground (arith, e, s.not_free j),
)
IsSound-post_send connreset c bytes len dest free io io' e s = ground (arith, e)
IsSound-post_send error c bytes len dest free io io' e s = ground (arith, e)

pub Outcome-cases : (o : Outcome) → (o ≡ accepted) ⊎ (o ≡ connreset) ⊎ (o ≡ error)
Outcome-cases accepted = inl refl
Outcome-cases connreset = inr (inl refl)
Outcome-cases error = inr (inr refl)

pub count-pool :
    (n j : ℕ)
    → count j (pool n)
      ≡ (if ltb j outstanding_ops then 0 else if ltb j (outstanding_ops + n) then 1 else 0)
count-pool zero j = ground arith
count-pool (suc n) j = ground (arith, count-pool n j)

pub IsSound-idle :
    (free : List ℕ) (contexts : ℕ → IoContext)
    → ((j : ℕ) → count j free ≡ (if ltb j outstanding_ops then 0 else if ltb j 32 then 1 else 0))
    → ((j : ℕ) → (contexts j).operation ≡ recv)
    → ((j : ℕ) → length (contexts j).buffer ≡ max_packet_size)
    → IsSound free (record { contexts = contexts; pending = []; wire = [] })
IsSound-idle free contexts n r z = record {
  once = λ j. ground (arith, n j);
  not_free = λ j. ground (arith, n j);
  armed_once = λ j h. omega arith;
  no_other = λ j. ground (arith, n j);
  receives = λ j h. r j;
  sends = λ j h. ground arith;
  sized = z;
}

-- A change of a context's bytes alone.
pub IsSound-set_buffer :
    (c : ℕ) (buffer : List ℕ) (free : List ℕ) (io : Io)
    → length buffer ≡ max_packet_size
    → IsSound free io
    → IsSound free (record io {
      contexts = set_context c (record (io.contexts c) { buffer = buffer }) io.contexts;
    })
IsSound-set_buffer c buffer free io h s = record {
  once = s.once;
  not_free = s.not_free;
  armed_once = s.armed_once;
  no_other = s.no_other;
  receives = λ j. ground (arith, s.receives j);
  sends = λ j. ground (arith, s.sends j);
  sized = sized-set_context c _ io.contexts h s.sized;
}
