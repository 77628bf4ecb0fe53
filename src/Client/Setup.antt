-- ===== src/Client/Setup.antt =====
-- What `main` of client/main.cpp gives the workers: the server's address out of the list that
-- `getaddrinfo` returns, and a share of the packet rate.
use mathlib.Core.Path.{ap}
use native.Mathlib.Nat.{div-mul-le_self, lt-div-mul-add, div-eq_of_lt}
use win_udpsharded_echo.Float.{Double, nought}
use win_udpsharded_echo.Float.Laws.{IsIeee, lit_self}
use win_udpsharded_echo.Cc.{Controller}
use win_udpsharded_echo.Pacer.{new_pacer}
use win_udpsharded_echo.Prelude.{
  ℕ, ◌+◌, ◌*◌, ◌/◌, ◌<◌, ◌≤◌, ◌≡◌, refl, List, [], ◌∷◌, Bool, true, false, Option, none, some,
  arith, ◌==◌, if◌then◌else◌, Option-cases, inl, inr, ◌∙◌,
}

pub data Family : Type 0 where
  inet inet6 other : Family

pub record AddrInfo : Type 0 where
  pub ai_family : Family
  pub ai_addr : ℕ

abbrev pub is_inet6 : Family → Bool
is_inet6 inet = false
is_inet6 inet6 = true
is_inet6 other = false

abbrev pub is_inet : Family → Bool
is_inet inet = true
is_inet inet6 = false
is_inet other = false

-- The first loop, with `chosen` so far.
pub scan_inet6 : Option AddrInfo → List AddrInfo → Option AddrInfo
scan_inet6 chosen [] = chosen
scan_inet6 chosen (ai ∷ rest) =
    let later = scan_inet6 (elim chosen [ none ↦ some ai | some c ↦ some c ]) rest in
    if is_inet6 ai.ai_family then some ai else later

-- The second loop.
pub scan_inet : Option AddrInfo → List AddrInfo → Option AddrInfo
scan_inet chosen [] = chosen
scan_inet chosen (ai ∷ rest) =
    let later = scan_inet chosen rest in if is_inet ai.ai_family then some ai else later

is_chosen_inet6 : Option AddrInfo → Bool
is_chosen_inet6 none = false
is_chosen_inet6 (some ai) = is_inet6 ai.ai_family

-- `none` is the exception.
pub choose_address : List AddrInfo → Option AddrInfo
choose_address res =
    let chosen = scan_inet6 none res in
    if is_chosen_inet6 chosen then chosen else scan_inet chosen res

-- The first address of which a test holds.
abbrev pub first_of : (Family → Bool) → List AddrInfo → Option AddrInfo
first_of test [] = none
first_of test (ai ∷ rest) =
    let later = first_of test rest in if test ai.ai_family then some ai else later

abbrev pub or_else : Option AddrInfo → Option AddrInfo → Option AddrInfo
or_else none second = second
or_else (some ai) second = some ai

abbrev pub head : List AddrInfo → Option AddrInfo
head [] = none
head (ai ∷ rest) = some ai

scan_inet6_eq :
    (chosen : Option AddrInfo) (res : List AddrInfo)
    → scan_inet6 chosen res ≡ or_else (first_of is_inet6 res) (or_else chosen (head res))
unfolding scan_inet6
scan_inet6_eq none [] = refl
scan_inet6_eq (some c) [] = refl
scan_inet6_eq none (ai ∷ rest) = ground (arith, scan_inet6_eq (some ai) rest)
scan_inet6_eq (some c) (ai ∷ rest) = ground (arith, scan_inet6_eq (some c) rest)

scan_inet_eq :
    (chosen : Option AddrInfo) (res : List AddrInfo)
    → scan_inet chosen res ≡ or_else (first_of is_inet res) chosen
unfolding scan_inet
scan_inet_eq none [] = refl
scan_inet_eq (some c) [] = refl
scan_inet_eq chosen (ai ∷ rest) = ground (arith, scan_inet_eq chosen rest)

first_of-holds :
    (res : List AddrInfo) (ai : AddrInfo)
    → first_of is_inet6 res ≡ some ai
    → is_inet6 ai.ai_family ≡ true
first_of-holds [] ai h = ground (arith, h)
first_of-holds (x ∷ rest) ai h = ground (arith, first_of-holds rest ai, h)

chosen_kept :
    (ai : AddrInfo) (later : Option AddrInfo)
    → is_inet6 ai.ai_family ≡ true
    → (if is_chosen_inet6 (some ai) then some ai else later) ≡ some ai
unfolding is_chosen_inet6
chosen_kept ai later h = rw h refl

head-is_inet6 :
    (res : List AddrInfo) → first_of is_inet6 res ≡ none → is_chosen_inet6 (head res) ≡ false
unfolding is_chosen_inet6
head-is_inet6 [] h = refl
head-is_inet6 (ai ∷ rest) h = ground (arith, h)

-- The client takes the first IPv6 address, if there is none the first IPv4 address, and if there is
-- none of these the first address of any kind; with an empty list it stops.
pub choose_address_lem :
    (res : List AddrInfo)
    → choose_address res
      ≡ or_else (first_of is_inet6 res) (or_else (first_of is_inet res) (head res))
unfolding choose_address
choose_address_lem res = elim (Option-cases (first_of is_inet6 res)) [
  | inl e ↦
      let first : scan_inet6 none res ≡ head res =
        scan_inet6_eq none res ∙ ap (λ o. or_else o (head res)) e in
      rw (first, e, head-is_inet6 res e) (scan_inet_eq (head res) res)
  | inr (ai, e) ↦
      let first : scan_inet6 none res ≡ some ai =
        scan_inet6_eq none res ∙ ap (λ o. or_else o (head res)) e in
      rw (first, e) (chosen_kept ai (scan_inet (some ai) res) (first_of-holds res ai e))
]

pub per_worker_rate : ℕ → ℕ → ℕ
per_worker_rate limit workers = if limit == 0 then 0 else limit / workers

-- The workers together get no more than the limit, and less by fewer packets per second than there
-- are workers; what is left over is given to none of them.
pub per_worker_rate_share :
    (limit workers : ℕ)
    → 0 < workers
    → (per_worker_rate limit workers * workers ≤ limit)
      × (limit < per_worker_rate limit workers * workers + workers)
unfolding per_worker_rate
per_worker_rate_share limit workers h =
    ground (arith, div-mul-le_self limit workers, lt-div-mul-add {a = limit} {b = workers} h)

module _ {F C : Type 0} ⦃d : Double F⦄ (laws : IsIeee F) (controller : Controller F C) where
  open laws use {of_u64-eq-lit, eq_self}

  -- A limit that is not 0, but below the number of workers, sets the pacers to no limit at all,
  -- whatever the congestion controller.
  pub per_worker_rate_unlimited :
      (limit workers now : ℕ)
      → 0 < limit
      → limit < workers
      → (new_pacer controller now (d.of_u64 (per_worker_rate limit workers))).unlimited ≡ true
  unfolding new_pacer per_worker_rate
  per_worker_rate_unlimited limit workers now h k =
      let none_left : limit / workers ≡ 0 = div-eq_of_lt k in
      let rate : d.of_u64 (per_worker_rate limit workers) ≡ nought =
        ground (arith, none_left, of_u64-eq-lit 0) in
      rw rate (eq_self nought (lit_self laws 0 0))
