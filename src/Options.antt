-- ===== src/Options.antt =====
-- What both main functions make of the values of their options. `strtol` and its kin are the C
-- library's and stand as arguments; a `long` of Windows has 32 bits, as an `int` has, so that a cast
-- between them changes nothing.
pub mod Tests
use win_udpsharded_echo.Prelude.{
  ℕ, ◌≤◌, ◌<◌, ◌≡◌, refl, List, [], ◌∷◌, Bool, true, false, Option, none, some, arith, ltb, leb,
  ◌==◌, ◌||◌, ◌&&◌, if◌then◌else◌, Text, codes, text_eq, Bool-cases, Option-cases, inl, inr,
}
use win_udpsharded_echo.ArgParser.{ArgParser, parse, get}
use win_udpsharded_echo.ArgParser.Laws.{get-parse-none}

-- What comes next happens unless there was an exception.
infixl 5 ◌>>=◌
abbrev pub ◌>>=◌ : {A B : Type 0} → Option A → (A → Option B) → Option B
none >>= f = none
some a >>= f = f a

unfoldable pub is_empty : Text → Bool
is_empty [] = true
is_empty (_ ∷ _) = false

pub is_empty-nil : (t : Text) → is_empty t ≡ true → t ≡ []
unfolding is_empty
is_empty-nil [] h = refl
is_empty-nil (x ∷ xs) h = ground (arith, h)

pub data ℤ : Type 0 where
  pos negsuc : ℕ → ℤ

-- In base 10. `strtol` is `none` where it sets `endptr` to the start, and its result is then 0.
pub record Numerals : Type 0 where
  pub strtol : Text → Option ℤ
  pub strtoul : Text → ℕ
  pub strtoull : Text → ℕ

abbrev pub or_zero : Option ℤ → ℤ
or_zero none = pos 0
or_zero (some z) = z

-- The number if it is above 0, otherwise 0.
abbrev pub positive : ℤ → ℕ
positive (pos n) = n
positive (negsuc n) = 0

abbrev pub port_of : Option ℤ → Option ℕ
port_of none = none
port_of (some z) = if positive z == 0 || ltb 65_535 (positive z) then none else some (positive z)

-- The port, where `strtol` finds a number from 1 to 65535.
pub parse_port : Numerals → Text → Option ℕ
parse_port c text = port_of (c.strtol text)

pub choose_workers : Numerals → ℕ → Text → ℕ
choose_workers c num_processors [] = num_processors
choose_workers c num_processors (x ∷ xs) =
    let requested = positive (or_zero (c.strtol (x ∷ xs))) in
    if ltb 0 requested && leb requested num_processors then requested else num_processors

-- The size of the receive buffer and the duration: a default unless the number is above 0.
pub positive_or : ℕ → Numerals → Text → ℕ
positive_or default c [] = default
positive_or default c (x ∷ xs) =
    let v = positive (or_zero (c.strtol (x ∷ xs))) in if ltb 0 v then v else default

pub is_on : Text → Bool
is_on [] = false
is_on (x ∷ xs) = if text_eq (x ∷ xs) (codes "0") then false else true

port_of_bounds : (o : Option ℤ) (n : ℕ) → port_of o ≡ some n → (1 ≤ n) × (n ≤ 65_535)
port_of_bounds none n h = ground (arith, h)
port_of_bounds (some z) n h = ground (arith, h)

pub parse_port_bounds :
    (c : Numerals) (text : Text) (n : ℕ) → parse_port c text ≡ some n → (1 ≤ n) × (n ≤ 65_535)
unfolding parse_port
parse_port_bounds c text n h = port_of_bounds (c.strtol text) n h

pub choose_workers_bounds :
    (c : Numerals) (num_processors : ℕ) (text : Text)
    → 0 < num_processors
    → (1 ≤ choose_workers c num_processors text)
      × (choose_workers c num_processors text ≤ num_processors)
unfolding choose_workers
choose_workers_bounds c num_processors [] h = (omega arith, omega arith)
choose_workers_bounds c num_processors (x ∷ xs) h = ground arith

pub positive_or_bounds :
    (default : ℕ) (c : Numerals) (text : Text) → 1 ≤ default → 1 ≤ positive_or default c text
unfolding positive_or
positive_or_bounds default c [] h = h
positive_or_bounds default c (x ∷ xs) h = ground arith

-- An option that is registered has a value after the parse.
pub get-parse-some :
    (p : ArgParser) (argv : List Text) (key default : Text)
    → get key p ≡ some default
    → (value : Text) × (get key (parse p argv) ≡ some value)
get-parse-some p argv key default h = elim (Option-cases (get key (parse p argv))) [
  | inl n ↦ ground (arith, (get-parse-none p argv key).0 n, h)
  | inr s ↦ s
]
