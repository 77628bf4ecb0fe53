-- ===== src/ArgParser/Spelling.antt =====
-- The spellings that common/arg_parser.hpp takes for the same thing.
use win_udpsharded_echo.Prelude.{
  ℕ, ◌≡◌, ◌≢◌, refl, List, [], ◌∷◌, ◌++◌, true, none, some, arith, Text, find, All,
}
use win_udpsharded_echo.ArgParser.{
  Opt, ArgParser, split_eq, or_empty, long_argument, classify, assign, expects, long_action,
  short_action, argument_action, action, store, parse_last, parse,
}

-- A name that '=' does not cut.
abbrev pub IsPlain : Text → Type 0
IsPlain = All (λ c. c ≢ b'=')

-- "--key" and "--key=val".
abbrev pub dashed : Text → Text
dashed key = b'-' ∷ b'-' ∷ key

abbrev pub inline : Text → Text → Text
inline key val = dashed (key ++ b'=' ∷ val)

split_eq-inline : (key val : Text) → IsPlain key → split_eq (key ++ b'=' ∷ val) ≡ (key, some val)
unfolding split_eq
split_eq-inline [] val h = refl
split_eq-inline (c ∷ cs) val h = ground (arith, split_eq-inline cs val h.1)

split_eq-plain : (key : Text) → IsPlain key → split_eq key ≡ (key, none)
unfolding split_eq
split_eq-plain [] h = refl
split_eq-plain (c ∷ cs) h = ground (arith, split_eq-plain cs h.1)

module _ (p : ArgParser) (key : Text) (o : Opt) (plain : IsPlain key)
    (registered : find key p.opts ≡ some o) (valued : o.takes_value ≡ true) where
  action-dashed : action p (dashed key) ≡ expects key
  unfolding action classify long_argument argument_action or_empty long_action
  action-dashed = ground (arith, split_eq-plain key plain)

  action-inline : (c : ℕ) (cs : Text) → action p (inline key (c ∷ cs)) ≡ assign key (c ∷ cs)
  unfolding action classify long_argument argument_action or_empty long_action
  action-inline c cs = ground (arith, split_eq-inline key (c ∷ cs) plain)

  action-inline_nil : action p (inline key []) ≡ expects key
  unfolding action classify long_argument argument_action or_empty long_action
  action-inline_nil = ground (arith, split_eq-inline key [] plain)

  -- For a registered option that takes a value, whose name holds no '=', a value that is not empty
  -- may be given in the same argument or in the next one, whatever follows.
  pub parse-inline :
      (c : ℕ) (cs : Text) (argv : List Text)
      → parse p (inline key (c ∷ cs) ∷ argv) ≡ parse p (dashed key ∷ (c ∷ cs) ∷ argv)
  unfolding parse parse_last
  parse-inline c cs [] = rw (action-inline c cs, action-dashed, parse)
  parse-inline c cs (next ∷ rest) = rw (action-inline c cs, action-dashed, parse)

  -- For a registered option that takes a value, whose name holds no '=', an empty value in the same
  -- argument is not taken: the option takes the next argument, whatever that is, and the parse goes on
  -- behind it.
  pub parse-inline_nil :
      (next : Text) (rest : List Text)
      → parse p (inline key [] ∷ next ∷ rest) ≡ parse (store key next p) rest
  unfolding parse
  parse-inline_nil next rest = rw (action-inline_nil, parse)

  action-short :
      (c : ℕ) (tail : Text)
      → c ≢ b'-'
      → find (c ∷ []) p.short_to_long ≡ some key
      → action p (b'-' ∷ c ∷ tail) ≡ expects key
  unfolding action classify argument_action short_action
  action-short c tail h s = ground arith

  -- For a registered option that takes a value, whose name holds no '=', the letter other than '-' that
  -- is registered for it is another spelling of the long name, and what stands behind the letter in the
  -- same argument is ignored.
  pub parse-short :
      (c : ℕ) (tail : Text) (argv : List Text)
      → c ≢ b'-'
      → find (c ∷ []) p.short_to_long ≡ some key
      → parse p ((b'-' ∷ c ∷ tail) ∷ argv) ≡ parse p (dashed key ∷ argv)
  unfolding parse parse_last
  parse-short c tail [] h s = rw (action-short c tail h s, action-dashed)
  parse-short c tail (next ∷ rest) h s = rw (action-short c tail h s, action-dashed, parse)
