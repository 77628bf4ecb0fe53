-- ===== src/ArgParser.antt =====
-- common/arg_parser.hpp: registering options, the parse of the command line, the queries, and in
-- the child Help the text of `print_help`.
-- A C string is the list of its character codes before the terminating zero, so `a[1] != '\0'` says
-- that there is a second one.
pub mod Laws
pub mod Spelling
pub mod Help
pub mod Tests
use win_udpsharded_echo.Prelude.{
  ℕ, List, [], ◌∷◌, Bool, true, false, Option, none, some, ◌==◌, if◌then◌else◌, Text, codes,
  text_eq, find, emplace, modify,
}

-- The private struct `Option`.
pub record Opt : Type 0 where
  pub short_name : ℕ
  pub default_value : Text
  pub value : Text
  pub takes_value : Bool
  pub set : Bool
  pub description : Text

pub record ArgParser : Type 0 where
  pub opts : List (Text × Opt)
  pub short_to_long : List (Text × Text)

abbrev pub empty_parser : ArgParser
empty_parser = record { opts = []; short_to_long = [] }

-- A short name is 0 where there is none.
unfoldable pub add_option : Text → ℕ → Text → Bool → Text → ArgParser → ArgParser
add_option long_name short_name default_value takes_value description p = record {
  opts =
      emplace long_name
        (record {
          short_name = short_name;
          default_value = default_value;
          value = default_value;
          takes_value = takes_value;
          set = false;
          description = description;
        })
        p.opts;
  short_to_long =
      if short_name == 0
      then p.short_to_long
      else emplace (short_name ∷ []) long_name p.short_to_long;
}

-- The name before the first '=', and what comes after it.
split_eq : Text → Text × Option Text
split_eq [] = ([], none)
split_eq (c ∷ cs) =
    let (key, val) = split_eq cs in if c == b'=' then ([], some cs) else (c ∷ key, val)

pub data Argument : Type 0 where
  long : Text → Text → Argument
  short : ℕ → Argument
  positional : Argument

or_empty : Option Text → Text
or_empty none = []
or_empty (some v) = v

-- `key` and `val` of a long argument.
long_argument : Text → Argument
long_argument name = let (key, val) = split_eq name in long key (or_empty val)

-- The tests on the first two characters.
classify : Text → Argument
classify [] = positional
classify (c ∷ []) = positional
classify (c ∷ e ∷ name) =
    if c == b'-' then if e == b'-' then long_argument name else short e else positional

-- What an argument asks for: nothing, a value for an option, or the next argument for an option.
pub data Action : Type 0 where
  skip : Action
  assign : Text → Text → Action
  expects : Text → Action

long_action : Text → Text → Option Opt → Action
long_action key val none = skip
long_action key [] (some o) = if o.takes_value then expects key else assign key (codes "1")
long_action key (c ∷ cs) (some o) =
    if o.takes_value then assign key (c ∷ cs) else assign key (codes "1")

short_action : Text → Option Opt → Action
short_action key none = skip
short_action key (some o) = if o.takes_value then expects key else assign key (codes "1")

argument_action : ArgParser → Argument → Action
argument_action p (long key val) = long_action key val (find key p.opts)
argument_action p (short c) = elim (find (c ∷ []) p.short_to_long) [
  | none ↦ skip
  | some key ↦ short_action key (find key p.opts)
]
argument_action p positional = skip

action : ArgParser → Text → Action
action p a = argument_action p (classify a)

pub store : Text → Text → ArgParser → ArgParser
store key val p = record p { opts = modify key (λ o. record o { value = val; set = true }) p.opts }

-- The last argument has no next one.
parse_last : ArgParser → Action → ArgParser
parse_last p skip = p
parse_last p (assign key val) = store key val p
parse_last p (expects key) = p

-- The loop over `argv[1..]`.
pub parse : ArgParser → List Text → ArgParser
parse p [] = p
parse p (a ∷ []) = parse_last p (action p a)
parse p (a ∷ next ∷ rest) = elim (action p a) [
  | skip ↦ parse p (next ∷ rest)
  | assign key val ↦ parse (store key val p) (next ∷ rest)
  | expects key ↦ parse (store key next p) rest
]

-- `none` is the exception `std::invalid_argument`.
unfoldable pub value_of : Option Opt → Option Text
value_of none = none
value_of (some o) = some o.value

set_of : Option Opt → Bool
set_of none = false
set_of (some o) = o.set

unfoldable pub get : Text → ArgParser → Option Text
get key p = value_of (find key p.opts)

pub is_set : Text → ArgParser → Bool
is_set key p = set_of (find key p.opts)
