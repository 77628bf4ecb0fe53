-- ===== src/ArgParser/Laws.antt =====
-- What the parse of common/arg_parser.hpp keeps of the registered options.
use win_udpsharded_echo.Prelude.{
  ◌≡◌, refl, ◌∙◌, ◌⊎◌, ◌↔◌, inl, inr, List, [], ◌∷◌, Bool, true, false, Option, none, some, arith,
  if◌then◌else◌, Text, text_eq, find, mapped, find-modify,
}
use win_udpsharded_echo.ArgParser.{
  Opt, ArgParser, Action, skip, assign, expects, action, store, parse_last, parse, value_of, set_of,
  get, is_set,
}

-- What may become of an option: its registration stays, and it is as it was or is marked as set.
pub record IsLater (o o' : Opt) : Type 0 where
  pub short_kept : o'.short_name ≡ o.short_name
  pub default_kept : o'.default_value ≡ o.default_value
  pub kind_kept : o'.takes_value ≡ o.takes_value
  pub same_or_set : (o'.value ≡ o.value) × (o'.set ≡ o.set) ⊎ (o'.set ≡ true)

-- The same of the result of a lookup: nothing is registered and nothing goes.
abbrev pub Later : Option Opt → Option Opt → Type 0
Later none none = Unit {0}
Later none (some o') = ⊥
Later (some o) none = ⊥
Later (some o) (some o') = IsLater o o'

Later-refl : (x : Option Opt) → Later x x
Later-refl none = tt
Later-refl (some o) = record {
  short_kept = refl;
  default_kept = refl;
  kind_kept = refl;
  same_or_set = inl (refl, refl);
}

IsLater-trans : (a b c : Opt) → IsLater a b → IsLater b c → IsLater a c
IsLater-trans a b c h k = record {
  short_kept = k.short_kept ∙ h.short_kept;
  default_kept = k.default_kept ∙ h.default_kept;
  kind_kept = k.kind_kept ∙ h.kind_kept;
  same_or_set = ground arith;
}

Later-trans : (x y z : Option Opt) → Later x y → Later y z → Later x z
Later-trans none none none h k = tt
Later-trans none none (some c) h k = k
Later-trans none (some b) z h k = absurd h
Later-trans (some a) none z h k = absurd h
Later-trans (some a) (some b) none h k = k
Later-trans (some a) (some b) (some c) h k = IsLater-trans a b c h k

stored : Text → Opt → Opt
stored val o = record o { value = val; set = true }

Later-mapped : (val : Text) (x : Option Opt) → Later x (mapped (stored val) x)
unfolding stored
Later-mapped val none = tt
Later-mapped val (some o) = record {
  short_kept = refl;
  default_kept = refl;
  kind_kept = refl;
  same_or_set = inr refl;
}

Later-if :
    (b : Bool) (val : Text) (x : Option Opt) → Later x (if b then mapped (stored val) x else x)
Later-if true val x = Later-mapped val x
Later-if false val x = Later-refl x

Later-store :
    (key val j : Text) (p : ArgParser) → Later (find j p.opts) (find j (store key val p).opts)
unfolding store stored
Later-store key val j p =
    rw (find-modify key j (stored val) p.opts) (Later-if (text_eq key j) val (find j p.opts))

Later-parse_last :
    (p : ArgParser) (a : Action) (j : Text) → Later (find j p.opts) (find j (parse_last p a).opts)
unfolding parse_last
Later-parse_last p skip j = Later-refl (find j p.opts)
Later-parse_last p (assign key val) j = Later-store key val j p
Later-parse_last p (expects key) j = Later-refl (find j p.opts)

Action-cases :
    (a : Action)
    → (a ≡ skip)
      ⊎ ((key : Text) × (val : Text) × (a ≡ assign key val))
      ⊎ ((key : Text) × (a ≡ expects key))
Action-cases skip = inl refl
Action-cases (assign key val) = inr (inl (key, val, refl))
Action-cases (expects key) = inr (inr (key, refl))

Later-parse :
    (p : ArgParser) (argv : List Text) (j : Text)
    → Later (find j p.opts) (find j (parse p argv).opts)
unfolding parse
Later-parse p [] j = Later-refl (find j p.opts)
Later-parse p (a ∷ []) j = Later-parse_last p (action p a) j
Later-parse p (a ∷ next ∷ rest) j = elim (Action-cases (action p a)) [
  | inl e ↦ rw (e, parse) (Later-parse p (next ∷ rest) j)
  | inr (inl (key, val, e)) ↦
      rw (e, parse)
        (Later-trans _ _ _ (Later-store key val j p)
          (Later-parse (store key val p) (next ∷ rest) j))
  | inr (inr (key, e)) ↦
      rw (e, parse)
        (Later-trans _ _ _ (Later-store key next j p) (Later-parse (store key next p) rest j))
]

-- Whatever the arguments are, an option that is not set afterwards, and was registered with its
-- default as its value, has its default value.
pub parse-default :
    (p : ArgParser) (argv : List Text) (key : Text) (o : Opt)
    → find key p.opts ≡ some o
    → o.value ≡ o.default_value
    → is_set key (parse p argv) ≡ false
    → get key (parse p argv) ≡ some o.default_value
unfolding get is_set value_of set_of
parse-default p argv key o e v unset =
    settle (find key p.opts) (find key (parse p argv).opts) (Later-parse p argv key) e unset
  where
    settle :
        (x y : Option Opt)
        → Later x y
        → x ≡ some o
        → set_of y ≡ false
        → value_of y ≡ some o.default_value
    settle none y l e' u = cc
    settle (some a) none l e' u = absurd l
    settle (some a) (some b) l e' u = ground arith

-- The parse registers nothing and forgets nothing: `get` throws afterwards exactly for the names
-- for which it threw before.
pub get-parse-none :
    (p : ArgParser) (argv : List Text) (key : Text)
    → (get key (parse p argv) ≡ none) ↔ (get key p ≡ none)
unfolding get value_of
get-parse-none p argv key =
    both (find key p.opts) (find key (parse p argv).opts) (Later-parse p argv key)
  where
    both : (x y : Option Opt) → Later x y → (value_of y ≡ none) ↔ (value_of x ≡ none)
    both none none l = (λ e. e, λ e. e)
    both none (some b) l = absurd l
    both (some a) none l = absurd l
    both (some a) (some b) l = ground arith
