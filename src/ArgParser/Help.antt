-- ===== src/ArgParser/Help.antt =====
-- `print_help` of common/arg_parser.hpp: the text that it writes. A `std::map` goes through its entries
-- in the order of their keys.
use win_udpsharded_echo.Prelude.{
  ℕ, zero, suc, ◌+◌, ◌-◌, ◌≤◌, ◌≡◌, refl, List, [], ◌∷◌, ◌++◌, Bool, true, false, arith, ltb, ◌==◌,
  if◌then◌else◌, Text, codes, length, length-append,
}
use win_udpsharded_echo.ArgParser.{Opt, ArgParser}

abbrev pub newline : Text
newline = 10 ∷ []

-- The order of `std::string`.
unfoldable pub text_lt : Text → Text → Bool
text_lt [] [] = false
text_lt [] (d ∷ ds) = true
text_lt (c ∷ cs) [] = false
text_lt (c ∷ cs) (d ∷ ds) = if c == d then text_lt cs ds else ltb c d

unfoldable pub insert_row : Text × Opt → List (Text × Opt) → List (Text × Opt)
insert_row r [] = r ∷ []
insert_row r (s ∷ rows) = if text_lt s.0 r.0 then s ∷ insert_row r rows else r ∷ s ∷ rows

unfoldable pub in_order : List (Text × Opt) → List (Text × Opt)
in_order [] = []
in_order (r ∷ rows) = insert_row r (in_order rows)

unfoldable pub optnames : Text × Opt → Text
optnames (long_name, opt) =
    codes "--"
    ++ long_name
    ++ (if opt.short_name == 0 then [] else codes ", -" ++ opt.short_name ∷ [])
    ++ (if opt.takes_value then codes " <value>" else [])

abbrev pub max : ℕ → ℕ → ℕ
max a b = if ltb a b then b else a

-- The widths of the two columns, from those of the rows before.
unfoldable pub opt_col_width : ℕ → List (Text × Opt) → ℕ
opt_col_width w [] = w
opt_col_width w (r ∷ rows) = opt_col_width (max w (length (optnames r))) rows

unfoldable pub def_col_width : ℕ → List (Text × Opt) → ℕ
def_col_width w [] = w
def_col_width w (r ∷ rows) = def_col_width (max w (length r.1.default_value)) rows

unfoldable pub spaces : ℕ → Text
spaces zero = []
spaces (suc n) = b' ' ∷ spaces n

unfoldable pub padding : ℕ → Text → Text
padding width text = if ltb (length text) width then spaces (width - length text) else []

unfoldable pub columns : ℕ → ℕ → Text × Opt → Text
columns opt_width def_width r =
    codes "  "
    ++ optnames r
    ++ padding opt_width (optnames r)
    ++ codes "  Default: "
    ++ padding def_width r.1.default_value
    ++ r.1.default_value

unfoldable pub description_of : Text → Text
description_of [] = []
description_of (c ∷ cs) = codes "  " ++ c ∷ cs

unfoldable pub print_rows : ℕ → ℕ → List (Text × Opt) → Text
print_rows opt_width def_width [] = []
print_rows opt_width def_width (r ∷ rows) =
    columns opt_width def_width r
    ++ description_of r.1.description
    ++ newline
    ++ print_rows opt_width def_width rows

unfoldable pub print_help : Text → ArgParser → Text
print_help program_name p =
    let rows = in_order p.opts in
    codes "Usage: "
    ++ program_name
    ++ codes " [options]"
    ++ newline
    ++ codes "Options:"
    ++ newline
    ++ print_rows (opt_col_width 0 rows) (def_col_width 0 rows) rows
    ++ newline
    ++ codes "Available congestion controllers: null, bbr, reno"
    ++ newline

length-spaces : (n : ℕ) → length (spaces n) ≡ n
unfolding spaces
length-spaces zero = refl
length-spaces (suc n) = omega (arith, length-spaces n)

length-padding :
    (width : ℕ) (text : Text)
    → length text ≤ width
    → length text + length (padding width text) ≡ width
unfolding padding
length-padding width text h = ground (arith, length-spaces (width - length text))

-- A row whose names and default fit the widths has its description, if any, at the same column as
-- every other one: 13 places after both widths.
length-columns :
    (opt_width def_width : ℕ) (r : Text × Opt)
    → length (optnames r) ≤ opt_width
    → length r.1.default_value ≤ def_width
    → length (columns opt_width def_width r) ≡ 13 + opt_width + def_width
unfolding columns
length-columns opt_width def_width r h k =
    let a = length-padding opt_width (optnames r) h in
    let b = length-padding def_width r.1.default_value k in
    let names = codes "  " ++ optnames r in
    let padded = names ++ padding opt_width (optnames r) in
    let labelled = padded ++ codes "  Default: " in
    let aligned = labelled ++ padding def_width r.1.default_value in
    omega (
      arith,
      a,
      b,
      length-append (codes "  ") (optnames r),
      length-append names (padding opt_width (optnames r)),
      length-append padded (codes "  Default: "),
      length-append labelled (padding def_width r.1.default_value),
      length-append aligned r.1.default_value,
    )

abbrev IsAligned : ℕ → ℕ → List (Text × Opt) → Type 0
IsAligned opt_width def_width [] = Unit {0}
IsAligned opt_width def_width (r ∷ rows) =
    (length (columns opt_width def_width r) ≡ 13 + opt_width + def_width)
    × IsAligned opt_width def_width rows

opt_col_width_le : (w : ℕ) (rows : List (Text × Opt)) → w ≤ opt_col_width w rows
unfolding opt_col_width
opt_col_width_le w [] = omega arith
opt_col_width_le w (r ∷ rows) = ground (arith, opt_col_width_le (max w (length (optnames r))) rows)

def_col_width_le : (w : ℕ) (rows : List (Text × Opt)) → w ≤ def_col_width w rows
unfolding def_col_width
def_col_width_le w [] = omega arith
def_col_width_le w (r ∷ rows) =
    ground (arith, def_col_width_le (max w (length r.1.default_value)) rows)

-- The widths that `print_help` computes fit every row, so that all descriptions start at one column.
rows-IsAligned :
    (w v opt_width def_width : ℕ) (rows : List (Text × Opt))
    → opt_col_width w rows ≤ opt_width
    → def_col_width v rows ≤ def_width
    → IsAligned opt_width def_width rows
unfolding opt_col_width def_col_width
rows-IsAligned w v opt_width def_width [] h k = tt
rows-IsAligned w v opt_width def_width (r ∷ rows) h k =
    let w' = max w (length (optnames r)) in
    let v' = max v (length r.1.default_value) in
    (
      length-columns opt_width def_width r (ground (arith, opt_col_width_le w' rows))
          (ground (arith, def_col_width_le v' rows)),
      rows-IsAligned w' v' opt_width def_width rows h k,
    )
