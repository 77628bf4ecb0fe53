-- ===== src/ArgParser/Tests.antt =====
-- Command lines of the client through common/arg_parser.hpp, and the theorems at concrete inputs.
use win_udpsharded_echo.Prelude.{
  ◌≡◌, refl, [], ◌∷◌, ◌++◌, true, false, none, some, arith, codes, text_eq, find, emplace, modify,
}
use win_udpsharded_echo.ArgParser.{
  Opt, ArgParser, empty_parser, add_option, split_eq, or_empty, long_argument, classify,
  long_action, short_action, argument_action, action, store, parse_last, parse, value_of, set_of,
  get, is_set,
}
use win_udpsharded_echo.ArgParser.Help.{
  newline, text_lt, insert_row, in_order, optnames, opt_col_width, def_col_width, spaces, padding,
  columns, description_of, print_rows, print_help,
}
use win_udpsharded_echo.ArgParser.Spelling.{parse-inline, dashed, inline}

abbrev port_opt : Opt
port_opt = record {
  short_name = b'p';
  default_value = codes "7";
  value = codes "7";
  takes_value = true;
  set = false;
  description = codes "Server UDP port (default: 7)";
}

abbrev verbose_opt : Opt
verbose_opt = record {
  short_name = b'v';
  default_value = codes "0";
  value = codes "0";
  takes_value = false;
  set = false;
  description = codes "Enable verbose logging";
}

abbrev client : ArgParser
client = record {
  opts = (codes "verbose", verbose_opt) ∷ (codes "port", port_opt) ∷ [];
  short_to_long = (codes "v", codes "verbose") ∷ (codes "p", codes "port") ∷ [];
}

registers :
    add_option (codes "port") b'p' (codes "7") true (codes "Server UDP port (default: 7)") (
      add_option
        (codes "verbose")
        b'v'
        (codes "0")
        false
        (codes "Enable verbose logging")
        empty_parser)
    ≡ client
unfolding add_option emplace text_eq
registers = refl

parses :
    (get (codes "port") (parse client (codes "x" ∷ codes "--port=5000" ∷ codes "-v" ∷ []))
      ≡ some (codes "5000"))
    × (is_set (codes "verbose") (parse client (codes "-v" ∷ [])) ≡ true)
    × (get (codes "verbose") (parse client (codes "--verbose=0" ∷ [])) ≡ some (codes "1"))
    × (get (codes "port") (parse client (codes "--port" ∷ [])) ≡ some (codes "7"))
    × (get (codes "host") client ≡ none)
unfolding get is_set value_of set_of find text_eq parse parse_last action classify long_argument
    split_eq or_empty argument_action long_action short_action store modify
parses = (refl, refl, refl, refl, refl)

parse-inline_example :
    parse client (inline (codes "port") (codes "5000") ∷ codes "-v" ∷ [])
    ≡ parse client (dashed (codes "port") ∷ codes "5000" ∷ codes "-v" ∷ [])
unfolding find text_eq
parse-inline_example =
    parse-inline client (codes "port") port_opt (omega arith) refl refl b'5' (codes "000")
      (codes "-v" ∷ [])

-- The entries in the order of their names.
help_text :
    print_help (codes "echo") client
    ≡ codes "Usage: echo [options]"
      ++ newline
      ++ codes "Options:"
      ++ newline
      ++ codes "  --port, -p <value>  Default: 7  Server UDP port (default: 7)"
      ++ newline
      ++ codes "  --verbose, -v       Default: 0  Enable verbose logging"
      ++ newline
      ++ newline
      ++ codes "Available congestion controllers: null, bbr, reno"
      ++ newline
unfolding print_help in_order insert_row text_lt optnames opt_col_width def_col_width spaces padding
    columns description_of print_rows
help_text = refl
