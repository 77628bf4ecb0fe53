-- ===== src/Options/Tests.antt =====
-- Command lines of both programs, with numbers that are read digit by digit.
use win_udpsharded_echo.Prelude.{
  ℕ, ◌+◌, ◌-◌, ◌*◌, ◌≡◌, List, [], ◌∷◌, Option, none, some, arith, leb, ◌&&◌, if◌then◌else◌, Text,
  codes,
}
use win_udpsharded_echo.ArgParser.{parse}
use win_udpsharded_echo.Options.{ℤ, pos, Numerals}
use win_udpsharded_echo.Server.Setup.{server_parser, server_options, server_options-IsProper}
use win_udpsharded_echo.Server.Setup
use win_udpsharded_echo.Client.Options.{client_parser, client_options, Values, get_values}
use win_udpsharded_echo.Client.Proper.{client_options-IsProper}
use win_udpsharded_echo.Client.Proper

abbrev or_nought : Option ℕ → ℕ
or_nought none = 0
or_nought (some n) = n

-- The digits in front, after those that were read.
abbrev digits : Option ℕ → Text → Option ℕ
digits read [] = read
digits read (c ∷ cs) =
    if leb b'0' c && leb c b'9' then digits (some (or_nought read * 10 + (c - b'0'))) cs else read

abbrev signed : Option ℕ → Option ℤ
signed none = none
signed (some n) = some (pos n)

abbrev decimal : Numerals
decimal = record {
  strtol = λ text. signed (digits none text);
  strtoul = λ text. or_nought (digits none text);
  strtoull = λ text. or_nought (digits none text);
}

abbrev server_line : List Text
server_line = codes "--port=5000" ∷ codes "-c" ∷ codes "4" ∷ codes "-s" ∷ []

server_options-IsProper_example :
    Setup.IsProper decimal 8
      (parse server_parser server_line)
      (server_options decimal 8 server_line)
server_options-IsProper_example = server_options-IsProper decimal 8 server_line (omega arith)

abbrev client_line : List Text
client_line =
    codes "--server" ∷ codes "::1" ∷ codes "-l" ∷ codes "1000" ∷ codes "-C" ∷ codes "bbr" ∷ []

client_options-IsProper_example :
    (v : Values) × (get_values (parse client_parser client_line) ≡ some v)
    × Proper.IsProper decimal 8
        (parse client_parser client_line)
        v
        (client_options decimal 8 client_line)
client_options-IsProper_example = client_options-IsProper decimal 8 client_line (omega arith)
