-- ===== src/Client/Proper.antt =====
-- What the command line of client/main.cpp can lead to.
use win_udpsharded_echo.Prelude.{
  ℕ, ◌≤◌, ◌<◌, ◌≡◌, refl, List, [], true, false, Option, none, some, arith, ◌⊎◌, Text, codes,
  text_eq, find, emplace, Bool-cases, inl, inr,
}
use win_udpsharded_echo.ArgParser.{ArgParser, add_option, parse, get, is_set, value_of}
use win_udpsharded_echo.SocketUtils.Packet.{max_payload_size}
use win_udpsharded_echo.Options.{
  Numerals, is_empty, is_empty-nil, parse_port, parse_port_bounds, choose_workers_bounds,
  positive_or_bounds, get-parse-some,
}
use win_udpsharded_echo.Client.Options.{
  client_parser, unknown_option, server_and_port_required, invalid_port, invalid_payload,
  unknown_controller, Setup, helps, refuses, configured, Values, get_values, is_valid_payload,
  is_valid_cc, choose_sockets, settings, configure, client_options,
}

-- The values that the code refuses, and the bounds of those that it takes.
abbrev pub IsProper : Numerals → ℕ → ArgParser → Values → Setup → Type 0
IsProper c num_processors p v helps = is_set (codes "help") p ≡ true
IsProper c num_processors p v (refuses unknown_option) = ⊥
IsProper c num_processors p v (refuses server_and_port_required) =
    (v.server_str ≡ []) ⊎ (v.port_arg ≡ [])
IsProper c num_processors p v (refuses invalid_port) = parse_port c v.port_arg ≡ none
IsProper c num_processors p v (refuses invalid_payload) =
    (c.strtoul v.payload_str ≡ 0) ⊎ (max_payload_size < c.strtoul v.payload_str)
IsProper c num_processors p v (refuses unknown_controller) = is_valid_cc v.cc_choice ≡ false
IsProper c num_processors p v (configured s) =
    (1 ≤ s.port)
    × (s.port ≤ 65_535)
    × (1 ≤ s.payload_size)
    × (s.payload_size ≤ max_payload_size)
    × (1 ≤ s.num_workers)
    × (s.num_workers ≤ num_processors)
    × (1 ≤ s.sockets_per_worker)
    × (1 ≤ s.recvbuf)

get_values-parse :
    (argv : List Text) → (v : Values) × (get_values (parse client_parser argv) ≡ some v)
unfolding get_values get value_of client_parser add_option find emplace text_eq
get_values-parse argv =
    let p = parse client_parser argv in
    let (server_value, e1) = get-parse-some client_parser argv (codes "server") [] refl in
    let (port_value, e2) = get-parse-some client_parser argv (codes "port") (codes "7") refl in
    let (payload_value, e3) =
      get-parse-some client_parser argv (codes "payload") (codes "64") refl in
    let (cores_value, e4) = get-parse-some client_parser argv (codes "cores") (codes "0") refl in
    let (duration_value, e5) =
      get-parse-some client_parser argv (codes "duration") (codes "10") refl in
    let (rate_value, e6) = get-parse-some client_parser argv (codes "rate") (codes "10000") refl in
    let (recvbuf_value, e7) =
      get-parse-some client_parser argv (codes "recvbuf") (codes "4194304") refl in
    let (sockets_value, e8) =
      get-parse-some client_parser argv (codes "sockets") (codes "16") refl in
    let (cc_value, e9) = get-parse-some client_parser argv (codes "cc") (codes "null") refl in
    let (stats_value, e11) = get-parse-some client_parser argv (codes "stats-file") [] refl in
    let (verbose_value, e10) =
      get-parse-some client_parser argv (codes "verbose") (codes "0") refl in
    let v : Values = record {
      server_str = server_value;
      port_arg = port_value;
      payload_str = payload_value;
      cores_str = cores_value;
      duration_str = duration_value;
      rate_str = rate_value;
      recvbuf_str = recvbuf_value;
      sockets_str = sockets_value;
      cc_choice = cc_value;
      stats_file = stats_value;
      verbose_str = verbose_value;
    } in
    (v, rw (e1, e2, e3, e4, e5, e6, e7, e8, e9, e11, e10) refl)

is_valid_payload_bounds : (n : ℕ) → is_valid_payload n ≡ true → (1 ≤ n) × (n ≤ max_payload_size)
unfolding is_valid_payload
is_valid_payload_bounds n h = ground (arith, h)

not_is_valid_payload : (n : ℕ) → is_valid_payload n ≡ false → (n ≡ 0) ⊎ (max_payload_size < n)
unfolding is_valid_payload
not_is_valid_payload n h = ground (arith, h)

choose_sockets_bounds : (c : Numerals) (text : Text) → 1 ≤ choose_sockets c text
unfolding choose_sockets
choose_sockets_bounds c text = ground arith

settings-IsProper :
    (c : Numerals) (num_processors : ℕ) (p : ArgParser) (v : Values) (o : Option ℕ)
    → 0 < num_processors
    → parse_port c v.port_arg ≡ o
    → IsProper c num_processors p v (settings c num_processors v o)
unfolding settings
settings-IsProper c num_processors p v none h k = k
settings-IsProper c num_processors p v (some port) h k =
    elim (Bool-cases (is_valid_payload (c.strtoul v.payload_str))) [
      | inr b ↦ rw (b, IsProper) (not_is_valid_payload (c.strtoul v.payload_str) b)
      | inl b ↦ elim (Bool-cases (is_valid_cc v.cc_choice)) [
        | inr y ↦ rw (b, y, IsProper) y
        | inl y ↦
            let (low, high) = parse_port_bounds c v.port_arg port k in
            let (full, fits) = is_valid_payload_bounds (c.strtoul v.payload_str) b in
            let (some_worker, few) = choose_workers_bounds c num_processors v.cores_str h in
            rw (b, y, IsProper)
              (
                low,
                high,
                full,
                fits,
                some_worker,
                few,
                choose_sockets_bounds c v.sockets_str,
                positive_or_bounds 4_194_304 c v.recvbuf_str (omega arith),
              )
      ]
    ]

configure-IsProper :
    (c : Numerals) (num_processors : ℕ) (p : ArgParser) (v : Values)
    → 0 < num_processors
    → IsProper c num_processors p v (configure c num_processors (some v))
unfolding configure
configure-IsProper c num_processors p v h = elim (Bool-cases (is_empty v.server_str)) [
  | inl b ↦ rw (b, IsProper) (inl (is_empty-nil v.server_str b))
  | inr b ↦ elim (Bool-cases (is_empty v.port_arg)) [
    | inl y ↦ rw (b, y, IsProper) (inr (is_empty-nil v.port_arg y))
    | inr y ↦ rw (b, y) (settings-IsProper c num_processors p v (parse_port c v.port_arg) h refl)
  ]
]

-- With one processor or more, every command line of the client ends in the help, which it asks for,
-- in a refusal of the values that it gives, or in settings with a port from 1 to 65535, a payload from
-- 1 to 65491 bytes, at least one worker, at most one for each processor, at least one socket for each
-- worker, and a receive buffer of at least one byte. A refusal for want of a server or port has one of
-- them empty; one of the port has a text without a number from 1 to 65535; one of the payload a
-- number outside its bounds; one of the controller a name that is not known. No option is unknown.
pub client_options-IsProper :
    (c : Numerals) (num_processors : ℕ) (argv : List Text)
    → 0 < num_processors
    → (v : Values) × (get_values (parse client_parser argv) ≡ some v)
      × IsProper c num_processors
          (parse client_parser argv)
          v
          (client_options c num_processors argv)
unfolding client_options
client_options-IsProper c num_processors argv h =
    let p = parse client_parser argv in
    let (v, e) = get_values-parse argv in
    elim (Bool-cases (is_set (codes "help") p)) [
      | inl b ↦ rw (b, IsProper) (v, e, b)
      | inr b ↦ rw (b, e) (v, refl, configure-IsProper c num_processors p v h)
    ]
