-- ===== src/Server/Setup.antt =====
-- The options of `main` in server/main.cpp, from the command line to the values that the server runs
-- with.
use win_udpsharded_echo.Prelude.{
  ℕ, ◌≤◌, ◌<◌, ◌≡◌, refl, ap, ◌∙◌, List, [], Bool, true, false, Option, none, some, arith, Text,
  codes, text_eq, find, emplace, if◌then◌else◌, Bool-cases, inl, inr,
}
use win_udpsharded_echo.ArgParser.{
  ArgParser, empty_parser, add_option, parse, get, is_set, value_of,
}
use win_udpsharded_echo.Options.{
  ◌>>=◌, is_empty, is_empty-nil, Numerals, parse_port, choose_workers, positive_or, is_on,
  parse_port_bounds, choose_workers_bounds, positive_or_bounds, get-parse-some,
}

pub server_parser : ArgParser
server_parser = add_option (codes "help") b'h' (codes "0") false (codes "Show this help") (
    add_option (codes "sync-reply") b's' (codes "0") false
      (codes "Reply synchronously using sendto (default: async IO)")
      (add_option (codes "recvbuf") b'b' (codes "4194304") true
        (codes "Socket receive buffer size in bytes (default: 4194304 = 4MB)")
        (add_option (codes "cores") b'c' (codes "0") true
          (codes "Number of cores to use (default: all available)")
          (add_option (codes "duration") b'd' (codes "0") true
            (codes "Run for N seconds then exit (0 = unlimited)")
            (add_option (codes "port") b'p' (codes "7") true
              (codes " UDP port to listen on (default: 7)")
              (add_option (codes "verbose") b'v' (codes "0") false
                (codes "Enable verbose logging (default: minimal)") empty_parser))))))

pub record Settings : Type 0 where
  pub verbose : Bool
  pub sync_reply : Bool
  pub port : ℕ
  pub num_workers : ℕ
  pub recvbuf : ℕ
  pub duration_sec : ℕ

-- The exceptions: `get` of a name that is not registered, and the two about the port.
pub data Refusal : Type 0 where
  unknown_option port_required invalid_port : Refusal

pub data Setup : Type 0 where
  helps : Setup
  refuses : Refusal → Setup
  configured : Settings → Setup

-- What `get` returns for each name.
pub record Values : Type 0 where
  pub port_str : Text
  pub cores_str : Text
  pub recvbuf_str : Text
  pub duration_str : Text
  pub verbose_str : Text
  pub sync_reply_str : Text

get_values : ArgParser → Option Values
get_values p = do
  port ← get (codes "port") p
  cores ← get (codes "cores") p
  recvbuf ← get (codes "recvbuf") p
  duration ← get (codes "duration") p
  verbose ← get (codes "verbose") p
  sync_reply ← get (codes "sync-reply") p
  some (record {
    port_str = port;
    cores_str = cores;
    recvbuf_str = recvbuf;
    duration_str = duration;
    verbose_str = verbose;
    sync_reply_str = sync_reply;
  })

settings : Numerals → ℕ → Values → Option ℕ → Setup
settings c num_processors v none = refuses invalid_port
settings c num_processors v (some port) = configured (record {
  verbose = is_on v.verbose_str;
  sync_reply = is_on v.sync_reply_str;
  port = port;
  num_workers = choose_workers c num_processors v.cores_str;
  recvbuf = positive_or 4_194_304 c v.recvbuf_str;
  duration_sec = positive_or 0 c v.duration_str;
})

configure : Numerals → ℕ → Option Values → Setup
configure c num_processors none = refuses unknown_option
configure c num_processors (some v) =
    if is_empty v.port_str
    then refuses port_required
    else settings c num_processors v (parse_port c v.port_str)

-- `main` up to the start of Winsock, for the arguments after the program's name.
pub server_options : Numerals → ℕ → List Text → Setup
server_options c num_processors argv =
    let p = parse server_parser argv in
    if is_set (codes "help") p then helps else configure c num_processors (get_values p)

-- What comes out: nothing is refused but the text that `port` has in the end, which must be empty or
-- no number from 1 to 65535; and the settings are within bounds.
abbrev pub IsProper : Numerals → ℕ → ArgParser → Setup → Type 0
IsProper c num_processors p helps = is_set (codes "help") p ≡ true
IsProper c num_processors p (refuses unknown_option) = ⊥
IsProper c num_processors p (refuses port_required) = get (codes "port") p ≡ some []
IsProper c num_processors p (refuses invalid_port) =
    (text : Text) × (get (codes "port") p ≡ some text) × (parse_port c text ≡ none)
IsProper c num_processors p (configured s) =
    (1 ≤ s.port)
    × (s.port ≤ 65_535)
    × (1 ≤ s.num_workers)
    × (s.num_workers ≤ num_processors)
    × (1 ≤ s.recvbuf)

get_values-parse :
    (argv : List Text)
    → (v : Values) × (get_values (parse server_parser argv) ≡ some v)
      × (get (codes "port") (parse server_parser argv) ≡ some v.port_str)
unfolding get_values get value_of server_parser add_option find emplace text_eq
get_values-parse argv =
    let p = parse server_parser argv in
    let (port, e1) = get-parse-some server_parser argv (codes "port") (codes "7") refl in
    let (cores, e2) = get-parse-some server_parser argv (codes "cores") (codes "0") refl in
    let (recvbuf, e3) =
      get-parse-some server_parser argv (codes "recvbuf") (codes "4194304") refl in
    let (duration, e4) = get-parse-some server_parser argv (codes "duration") (codes "0") refl in
    let (verbose, e5) = get-parse-some server_parser argv (codes "verbose") (codes "0") refl in
    let (sync_reply, e6) =
      get-parse-some server_parser argv (codes "sync-reply") (codes "0") refl in
    let v : Values = record {
      port_str = port;
      cores_str = cores;
      recvbuf_str = recvbuf;
      duration_str = duration;
      verbose_str = verbose;
      sync_reply_str = sync_reply;
    } in
    (v, rw (e1, e2, e3, e4, e5, e6) refl, e1)

settings-IsProper :
    (c : Numerals) (num_processors : ℕ) (p : ArgParser) (v : Values) (o : Option ℕ)
    → 0 < num_processors
    → get (codes "port") p ≡ some v.port_str
    → parse_port c v.port_str ≡ o
    → IsProper c num_processors p (settings c num_processors v o)
unfolding settings
settings-IsProper c num_processors p v none h e k = (v.port_str, e, k)
settings-IsProper c num_processors p v (some port) h e k =
    let (low, high) = parse_port_bounds c v.port_str port k in
    let (some_worker, few) = choose_workers_bounds c num_processors v.cores_str h in
    (low, high, some_worker, few, positive_or_bounds 4_194_304 c v.recvbuf_str (omega arith))

configure-IsProper :
    (c : Numerals) (num_processors : ℕ) (p : ArgParser) (v : Values)
    → 0 < num_processors
    → get (codes "port") p ≡ some v.port_str
    → IsProper c num_processors p (configure c num_processors (some v))
unfolding configure
configure-IsProper c num_processors p v h e = elim (Bool-cases (is_empty v.port_str)) [
  | inl b ↦ rw (b, IsProper) (e ∙ ap some (is_empty-nil v.port_str b))
  | inr b ↦ rw b (settings-IsProper c num_processors p v (parse_port c v.port_str) h e refl)
]

-- With one processor or more, every command line of the server ends in one of three ways: in the
-- help, which it asks for; in a refusal of the port, whose text is empty or holds no number from 1 to
-- 65535; or in settings with a port from 1 to 65535, at least one worker, at most one for each
-- processor, and a receive buffer of at least one byte. No option is ever unknown.
pub server_options-IsProper :
    (c : Numerals) (num_processors : ℕ) (argv : List Text)
    → 0 < num_processors
    → IsProper c num_processors (parse server_parser argv) (server_options c num_processors argv)
unfolding server_options
server_options-IsProper c num_processors argv h =
    let p = parse server_parser argv in
    let (v, e, k) = get_values-parse argv in
    elim (Bool-cases (is_set (codes "help") p)) [
      | inl b ↦ rw (b, IsProper) b
      | inr b ↦ rw (b, e) (configure-IsProper c num_processors p v h k)
    ]
