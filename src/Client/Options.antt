-- ===== src/Client/Options.antt =====
-- The options of `main` in client/main.cpp, from the command line to the values that the client runs
-- with.
use win_udpsharded_echo.Prelude.{
  ℕ, List, [], Bool, true, false, Option, none, some, ltb, ◌==◌, ◌||◌, if◌then◌else◌, Text, codes,
  text_eq,
}
use win_udpsharded_echo.ArgParser.{ArgParser, empty_parser, add_option, parse, get, is_set}
use win_udpsharded_echo.SocketUtils.Packet.{max_payload_size}
use win_udpsharded_echo.Options.{
  ◌>>=◌, ℤ, Numerals, or_zero, positive, is_empty, parse_port, choose_workers, positive_or, is_on,
}

unfoldable pub client_parser : ArgParser
client_parser = add_option (codes "help") b'h' (codes "0") false (codes "Show this help message") (
    add_option (codes "stats-file") b'o' [] true (codes "Output statistics to specified file") (
      add_option (codes "sockets") b'k' (codes "16") true
        (codes "Number of sockets per worker (default: 16)")
        (add_option (codes "recvbuf") b'b' (codes "4194304") true
          (codes "Socket receive buffer size in bytes (default: 4194304)")
          (add_option (codes "cc") b'C' (codes "null") true
            (codes "Congestion controller to use: null|bbr|reno (default: null)")
            (add_option (codes "rate") b'r' (codes "10000") true
              (codes "Total packet rate limit (packets/sec, 0=unlimited)")
              (add_option (codes "duration") b'd' (codes "10") true
                (codes "Test duration in seconds (default: 10)")
                (add_option (codes "cores") b'c' (codes "0") true
                  (codes "Number of CPU cores to use (default: all)")
                  (add_option (codes "payload") b'l' (codes "64") true
                    (codes "Payload size in bytes (default: 64)")
                    (add_option (codes "port") b'p' (codes "7") true
                      (codes "Server UDP port (default: 7)")
                      (add_option (codes "server") b's' [] true
                        (codes "Server IP address or hostname")
                        (add_option (codes "verbose") b'v' (codes "0") false
                          (codes "Enable verbose logging") empty_parser)))))))))))

-- The controller of the workers' pacers.
pub data Choice : Type 0 where
  null bbr reno : Choice

pub record Settings : Type 0 where
  pub verbose : Bool
  pub server_ip : Text
  pub port : ℕ
  pub payload_size : ℕ
  pub num_workers : ℕ
  pub duration_sec : ℤ
  pub rate_limit : ℕ
  pub sockets_per_worker : ℕ
  pub recvbuf : ℕ
  pub cc : Choice
  pub stats_file : Text

-- The exceptions, and the two ends with status 1 that a message explains.
pub data Refusal : Type 0 where
  unknown_option server_and_port_required invalid_port invalid_payload unknown_controller : Refusal

pub data Setup : Type 0 where
  helps : Setup
  refuses : Refusal → Setup
  configured : Settings → Setup

-- What `get` returns for each name.
pub record Values : Type 0 where
  pub server_str : Text
  pub port_arg : Text
  pub payload_str : Text
  pub cores_str : Text
  pub duration_str : Text
  pub rate_str : Text
  pub recvbuf_str : Text
  pub sockets_str : Text
  pub cc_choice : Text
  pub stats_file : Text
  pub verbose_str : Text

unfoldable pub get_values : ArgParser → Option Values
get_values p = do
  server ← get (codes "server") p
  port ← get (codes "port") p
  payload ← get (codes "payload") p
  cores ← get (codes "cores") p
  duration ← get (codes "duration") p
  rate ← get (codes "rate") p
  recvbuf ← get (codes "recvbuf") p
  sockets ← get (codes "sockets") p
  cc ← get (codes "cc") p
  stats ← get (codes "stats-file") p
  verbose ← get (codes "verbose") p
  some (record {
    server_str = server;
    port_arg = port;
    payload_str = payload;
    cores_str = cores;
    duration_str = duration;
    rate_str = rate;
    recvbuf_str = recvbuf;
    sockets_str = sockets;
    cc_choice = cc;
    stats_file = stats;
    verbose_str = verbose;
  })

unfoldable pub is_valid_payload : ℕ → Bool
is_valid_payload n = if n == 0 || ltb max_payload_size n then false else true

-- An empty choice is not checked.
unfoldable pub is_valid_cc : Text → Bool
is_valid_cc cc =
    is_empty cc
    || text_eq (codes "null") cc
    || text_eq (codes "bbr") cc
    || text_eq (codes "reno") cc

pub choose_cc : Text → Choice
choose_cc cc =
    if text_eq cc (codes "bbr") then bbr else if text_eq cc (codes "reno") then reno else null

unfoldable pub choose_sockets : Numerals → Text → ℕ
choose_sockets c text =
    let sockets = positive (or_zero (c.strtol text)) in if sockets == 0 then 1 else sockets

-- After the port.
unfoldable pub settings : Numerals → ℕ → Values → Option ℕ → Setup
settings c num_processors v none = refuses invalid_port
settings c num_processors v (some port) =
    let payload_size = c.strtoul v.payload_str in
    if is_valid_payload payload_size
    then if is_valid_cc v.cc_choice
      then configured (record {
        verbose = is_on v.verbose_str;
        server_ip = v.server_str;
        port = port;
        payload_size = payload_size;
        num_workers = choose_workers c num_processors v.cores_str;
        duration_sec = or_zero (c.strtol v.duration_str);
        rate_limit = c.strtoull v.rate_str;
        sockets_per_worker = choose_sockets c v.sockets_str;
        recvbuf = positive_or 4_194_304 c v.recvbuf_str;
        cc = choose_cc v.cc_choice;
        stats_file = v.stats_file;
      })
      else refuses unknown_controller
    else refuses invalid_payload

unfoldable pub configure : Numerals → ℕ → Option Values → Setup
configure c num_processors none = refuses unknown_option
configure c num_processors (some v) =
    if is_empty v.server_str || is_empty v.port_arg
    then refuses server_and_port_required
    else settings c num_processors v (parse_port c v.port_arg)

-- `main` up to the start of Winsock, for the arguments after the program's name.
unfoldable pub client_options : Numerals → ℕ → List Text → Setup
client_options c num_processors argv =
    let p = parse client_parser argv in
    if is_set (codes "help") p then helps else configure c num_processors (get_values p)
