-- ===== src/Lib.antt =====
-- A model of WinUDPShardedEcho, a UDP echo server and a load-generating client for Windows whose worker
-- threads are each bound to one processor, and the theorems that make its parts correct.
--
-- A worker of the server keeps 16 receives posted on its socket and echoes each datagram that comes,
-- from a pool of 16 send contexts or with a synchronous call. A worker of the client sends numbered
-- packets when a pacer, a token bucket, lets it; each echo is reported to the pacer's congestion
-- controller, which sets the rate of the bucket, and its round-trip time goes into a t-digest.
--
--   Cc         src/common/congestion_controller.hpp: the operations of a controller as a record
--   Cc/Null    src/common/null_cc.hpp
--   Cc/Reno    src/common/reno.hpp, Cc/Bbr src/common/bbr.hpp: a record with the fields of the class, and
--              one function for each method; the children prove its properties
--   Pacer      src/common/pacer.hpp: `client_send_pacer`, over any controller
--   TDigest    src/common/tdigest.hpp; the loops are `fold_in` of `build_from` and `walk` of `percentile`
--   ArgParser  src/common/arg_parser.hpp: `add_option`, `parse`, `get`, `is_set`, and `print_help`
--              in the child Help
--   Options    what both main functions make of the values of their options, over `strtol` and its kin
--   SocketUtils  src/common/socket_utils.cpp and .hpp: Clock (`get_timestamp_ns`), Affinity
--              (`set_thread_affinity`), Io (`io_context`, `post_recv`, `post_send`, `send_sync`),
--              Packet (`packet_header` as it lies in a buffer), Contexts (what a worker of either
--              program keeps in order: which contexts are free and which Windows has), Calls (the
--              functions that create, bind and configure sockets and completion ports), Messages (the
--              texts of their exceptions); Handles and Wrappers are the logic of what such functions
--              open, leave open and ask of Windows, and what each of them does, Closing is about the end
--   Server     src/server/main.cpp: Worker is `worker_thread_func`, from its start to the handling of a
--              batch of completion entries, Loop the loop around it, Reach the relation of the states a
--              worker can be in, with Echo and Count on what it sends,
--              and Echoes on whole runs. Stats is `print_final_stats` and
--              `create_rps_thread`, Setup the options of `main`, Boot its creation of the workers'
--              sockets and completion ports, Closing their end; Opened and Closed are about
--              these. System puts its threads together, Printed, Threads, Left and Settled are about its
--              runs
--   Client     src/client/main.cpp: Digests is `post_rtt`, `post_pacing` and `merge_tdigest`, with the
--              digests of all workers as one state; each step is under the lock or of one worker.
--              Worker is the body of `worker_thread_func`: a packet, a completion entry, the end; Loop
--              is its start, its rounds and its wait. Reach is the relation of the states a worker can
--              be in, Books and Sequences are about its counters in them, Wire about its datagrams, Turns
--              about its rounds, Fills about its bursts of packets. Of `main`, Options is the way from the command line to the
--              settings, Proper is about it, Setup the choice of the address and the share of the rate,
--              Boot the creation of the workers' sockets and completion ports, Closing their end, Opened
--              and Closed are about these, Stats the final totals, Report the figures and the file of
--              statistics, whose layout Object is about. System puts the threads together, `main`, the workers and
--              the merger, in any order of their turns; Printed, Left and Settled are
--              about its runs
--   Exchange   the two programs together: a packet, its reply, and what the client makes of that
--   Network    a worker of the client, any number of workers of the server, and a network that loses,
--              repeats, delays and reorders datagrams and brings others to the servers: Net is the
--              relation of their states. It is assumed that no datagram from or to the client's addresses
--              is made up, and that the clock of the client does not read less than the time stamps so
--              far. Wires, Honest, Numbers and Measured are about these states
--   Prelude    shared names, lists, families, maps, sets, texts and words
--   Float      `double`: an interface, the laws of IEEE 754 that the proofs use (Float/Laws), and a fixed
--              point that obeys them (Float/Fixed), on which the examples run
--
-- A method is a function from its arguments and the object to the new object. Where the code reads a
-- clock, the reading is an argument, and where it calls Windows, the answer is. `std::sort` is a
-- parameter that permutes its list and orders numbers. A `uint64_t` is a natural number with the
-- wrap-around written out where the code can meet it, and a `size_t` one that does not overflow. Maps
-- and deques are lists. An exception is `none` or a constructor of a result type. Every loop of the code
-- that is modelled runs over a list or down from a number and needs no fuel.
--
-- In Server and in Client the store of contexts is a function from their addresses, the numbers 0 to 31,
-- of which those from 16 on send, and the list `pending` holds those that Windows has. An entry carries
-- Windows' answers to all calls that its handling can make; a state is reached by any sequence of entries
-- for pending contexts.
--
-- A round of a loop takes the flags as it reads them, the clock readings and the batch; a run is any
-- list of rounds. The sockets of a worker are numbers, and it has at least one when it sends;
-- which of them a call uses is not recorded. A header lies in memory with the lowest byte of each number
-- first, as on every machine that Windows runs on.
--
-- An action of Calls takes the handles that are open and the calls so far to a result or an exception;
-- a handle is the number of the call that made it, and whether a call fails is a function of its number.
-- What a scope owns is closed when an exception leaves it; where the standard does not lay down an order
-- of destruction, the last object goes first, and no theorem depends on it but on what stays open.
--
-- The steps of both System files are those of `main` between its waits, the signal handler, those of
-- the threads that print, merge or wait, and whole rounds of a worker, since a round touches the
-- worker's own state; a reset of a pacer by `main`, or a reading of the counters, comes between two
-- rounds. A sleep, or a wait of a worker for completions, ends by itself and is part of a step.
--
-- Not modelled: log lines and the text on the console, name resolution, the query
-- `get_processor_count`, and the progress lines. Of the names of the sockets, which the client asks for in
-- verbose mode, only the calls are modelled.
pub mod Prelude
pub mod Float
pub mod Cc
pub mod Pacer
pub mod TDigest
pub mod ArgParser
pub mod Options
pub mod SocketUtils
pub mod Server
pub mod Client
pub mod Exchange
pub mod Network
