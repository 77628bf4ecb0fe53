-- ===== src/Client.antt =====
-- client/main.cpp. Of a worker thread, Worker and Loop are the model, Reach the states it can be in;
-- Books, Sequences, Turns, Fills and Wire are about its counters, its rounds, its bursts and its datagrams. Digests models the
-- digests that the workers fill and hand over, Account is about their samples. Of `main`, Options is
-- the way from the command line to the settings, Proper is about it, Setup is the choice of an address
-- and the share of the rate, Boot and Opened the start, Closing and Closed the end, Stats the final
-- totals, and Report the figures and the file of statistics, whose layout Object is about. System puts the
-- threads together, and Printed, Left and Settled are about their runs.
pub mod Digests
pub mod Account
pub mod Worker
pub mod Loop
pub mod Reach
pub mod Books
pub mod Sequences
pub mod Turns
pub mod Fills
pub mod Stats
pub mod Report
pub mod Object
pub mod System
pub mod Left
pub mod Settled
pub mod Printed
pub mod Wire
pub mod Setup
pub mod Boot
pub mod Opened
pub mod Closing
pub mod Closed
pub mod Options
pub mod Proper
pub mod Tests
