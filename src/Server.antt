-- ===== src/Server.antt =====
-- server/main.cpp: the worker thread of a socket, in the children Worker and Loop; where its contexts
-- are, what it sends and what it counts, in Reach, Echo, Echoes and Count; what the program prints, in Stats;
-- the options of `main`, in Setup; its start, in Boot and Opened; its end, in Closing and Closed; its
-- threads, in System; the runs of these, in Printed, Threads, Left and Settled.
pub mod Worker
pub mod Loop
pub mod Reach
pub mod Echo
pub mod Echoes
pub mod Count
pub mod Stats
pub mod Setup
pub mod System
pub mod Printed
pub mod Threads
pub mod Left
pub mod Settled
pub mod Boot
pub mod Opened
pub mod Closing
pub mod Closed
pub mod Tests
