-- ===== src/SocketUtils.antt =====
-- common/socket_utils.hpp and common/socket_utils.cpp, a child for each concern: the clock, the
-- processor affinity of threads, the posting of operations, the packet header, and the contexts of a
-- worker. Calls holds the functions that wrap calls of Windows on sockets and completion ports, Messages
-- the texts of their errors; Handles, Closing and Wrappers are about
-- what they open and leave open.
pub mod Clock
pub mod Affinity
pub mod Io
pub mod Packet
pub mod Contexts
pub mod Calls
pub mod Messages
pub mod Handles
pub mod Closing
pub mod Wrappers
pub mod Tests
