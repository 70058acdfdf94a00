-- ===== src/Lib.antt =====
-- A verification library for eestv_lib, a C++ library of asynchronous connections, buffers and parsers.
--
-- The parts and how they interact. A `LinearBuffer` (eestv/data) stores bytes that a client writes into
-- a region it was handed, and reads from another. `Flags` (eestv/flags) keeps the state of a connection
-- class in the bits of a word. `TcpClient` resolves a host and connects to it, `TcpServer` accepts, and
-- both hand over a socket; `TcpConnection` (all in eestv/net/connection) reads from a socket into one
-- `LinearBuffer` and writes to it from another. Each of the three works by handlers that it posts to
-- the `io_context` and by operations of Boost.Asio, which call a handler when they complete.
-- `Serializer` and `Deserializer` (eestv/serial) write values to a `LinearBuffer` and read them back,
-- and their multiplexing kin put a header with type and size before each.
-- `TimestampParser` (eestv/timestamp) compiles a format to steps that read a date and a time.
-- `UdpDiscoveryClient` asks for a service until it is stopped, `UdpDiscoveryServer` answers for the
-- services it was given (eestv/net/discovery). A `Bridge` (eestv/data_bridge) owns one of each and a
-- `TcpServer`: it answers with a text that names its server, and starts a `TcpClient` for each such
-- text that it is sent. Its configuration comes from the command line.
--
-- Where each part is modelled:
--   Common: the library's names that the modules share, tests, lists, integers, texts as lists of bytes.
--   LinearBuffer: eestv/data/linear_buffer.cpp, an operation for each function; Invariant, Contents and
--     Refine prove.
--   Flags: eestv/flags/flags.hpp; Bits has the digits of a word, Laws the independence of the flags,
--     Refine the set of flags that a word stands for.
--   Timestamp: eestv/timestamp/timestamp_parser.cpp and .hpp. Timestamp.antt has `DateAndTime` and the
--     digit and calendar helpers, Steps the `make_*_parser` steps, Format `CompileFormat` and
--     `is_separator`, Start `possible_parse_start_indices` and `nth_parse_start_index`, TimePoint
--     `to_time_point`; their child modules prove. Print writes a date in a format's tokens, as the
--     table in timestamp_parser.hpp has it: no code does, it is what the steps are measured by.
--   TcpConnection: eestv/net/connection/tcp_connection.hpp. `start_sending` and `start_receiving` are
--     `request_sending` and `request_receiving`, since the enumerators keep their names; Send, Stream,
--     Reads, Delivery, Shutdown, Receive and Blocking prove, Link puts a wire between two connections,
--     Print models `to_string`.
--   TcpClient: eestv/net/connection/tcp_client.cpp; Order, Stop and Blocking prove, Print
--     models `to_string`.
--   TcpServer: eestv/net/connection/tcp_server.hpp; Order, Stop and Blocking prove, Print models
--     `to_string`.
--   Serial: eestv/serial/serializer.hpp and deserializer.hpp; RoundTrip proves. Serial/Multiplex:
--     multiplexing_serializer.hpp and demultiplexing_deserializer.hpp; Frame, Delivery, Channel
--     and Oversized prove.
--   Discovery: eestv/net/discovery/discovery_states.hpp, with Print for `to_string`.
--     Discovery/Client: udp_discovery_client.cpp; Order, Stop, Blocking and Responses prove.
--     Discovery/Server: udp_discovery_server.cpp and discoverable.cpp; Order, Stop, Blocking and
--     Replies prove.
--   DiscoveryString: eestv/net/discovery/discovery_string.cpp; Numbers has `std::stoi` and
--     `std::stoull`, Split and RoundTrip prove.
--   Logging: eestv/logging/eestv_logging.hpp, the line that a macro writes; Paths proves.
--   CommandParams: eestv/data_bridge/command_param_parser.cpp; Verbosity proves.
--   Bridge: eestv/data_bridge/bridge.cpp, which composes the models of its members. A callback of the
--     bridge runs in the step of the member that calls it: `asking_step`, `answering_step`,
--     `accepting_step` and `connecting_step`. Discovered, Connects, Answers, Peers and Members
--     prove, Destroy models the destructor.
--   SpinlockMutex: eestv/threading/spinlock_mutex.hpp, with the threads that use it as a step relation;
--     Exclusion and Progress prove.
--   BlockingStop: the blocking `stop`, which is the same code in the five classes of eestv/net, over an
--     interface that each of them fills.
--
-- How code became definitions. A class is a record of its members; a function takes and returns that
-- record. A connection class holds a mutex in every function and handler, so each is one step; what
-- Boost.Asio holds for it (handlers posted, operations in flight) is part of the record, and an `Event`
-- says what happens next: a call, a posted handler that runs, an operation that completes or fails. A
-- theorem over all lists of events speaks of all interleavings. Machine words keep their wrap-around: a
-- `size_t` is a number modulo 2 ^ 64, an `unsigned` modulo 2 ^ 32. Texts are lists of bytes.
-- Loops are structural recursion on the text that is left; no fuel is used but in `to_string` of a
-- number, which takes one round more than the number and so more than it has digits.
--
-- Not modelled: the operating system and Boost.Asio beyond what the events say; `timegm`,
-- `std::mktime`, `make_address` and Boost's option parser, which are parameters; the clock, the address
-- by which a remote endpoint is reached (`get_local_address_for_remote`) and the port of a server,
-- which are arguments; the destructors of the five classes of eestv/net, which only call `stop`; the
-- terminal; the compile-time traits of eestv/serial; the sockets of eestv/net/network_utils.cpp. The
-- network between two connections is a list of bytes that keeps its order (Link).
pub mod Common
pub mod LinearBuffer
pub mod Flags
pub mod Timestamp
pub mod TcpConnection
pub mod TcpClient
pub mod TcpServer
pub mod Discovery
pub mod DiscoveryString
pub mod Logging
pub mod CommandParams
pub mod Bridge
pub mod Serial
pub mod SpinlockMutex
pub mod BlockingStop
