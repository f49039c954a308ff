-- ===== src/Lib.antt =====
-- SensorLink: a device, node/, sends readings over a framed binary protocol, proto/, to a server,
-- server/, which keeps a short history, watches for alerts and passes readings on to subscribers
-- over lines of text; client/ is such a subscriber, and bench/ measures the way from end to end.
--
-- proto/. Proto/Messages models proto/messages.hpp, the packed payloads as records with the
-- copies to and from bytes. Proto/Crc, Proto/Cobs, Proto/Encoder and Proto/Parser model
-- crc16.hpp, cobs.hpp, frame_encoder.hpp and frame_parser.hpp under the names of their functions:
-- crc16_update, cobs_encode, cobs_decode, encode_frame, push_byte, push_bytes. Proto/Ring and
-- Proto/StaticVector model ring_buffer.hpp and static_vector.hpp. In Proto/Ring a call of push or
-- pop is one step; in Proto/Ring/Threads every access of either thread to an index or a slot is
-- one, and the accesses interleave in any order. A buffer that the caller provides is a list that
-- the function returns as it leaves it, beside the capacity that it is given; a pointer into the
-- parser's storage is the bytes that it points to. cobs_decode has one unit of fuel for each
-- input byte, and Proto/Cobs/Bytewise shows that it never runs out. Proto/Parser/Phases is the
-- specification of the receiver, without buffers, which Proto/Parser/Refine relates to push_byte.
--
-- server/. Server/Session models device_session.cpp, Server/Connection connection.cpp with the
-- kernel's answers to recv and send as lists, Server/Subscriber the sending half of
-- subscriber.cpp and Server/Commands its lines and commands, Server/Store store.cpp with its maps
-- as association lists, Server/Ingest ingest.cpp, and Server/Main the accept loops and the
-- housekeeping of main.cpp. A device's ingest calls the parser, the session and the store; the
-- store sends lines to the subscribers; the sweep drops devices and closes the loop of
-- backpressure. Objects that refer to each other are passed on as states. A point in time is its
-- count of nanoseconds. A loop over the kernel's answers returns none when the answers run out
-- before it ends, and the theorems about it say when it returns. Server/EventLoop models
-- event_loop.cpp: a callback is what it does to the rest of the server and the calls of the loop
-- that it makes, and firing the timers has fuel, of which one more than there are due timers is
-- enough while every new timer has a delay. Server/Events puts the server together: what a
-- socket's callback does with what the kernel reports, and the runs of all such events.
-- Server/Main/Startup is main up to the loop. Sockets models make_listener and the two
-- connect_to_server, with the descriptors that are open.
--
-- node/. Node models session.cpp and the three tasks under tasks/, each round a function of the
-- shared Pipeline. Node/Handshake and Node/Backpressure put the two ends together.
--
-- client/. Client models line_protocol.cpp and Client/Main main.cpp; Client/RoundTrip reads what
-- Server/Subscriber sends, and Client/Feed follows a sample from the store to the dashboards.
-- bench/. Bench/Load models load_generator.cpp and Bench/Latency latency_subscriber.cpp. A loop
-- ends with the list of the kernel's answers or at its deadline; it returns none when the answers
-- end first. Scan models what all of them use of formatted input, the loop that splits bytes into
-- lines, and the conversions of text to numbers, as glibc makes them.
--
-- Prelude holds what the parts share: lists, tests and text over the native numbers, integers,
-- and the laws of bitwise operations that the CRC and the masks need.
--
-- Not modelled: whatever is printed around the values, and floating-point arithmetic, whose
-- results are parameters; the drivers, start-up code and the wrappers of FreeRTOS, which are I/O;
-- the vendored CMSIS headers; the tests. A connection's epoll_ctl is taken to succeed; in
-- Server/EventLoop its failure is the exception that it throws. The steps of Proto/Ring/Threads
-- are sequentially consistent, so that the stale reads which the acquire and release orders
-- allow, and with them a refusal that comes too early, are not modelled. Counters of type size_t
-- do not wrap, and the store's average is computed with exact integers where the code has
-- int32_t; the theorem about it assumes the range. The generator's value is taken to wrap past
-- the largest int32_t, which its theorem excludes. The order of equal deadlines and that of an
-- unordered map, which the standard library leaves open, are fixed.
pub mod Prelude
pub mod Scan
pub mod Proto
pub mod Server
pub mod Node
pub mod Sockets
pub mod Client
pub mod Bench
