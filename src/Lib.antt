-- ===== src/Lib.antt =====
-- learnuv: chat programs, a SOCKS4 proxy, servers and clients for files, echo, ping-pong and
-- character streams, and helper libraries, over libuv, modelled for verification. Paths are from
-- the repository's root.
--
-- Parts, and where they are modelled:
-- - Buffer (common/buffer/Buffer.h, common/buffer/Buffer.cpp): the growing byte buffer. `Buffer` is
--   a record of the vector's bytes and the two indices, and each method is a function of the same
--   name (`makeSpace` is `make_space`) that returns the new buffer or the failure that stops the
--   process. Buffer.Inv is the invariant and the readable bytes; Append, Retrieve and Words are
--   about the methods that their names say, Returns about appends that return; Calls is what a
--   client sees of them, against a queue of bytes.
-- - Codec (chat/Codec.h, chat/Codec.cpp): messages behind a four-byte length, over a Buffer.
--   `on_message` is `onMessage` with the calls of its callback as a list. Codec.Stream is the
--   abstract reading of a byte stream, Codec.Decode the refinement of it, Codec.Feed a sequence of
--   reads, Codec.RoundTrip frames that are sent and read, Codec.Beginnings what is read of a part
--   of a stream.
-- - Uv (common/util.h, common/util.cpp): what libuv hands to callbacks, `check_uv`, `safe_malloc`
--   and `common_alloc_buffer`.
-- - Chat.Server (chat/ChatServer.cpp, chat/connection.h) and Chat.Client (chat/ChatClient.cpp):
--   each handler is a function from the globals and the event to the new globals and the writes
--   that it asks for. Both use Codec and Buffer. Chat.Server.Broadcast, Input, Arrivals, History
--   and Recipients are about what the server sends and reads, from one connection and from several,
--   Growth, Sent and Safety about what a handler leaves and the states that it comes to, and
--   Lifetime about the `Connection` objects, with the rules for a handle that is opened, written to
--   and closed; Chat.Client.Input, Typed, Pieces and Reads about what the client is given, sends
--   and prints. Chat.Wire is the memory from which libuv reads the bytes of a write, Queue and
--   Fronts what it reads there. Chat.Delivery follows messages through clients and server;
--   Chat.System is all of them at once, as one state that moves by steps, with the bytes on the way
--   between them; Posts is the history of its broadcasts, Invariant what holds throughout, Clients
--   and Conserved that every step keeps it, Progress about the reads that are possible, Late about
--   writes that are read later than they are made, Merge about the order in which the clients are
--   heard, OneLine about chats of one line.
-- - Log (common/log/LogStream.h, LogStream.cpp, Logging.h, Logging.cpp there): FixedBuffer, Stream
--   and Logger follow the classes; Log.Stream.Line puts pieces on a stream, Log.Logger.Output is
--   the life of one logger object.
-- - Time (common/time/Timestamp.h, Timestamp.cpp there): the time stamp and its print.
-- - Socks (socks/defs.h, socks/socks_server.cpp): Options is the command line, with atoi as an
--   argument, Address is the SOCKS4 address, Layout the addresses that the allocation callbacks
--   compute, Tunnel the callbacks as steps on a tunnel's state; Relay, Parcels, Session and Phases
--   are about runs of them.
-- - Transfer (simple/filetransfer.cpp): the callbacks of one connection, each answer of libuv
--   leading to the next request; Transfer.Whole is about whole runs, Transfer.Shared about
--   connections whose reads share the buffer.
-- - Protobuf (codec_test/protobuf_codec.h): the frame of a protobuf message, with the library and
--   zlib's checksum as arguments.
-- - Readers (fs/libuv_readfile.cpp, fs/libuv_readfile_sync.cpp, fs/system_read.cpp,
--   fs/benchmark_pread.cpp): the loops that count or read a file, and in Readers.Main and
--   Readers.Benchmark the main functions around them.
-- - Chargen (simple/chargen.cpp): the callbacks on the global counters and the statistics of the
--   connections, as a step on an event; Counts keeps the counters in step, Service is about runs in
--   which nothing fails.
-- - Pingpong (pingpong/client.cc, pingpong/server.cc): both sides; Pingpong.Client.Main is how the
--   client starts, Pingpong.Server.Late says when the server's writes are sent, and Pingpong.Round
--   lets both sides play.
-- - Echo (echo/echo_client.cpp, echo/echo_server.cpp): both sides; Echo.Client.Relay is about the
--   client's runs.
-- - Threads (multi_thread_tcp_server_exp/multi_thread_server.cpp): the main loop, the loop of each
--   thread, which the callback that starts it waits for, and the buffer that all of them share;
--   Threads.Answers is about what is answered.
-- - Entry (main.c): a timer and a file that is opened, with the loop as an argument.
-- - Startup: the `main` functions of the servers, which stand in the files of their programs, side
--   by side.
-- - Base: tests and lists over the native numbers, the failures, machine words, the integers and
--   decimal numerals.
--
-- Conventions:
-- - A failure stands for what ends the process (`assertion`, `length_error`, `exited`), for
--   undefined behaviour (`out_of_range`, `use_after_free`), or for a loop of the model that had too
--   few rounds (`out_of_fuel`).
-- - Bytes are numbers below 256 where their value matters. A pointer that is handed over is the
--   list of the memory from there on. Memory that the code does not initialise is an argument.
-- - The host has 64-bit sizes and little-endian words; `size_t` wraps at 2 ^ 64, and a vector holds
--   at most 2 ^ 63 - 1 bytes.
-- - `on_message` has one round of fuel more than there are readable bytes, each round removing four
--   at least; `test_loop` has as many as the frame has bytes, each round moving by two;
--   `pread_loop` has as many as the file has bytes and one more, each round moving by 4096;
--   `convert` has 20 where an `int` has ten digits at most. The theorems about them say that they
--   return.
-- - The bytes of a write are those in its buffer when it is asked for, but in Chat.Wire,
--   Chat.System.Late, Pingpong.Server.Late and Transfer.Shared, which are about the moment at which
--   shared memory is read. What libuv, the allocator and the C library answer is an argument of the
--   handlers, and the bytes of each read are those that its list of events names.
--
-- Not modelled: callbacks that only print, and the `main` of the chat client, which asks for a
-- connection and runs the loop; the generated messages and the tests in codec_test and
-- common/log/tests; common/time/TimeZone.h, which only declares.
pub mod Base
pub mod Buffer
pub mod Codec
pub mod Uv
pub mod Chat
pub mod Log
pub mod Time
pub mod Socks
pub mod Transfer
pub mod Chargen
pub mod Echo
pub mod Pingpong
pub mod Protobuf
pub mod Readers
pub mod Threads
pub mod Entry
pub mod Startup
