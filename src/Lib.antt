-- ===== src/Lib.antt =====
-- embr: a file transfer tool. A sender (push) serves the chunks of one file to a receiver (pull)
-- over a connection; the receiver writes them into an output file, verifies each by its hash and
-- keeps a partial file beside the output, so that a broken transfer can be resumed.
--
-- Which file models which part (paths of the repository):
-- - Protocol: the messages and constants of src/core/protocol.hpp. Protocol/Words, Writer and
--   Reader are put_u32 ... get_bytes of src/core/protocol.cpp; Protocol/Build and Parse are make_*
--   and parse_*; Protocol/RoundTrip and Small relate the two through the documented layouts.
-- - Transport: recv_exact and send_exact of src/transport/transport.hpp as loops over a script: the
--   list of results that the next calls of recv or send have. Every split of a stream, every
--   EAGAIN, every failure and every close is such a script. Transport/Exact has their theorems,
--   Transport/Errnos what the errno of a result means to them.
-- - Exec: actions that change a state and may throw; what was done before a throw stays done.
-- - World: the state that the transfer code acts on: both scripts of its connection, the bytes it
--   has sent, and the file system as a map from paths to contents. World/Files has the file
--   operations, with write_exact and read_exact of src/util/exact_io.hpp; World/Stream, World/Talk
--   and World/Runs have the rules by which the theorems follow an action through a conversation.
-- - Wire: send_msg and recv_msg of src/core/protocol.cpp. Wire/Header has the checks of the six
--   header bytes, Wire/Frames the frames.
-- - Chunks: ChunkManager of src/core/chunk_manager.cpp.
-- - Paths, Partial: path_for, load, save and remove of src/core/partial_file.cpp, and the path of
--   the hash cache of src/core/hash.cpp. Partial/Bitmap has the bit loops of save and load.
-- - Tcp: send_file and recv_file of src/transport/tcp_transport.cpp, over the same scripts, in which
--   EINTR is what they try again on; Tcp/Errnos compares their errnos with those of recv_exact.
-- - Geometry: how src/core/push.cpp and src/core/pull.cpp divide a file into chunks.
-- - Push: run_push of src/core/push.cpp, with Push/Serve for what it sends. Push/Meta has
--   precompute_meta and hash_compute_parallel, Push/Cached and Twice what they return, with the cache.
-- - Pull: run_pull of src/core/pull.cpp, with SHA-256 as a parameter; Pull/Output has its file
--   operations, Pull/Verify what a hash decides, Pull/Steps, Chunk, Fetch and Whole follow a
--   transfer chunk by chunk.
-- - Transfer: run_push and run_pull, each receiving what the other sends.
-- - Shipping: precompute_meta and then that transfer.
-- - Tracker: TokenStore of src/tracker/token_store.cpp; Tracker/Lookup against a map, Tracker/Calls
--   for any sequence of calls.
-- - Text, Json: the functions of std::string that the code calls, with Text/Find and Text/Digits on
--   find, to_string and stoul; src/util/json_parser.hpp, with Json/Members, Skips and Lookup on the
--   objects that it reads.
-- - Tracker/Handlers, Url and Client: src/tracker/tracker_handlers.cpp with the routes of
--   src/tracker/tracker_server.cpp, and src/tracker/tracker_client.cpp. Tracker/Requests has what
--   other requests leave of a record, Tracker/Service a sender and a receiver that meet at a tracker,
--   Tracker/Proxied a sender behind a proxy.
-- - Errno, Egress: ZcEgress of src/transport/quic_egress.cpp. Egress/Calls has reserve, commit,
--   drain and the destructor, Egress/Slots the owner of each slot, Egress/Pool, Quiet and Retention
--   what the calls promise about it.
-- - Udp: src/transport/udp_transport.cpp. Udp/Recv has recv_file, Udp/Send has send_file; Udp/Header
--   and Fragments are about single datagrams, Udp/Receiving, Rounds, Writes, Handling, Rebuild and
--   Collect follow the collection of a chunk, Udp/Drains and Sends the sending of one.
-- - Quic: QuicTransport of src/transport/quic_transport.cpp, with the callbacks that ngtcp2 makes.
--   Quic/Packets has the datagrams through the egress pool or sendmsg, Quic/Pump the cycle of
--   pump_once and the close, Quic/Stream the calls of Transport, send_fin and the handshake.
--   Quic/Grows and Cycle say what a cycle does to the stream, Quic/Receive, Fetching, Acked, Sending
--   and Ending what the calls make of it.
-- - Hash: the cache file of src/core/hash.cpp, with its save in Hash/Save, its load in Hash/Load and
--   both together in Hash/Cache; Hash/Workers and Finish have the workers of hash_compute_parallel.
-- - Setup: what the factories of connections and IoUringCtx acquire and release. Setup/Sockets is
--   about src/transport/tcp_client.cpp, tcp_server.cpp, udp_data_client.cpp, udp_data_server.cpp and
--   quic_listen, Setup/Egress about the egress pool and the destructor of QuicTransport, Setup/Client
--   and Server about quic_connect and quic_accept, Setup/Rings and Buffers about
--   src/util/io_uring_ctx.cpp; Setup/Settled, Over and Tidy are about what they leave held.
-- - Cli: the command line. Cli/Push, Pull and Trust are run_push_cli, run_pull_cli, run_trust_cli and
--   run_tracker_cli of src/cli, Cli/Config is src/util/config_tracker.hpp; Cli/Token is about the
--   token that push derives, Cli/Meeting about a push and a pull that meet at a tracker. What these
--   commands call of the other parts is a parameter of theirs.
-- - Tests: runs at concrete inputs.
--
-- Numbers are natural numbers; where the source works in uint32_t or uint64_t, the wrap-around is
-- written out (u32_mod, u64_mod). A vector is a list; an access that the source does not check is
-- the error `fault` where it would be outside.
--
-- Bounds and fuel. The loop of run_push ends when the peer sends COMPLETE, so it takes fuel: one
-- unit for each message. A peer that sends k requests and COMPLETE is served with fuel k + 1.
-- What io_uring hands over is a script, as are the results of recv and send: a loop that waits for
-- completions is a recursion on it, and a script that is used up is a wait that does not end,
-- `out_of_fuel`. A chunk takes two completions for each of its fragments and one for each repeat.
-- The rounds of drain before its deadline are a list, and so are the cycles of pump_once and what
-- ngtcp2 answers in each.
-- All other loops are recursions on the data.
--
-- Not modelled: what is printed; socket options and addresses; the pipe of recv_file, which is taken
-- to be created and to pass on what it takes in; writes to an open regular file, which are taken not
-- to fail, as is the reading of a file that is there. A kernel hands over only what was submitted, and
-- a buffer of io_uring has one operation at most. The timeouts of select, the contents of QUIC
-- packets, the page alignment of the mapping that recv_file of QuicTransport makes, with its offset
-- and delta, the timing of the tracker's sweeper and the benchmarks have no model. The workers of
-- hash_compute_parallel do not throw. HTTP is httplib's: the client's calls are a parameter, and that
-- a request reaches the route of its path is a hypothesis. The set-up of connections is modelled as
-- far as what it acquires and releases: which calls of the kernel, wolfSSL, ngtcp2 and liburing work
-- is a parameter; the memory of the egress slots is taken to be there.
pub mod Base
pub mod Protocol
pub mod Exec
pub mod Transport
pub mod World
pub mod Wire
pub mod Chunks
pub mod Paths
pub mod Partial
pub mod Tcp
pub mod Geometry
pub mod Push
pub mod Pull
pub mod Transfer
pub mod Tracker
pub mod Errno
pub mod Egress
pub mod Udp
pub mod Quic
pub mod Hash
pub mod Text
mod Tests
pub mod Json
pub mod Setup
pub mod Cli
pub mod Shipping
