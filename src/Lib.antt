-- ===== src/Lib.antt =====
-- A network library in C++: event-driven connections over TCP and TLS, protocol handlers on top of
-- them (length-prefixed TCP and RPC messages, HTTP/1.1, WebSocket, HTTP/2, gRPC), pooled byte
-- buffers, the limits that protect a server, its configuration, and an asynchronous logger. This
-- development models the parts that decide what bytes go where, and what a server is set up to do.
--
-- The parts. A `Connection` owns an input and an output `Buffer`, whose vectors come from the
-- `BufferPool`. Its event loop calls `HandleRead`, `HandleWrite` and `HandleClose`; `HandleRead`
-- appends to the input buffer and calls the message callback, which is the `OnMessage` of a
-- protocol handler. The loop's thread runs the tasks of other threads and dispatches the events of
-- the descriptors; the `Reactor` accepts connections and calls `HandleRead` and the handler. A
-- handler takes whole messages from the input buffer, hands them to the application and calls
-- `Send` and `ForceClose` on the connection. `TokenBucket`, `CircuitBreaker` and `DdosProtection`
-- decide which requests and connections are let through. A `Server` reads its `ServerConfig`, which
-- `ConfigParser` makes from a file, sets up TLS and registers a listening socket and a handler for
-- each protocol with the reactor.
--
-- The files.
--   Common and its children: lists, Boolean tests, machine words and bytes, association lists.
--   Memory/Buffer: lib_network/src/memory/buffer.cc. The record has the class's fields; an index
--     is a `size_t` and wraps; a pointer is an index into the vector. `retrieve` is what follows the
--     assertion, which the callers here meet, and `retrieve_asserted` has it. Contents, Fifo and Crlf prove
--     what a client relies on.
--   Memory/Pool: lib_network/src/memory/buffer_pool.cc, object_pool.h, and the construction,
--     destruction and move of a buffer. The pools are arguments and results.
--   Resilience: lib_network/src/resilience and lib_network/src/security/ddos_protection.cc. The
--     clock is an argument of each call. A call that holds the mutex is one atomic step; Threads has
--     the breaker's calls as the steps before and under it. `double` is the parameter
--     `Double` of Resilience/TokenBucket.
--   Connection: lib_network/src/connection.cc. The socket and OpenSSL are the parameter `Io` of
--     Connection/Sockets, with the laws of read(2), write(2) and their TLS counterparts. What a
--     connection asks of its loop and tells its connect and disconnect callbacks is a list of
--     effects; the message callback is a function. Stream is about outgoing bytes, Closing about
--     the descriptor.
--   Protocol/Host: the application, the generated protobuf class and the rate limiter as a
--     parameter, and the calls that a handler makes on its connection.
--   Protocol/Tcp, Protocol/Rpc: lib_network/src/protocols/tcp/tcp_handler.cc and
--     lib_network/src/protocols/rpc/rpc_handler.cc. Protocol/Framing has what they share.
--   Protocol/WebSocket: lib_network/src/protocols/websocket/frame_parser.cc, and the frame writers
--     of websocket_handler.cc and of the client's websocket_protocol.h.
--   Protocol/Client: the receiving and sending sides of tcp_protocol.h and rpc_protocol.h in
--     lib_network/include/network/core/client/protocols.
--   Protocol/Grpc: lib_network/src/protocols/grpc/grpc_codec.cc.
--   Protocol/Http2: frame_parser.cc, session.cc, stream.cc and hpack.cc of
--     lib_network/src/protocols/http2, with the integer decoder of RFC 7541 beside the encoder.
--   Logger/Async: lib_logger/src/async_logger.cc, with the producers and the worker as interleaved
--     atomic steps.
--   Protocol/Http: lib_network/src/protocols/http/http_handler.cc, whose parser reads from a
--     `Source`: the connection's buffer, or a plain sequence of bytes in Resume. Http/Client is the
--     sending side of http_protocol.h in lib_network/include/network/core/client/protocols.
--   Event/Tasks, Event/Loop, Event/Poller: lib_network/src/event/event_loop.cc and epoll_poller.cc:
--     the task queue as atomic steps of the threads; the map of handlers and the dispatch of
--     events, over the system calls of epoll as the parameter `Kernel`. A pointer to a freed
--     handler is undefined.
--   Event/Reactor: the callbacks of lib_network/src/event/reactor.cc. Connection/Arrivals has what
--     `HandleRead` appends.
--   Protocol/Grpc/Handler: grpc_handler.cc, grpc_stream_impl.h and service_registry.cc in
--     lib_network/src/protocols/grpc.
--   Protocol/WebSocket/Handler: websocket_handler.cc and handshake.cc in
--     lib_network/src/protocols/websocket.
--   Event/Listening: socket.cc, udp_socket.cc and the registrations of reactor.cc in
--     lib_network/src/event, over the kernel as the parameter `System`. Common/Process has the open
--     descriptors and the TLS contexts of the process.
--   Server: lib_network/src/server.cc and protocols/protocol_factory.cc. What is thrown in the
--     middle of a set-up leaves what was done before it, which is a `Run` of Common/Run.
--   Config: lib_network/include/network/config/config.h and lib_network/src/config. yaml-cpp is the
--     parameter `Yaml`; Document has what a document holds, and `Writer` the laws of the library
--     for it. LoggerString makes the string that Logger/Config reads.
--   Logger/Config, Logger/Manager: log_config.cc, log_manager.cc and logger.cc of lib_logger/src.
--   Security/TlsContext: lib_network/src/security/tls_context.cc, over OpenSSL as a parameter.
--   Observability/Tracer: lib_network/src/observability/tracing/tracer.cc.
--   Protocol/Udp, Protocol/Quic: udp_handler.cc and quic_handler.cc of lib_network/src/protocols,
--     and quic_protocol.h. Protocol/Grpc/Client: grpc_protocol.h in
--     lib_network/include/network/core/client/protocols.
-- A module named Tests holds concrete inputs.
--
-- Bounds and fuel. Lengths and indices are natural numbers with the wrap-around of `size_t` and
-- `uint32_t` written out; the theorems ask for buffers below 2^63 bytes. Loops that the peer can
-- prolong run on fuel: `HandleWrite` needs one round more than there are bytes to write,
-- `OnMessage` one more than there are whole messages, the HTTP parser more than there are bytes,
-- the HTTP/2 frame loop one more than there are frames, and an HPACK integer below 2^32 takes five
-- rounds; the watch loop of the configuration needs one for each event, and the gRPC client one
-- more than there are frames. The theorems show that this is enough. `HandleRead` runs as long as
-- the peer sends; its theorem is about the runs that end.
--
-- Not modelled: the io_uring poller, which is disabled; the client object, the receiving sides of
-- the HTTP and WebSocket clients; metrics; the sinks and the formatter of the logger; the vendored
-- JSON library; the applications. Reentrancy is left out where a connect or disconnect callback
-- calls the connection back. The raw handlers of an application and the message handlers of a
-- client are taken to return, never to throw. Threads are represented by atomic steps where the
-- code takes a lock.
pub mod Common
pub mod Memory
pub mod Resilience
pub mod Connection
pub mod Protocol
pub mod Security
pub mod Config
pub mod Logger
pub mod Event
pub mod Server
pub mod Observability
