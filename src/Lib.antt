-- ===== src/Lib.antt =====
-- slicksocket: HTTP, WebSocket and raw TCP clients and a raw TCP server over libwebsockets.
--
-- The clients and the server hand data to the thread that runs libwebsockets through three
-- containers of src/ring_buffer.h, which have most of the program's own logic:
--
--   StringRing  `ring_string_buffer`: the bytes that a client or the server is to send, one string
--               per message. The members of the class are the fields of the record `StringRing`;
--               its functions are `create`, `read`, `reset` and `notify` (for `_notify`) in
--               StringRing.antt and `write` in StringRing/Write.antt.
--   Ring        `ring_buffer`: the queue of requests that `socket_service` takes its work from.
--   Pool        `object_pool`: the requests themselves.
--
-- Around them stand the thread and the clients:
--
--   Request     what they share: `request_info` and its parts of src/socket_service.h, and the
--               reasons, answers and actions of the callbacks of libwebsockets.
--   Service     `socket_service` (src/socket_service.h and .cpp): `get_request_info`, `request`,
--               and a round of `serve`, which takes a request and clears up those that are over;
--               in Lifecycle constructor and destructor, in Rounds and Serving the loop of `serve`,
--               in Registry the services of `socket_service::global`, in Registry/Lock its lock.
--   WebSocket   `websocket_client` (src/websocket_client.cpp): `send`, `ws_callback`; in Client the
--               URL, `connect` and `stop`; in Stopping what becomes of a connection behind `stop`.
--   RawSocket   `socket_client` and `raw_socket_callback` (src/socket_client.cpp).
--   Server      `socket_server` and its callback (src/socket_server.cpp), with its map of clients; in
--               Serving the loop of `serve`, and the callbacks of `lws_context_destroy` behind it.
--   Url, Http   `http_client` (src/http_client.cpp, include/slicksocket/http_client.h) and its
--               `std::string` work; Http/Callback has `http_callback`, Http/Callback/Exchange a whole
--               answer.
--   Clients     the choice of a service in the clients' constructors, and their destructors.
--   Callback    include/slicksocket/callback.h: the interfaces that a user implements, as records over
--               the state of the user's object, and what the actions make of it (Replay). Protocol is
--               the contract of a client's callback; WebSocket/Protocol and RawSocket/Protocol fill it,
--               and Connection has what follows for the user. Server/Protocol has the server's.
--   Utils       `set_cpu_affinity` of src/utils.h.
--
-- A client's `send` writes into the `StringRing` of its request and asks for a callback; the
-- callback for a writable connection reads it. What libwebsockets returns is a parameter: a function
-- for `lws_write`, the record `Lws` for HTTP, and in `serve_round` what it does to the requests. What
-- the code asks of it and tells the user's objects is a list of `Action`, in order.
--
-- `write` is one atomic call, except where it waits for a slow consumer: there the other thread
-- acts, as a list of `Peer` says. StringRing/Write/Threads has the parts of `write` and `read` as
-- steps of two threads, in any interleaving, and Pool/Threads those of the calls on `Pool`. The
-- steps of the writer have no test that `write` lacks: what needs room behind the reader has it as
-- a condition on the run, `IsRoomy`.
-- Counters are 64-bit numbers that wrap (`add64`, `sub64`), the length field of a string has 32
-- bits and is stored with its lowest byte first; the invariants bound the counters, so that
-- theorems say when they do not wrap. A loop that waits for the other thread has no fuel: where the
-- model can tell that it has no end, or the list of what the other thread does is over, it gives
-- `spinning` or `none`. `debug` tells a build with assertions from one without.
--
-- What happens over time stands in modules of its own: StringRing/History has any sequence of calls
-- on one buffer, StringRing/Write/Waiting the rounds of a wait, StringRing/Write/Threads its writer
-- and its reader as a step relation, Ring/Threads, Pool/Threads and Service/Registry/Lock any
-- number of threads as one, Service/Serving and Server/Serving lists of rounds, each with what the
-- others have done before it.
--
-- Not modelled: libwebsockets itself, the scheduler's pinning of a thread, the memory orders of the
-- atomic operations, and the printing of messages. Of the destructor of a service the model has what
-- it does, not what a detached thread goes on to do.

pub mod Base
pub mod StringRing
pub mod Ring
pub mod Pool
pub mod Request
pub mod Service
pub mod WebSocket
pub mod RawSocket
pub mod Server
pub mod Http
pub mod Clients
pub mod Callback
pub mod Url
pub mod Utils
pub mod Tests
