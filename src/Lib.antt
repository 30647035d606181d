-- ===== src/Lib.antt =====
-- Verification of carafe, a small HTTP/1.1 microframework (C++17). Paths are from the repository's
-- root.
--
-- Bytes are natural numbers (the value of an `unsigned char`), strings and views are lists of
-- bytes, and a member function that changes its object takes the object and returns it with the
-- result.
--
-- src/http/ascii.hpp is Http/Ascii. include/carafe/http/headers.hpp and src/http/headers.cpp are
-- Http/Headers, and include/carafe/http/request.hpp and src/http/request.cpp are Http/Request.
-- src/http/field_list.hpp is Http/FieldList. src/http/line_reader.cpp is Http/LineReader, which
-- Http/LineReader/Refinement relates to the bytes that it has not handed out.
-- src/http/request_parser.cpp is Http/RequestParser. src/http/request_reader.cpp is Http/Framing
-- (the length of a body), Http/ReaderState (the members that arm, finish, fail and refuse) and
-- Http/RequestReader (the handlers and the loop), in the order in which the loop calls them: a
-- `RequestReader` pulls lines and bytes from its `LineReader`, parses them with the functions of
-- the request parser, and hands over a request, a failure, or nothing yet.
--
-- src/http/path.cpp is Http/Path. src/server/router.cpp is Server/Pattern (how a pattern is
-- compiled, and matches a normalised path) and Server/Router (the class, over any type of handler).
-- src/http/response.cpp is Http/Response. src/server/pipeline.cpp is Server/Pipeline: handlers and
-- middleware are functions of the request that may throw (`none`), and `Next` is the rest of the
-- chain as a function. What a call of either gives has, beside the response, the requests that a
-- handler was called with on the way. src/server/connection.cpp is Server/Connection: the request
-- reader, and for each round of its loop what the clock, `setsockopt` and `recv` give.
-- src/server/serve.cpp is Server/Serve (`serve_connection`, over what a connection reports, and
-- `turns_of`, what a connection reports), Server/Serve/Wire (`serve_connection` down to the writes
-- on its socket) and Server/AcceptLoop (`serve_forever`). src/server/pool.cpp is Server/Pool: the
-- queue under the mutex, and where each thread stands in `work`, asleep in the wait for `ready_` or
-- not; any order of submits, steps of the threads and wake-ups can happen, and Server/Pool/Reach
-- says which pools they lead to. Server/Pool/Desk is what the pool promises, without threads. A
-- client is the descriptor that its socket owns, and the pool records how each came to its close.
-- include/carafe/config.hpp is Server/Config.
--
-- src/net/socket.cpp is Net/Ownership (a `Socket` as the owner of its descriptor: objects in a
-- store, so that a move can name one twice) and Net/Socket (the calls on the descriptor).
-- src/net/listener.cpp is Net/Listener. What the kernel answers to a system call is a parameter: a
-- list with one entry for each call, and where it ends the call still waits. What `send` reports
-- depends on the timeout of the socket, since without one it may wait for ever. Net/Errno has the
-- numbers of errno, which are Linux's. src/app.cpp is App: `run` composes `listen_on`,
-- `serve_forever` and the destructors behind them. examples/hello.cpp is Hello, the application
-- that its `main` builds, and Hello/Main, what `main` prints and returns.
--
-- Bounds. A `std::size_t` that is computed from the digits of a message wraps at 2^64. Offsets and
-- sizes of buffers in memory are plain numbers: they are below 2^64 on any machine. The loop of
-- `next_request` gets two rounds for each buffered byte and two more; each round that goes on
-- consumes a byte or ends a discard, so the rounds never run out. The search for a list element,
-- and the walk over all of them, get one round more than there are bytes, and each round passes at
-- least one; `to_string` gets one round more than the number, which is divided by ten in each.
--
-- Clocks and deadlines are nanoseconds, durations of the configuration are milliseconds, and
-- neither is negative or wraps: the sum of the clock and a duration is below 2^63 nanoseconds.
--
-- Not modelled: `SO_REUSEADDR`, whose failure the source ignores; what a handler or a middleware
-- does besides answering; the version string, which the build generates.
mod Base
pub mod Http
pub mod Net
pub mod Server
pub mod App
pub mod Hello
