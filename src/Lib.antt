-- ===== src/Lib.antt =====
-- A verification library for maboo, an application server in Go that serves PHP from a pool of workers.
--
-- The parts and how they interact. `maboo serve` loads a config, starts a pool of embedded PHP workers
-- whose version a selector picks, and puts an HTTP server and a WebSocket manager in front of it.
-- Messages to PHP travel as frames of the maboo-wire protocol.
--
--   * Protocol: internal/protocol. Wire is wire.go (`WriteFrame`, `ReadFrame`, the control frames) and
--     Messages is request.go, response.go, stream.go and msgpack.go.
--   * Config: internal/config (`Default`, `Load`, `Validate`).
--   * Selector: internal/phpengine/selector.go (`SelectVersion` and what it calls).
--   * Engine: internal/phpengine/engine.go, the interpreter, which is still a placeholder there.
--   * WorkerPool: internal/worker. Worker is worker.go, Pool and Upkeep are pool.go method by
--     method, System puts its goroutines side by side as interleaved steps.
--   * ProcessPool: internal/pool, the pool of external PHP processes that talks to them in frames.
--     Worker is worker.go; Pool, Serve and Upkeep are pool.go method by method, System puts its
--     goroutines side by side; Watcher is watcher.go.
--   * Launch: cmd/maboo/main.go from the config to the started pool; Commands is the rest of it.
--   * WebSocket: internal/websocket. Manager is manager.go, Handler is handler.go.
--   * Compress, ResponseWriter and Metrics: internal/server/compress.go, the response writer of
--     internal/server/middleware.go, and internal/server/metrics.go.
--   * Server: internal/server around the pool. Http is what it uses of net/http, Router is router.go and
--     health.go, Middleware is `CoreMiddleware`, Standalone the middleware and the handler that nothing
--     uses, Stack is `buildMiddleware`, Listen is what server.go, acme.go, http2.go and http3.go start
--     and stop, and Certificate is tls.go. Detector and Context are detector.go and context.go of
--     internal/phpengine, which the router calls.
--   * Base holds what they share: Boolean tests, lists, maps, results, bit fields and signed numbers.
--
-- How state is modelled. A struct is a record and a method a function from the old state to the new
-- one with its result. A `*Worker` or a `*Client` is a number that a heap resolves, so that the slice,
-- the channel and the goroutines that share a worker share its state. A channel is its content; a send
-- on a full one is `blocked` and one on a closed one is `panicked`. Where a method of the pool waits or
-- starts a goroutine it is cut, and System has a step for each piece, in any order: a worker is with a
-- request, in the channel, or with a goroutine that replaces or stops it. A round of `autoScale` is
-- one step, from its `Stats` to its spawn or receive; in WorkerPool `Reload` is a function of the pool
-- with no other goroutine running. ProcessPool has two views of its requests: `round` runs one after
-- the other, each followed by the goroutine that it leaves, and says what is returned; the steps of
-- System cut further (a spawn before and after the wait for READY, the health check after its copy of
-- the list, `Reload` between its workers) and say where the workers are. A process is what it writes on
-- what it has received, and a read that would wait for ever is a result. Sequential relates
-- the two views. What a process may write is a hypothesis: Obeys follows
-- php-sdk/src/Worker.php, and Answers does so below MAX_REQUESTS, where the SDK exits after its answer
-- without READY.
--
-- Bounds. A byte is a number below 256 and lengths wrap where the source converts them to 24 and 32
-- bits. The counters of the pool and of the manager do not wrap. No fuel is used: the loops recurse on
-- the list or on the count that they walk.
--
-- Parameters: the msgpack library (a `Codec`, which unmarshals what it marshalled), yaml.v3,
-- encoding/json and the file system, gzip's Write, the processes that internal/pool starts, the text
-- of the placeholder page and of health reports, and the file server of net/http.
--
-- Not modelled: the sockets and the cryptography that net/http, crypto/x509, autocert and quic-go stand
-- for; gorilla/websocket's part of a connection; the text of logs and of the metrics page; and the
-- standard streams and the working directory of a PHP process. The PHP SDK, the C stubs, the assets and
-- the examples are in other languages.
pub mod Base
pub mod Protocol
pub mod Config
pub mod Selector
pub mod Engine
pub mod WorkerPool
pub mod Launch
pub mod WebSocket
pub mod Compress
pub mod Metrics
pub mod ProcessPool
pub mod ResponseWriter
pub mod Server
