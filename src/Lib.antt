-- ===== src/Lib.antt =====
-- Verification of scalpel, a client of the MD@Home image network.
--
-- The program answers requests for images. A request path holds a token, which the verifier
-- (src/tokens.rs) checks against the key that the API sent with a ping (src/backend.rs). The
-- handlers (src/http/handler.rs) then ask the cache engine (src/cache) for the image: a HIT is
-- answered from the cache, a MISS by streaming the upstream's answer to the client and saving a
-- copy (src/http/chunked.rs). The engine over RocksDB (src/cache/rocks.rs) keeps images and their
-- metadata in two column families, counts their size, and evicts old entries.
--
-- Which file models what; functions have the names of the source:
--   Common: lists, tests, results, methods that change a state (Exec), association lists
--   Utils, Metrics, Config: src/utils.rs, src/metrics.rs, src/config.rs, with the reading of
--     settings in Config/Files
--   Cache: src/cache/mod.rs, with keys (Key, Keys), entries (Entry), the trait (Api), and the map
--     that engines refine with histories of calls on them (Contract)
--   Cache/Rocks: src/cache/rocks.rs, with the database as an interface (Db), single entries
--     (Store), the counting of sizes (Size), eviction (Evict) and the trait's methods (Engine);
--     Options has what it is opened with, Loses and Contract show the map in it, Flight has the
--     puts that a failed save leaves in flight, Concurrent takes the writes of saves and drops in
--     any interleaving, Toy is a database of lists that meets the interfaces
--   Cache/Fs: src/cache/fs.rs, with the crate that keeps the files as an interface (Db), the map in
--     it (Contract) and its counter of bytes (Count)
--   Tokens: src/tokens.rs; Tokens/Issue is the other side of the protocol
--   Backend: src/backend.rs
--   State: the shared state of src/main.rs, and the crates as one environment
--   Http: src/http, with the streamed body (Chunked), the handlers (Handler), the services and the
--     check of server names (Service), the TLS acceptor (Acceptor), and the server's settings,
--     start, restart and stop (Lifecycle)
--   App: src/main.rs, the start of the program, the pings of the main thread and the wait before
--     it stops; App/Reachable has the steps of the whole program in any order; App/Run is the main
--     loop, with its turns (Paced, Turns), its panics (Panics), turns that do not end (Hangs), the
--     server through it (Serves), the kill flag (Kill), its turns as steps of the program (Keys,
--     Reaches), and `run` as a whole (Program); App/Main is `main`
--
-- How code corresponds to definitions: a method with `&self` and interior mutability takes the
-- state and returns it with its result; what was written before an error stays written. A panic is
-- the outcome `panics`. An async function is its sequence of effects; a spawned task is a value
-- that runs later. Two futures under `try_join!` run one after the other, and their order is a
-- parameter; if the first fails, the put of the other stays in flight, and lands later or is lost.
-- Times are parameters, one for each reading of a clock.
--
-- Machine integers: u64 sums, products and differences are written with their wrap-around, as
-- release builds compute them. Checked builds panic instead, which no theorem here relies on.
-- The counters of Prometheus are unbounded. Instants are natural numbers of nanoseconds.
--
-- Fuel: the retry loop gets one more step than its number of retries, eviction one more round than
-- the metadata has rows. That both are enough is proved, for eviction while the readable sizes fit
-- into 64 bits together. The wait before a stop gets a step for each second of the grace period, or
-- one for each interval up to a quiet one. The main loop gets one step more than the turns up to one
-- that reads the kill flag as set.
--
-- Other crates are records of operations with the laws that the code relies on: Sha256, Bincode,
-- MimeApi, RocksDb, Forceps, Crypto, UrlApi, HttpApi, FileApi, OpenSsl, ActixApi; F64 is floating
-- point. The tests instantiate each of them.
--
-- Not modelled: the Prometheus registry and its text format, the matching of
-- paths against routes, what the logger, the signal handler and the runtime of main do once set up,
-- durations for histograms and logs, logging. Methods of the cache engine run one at a time, but for
-- the writes in Cache/Rocks/Concurrent; the counters of a cache that two methods change at once are
-- not modelled.
pub mod Common
pub mod Utils
pub mod Metrics
pub mod Cache
pub mod Config
pub mod Tokens
pub mod Backend
pub mod State
pub mod Http
pub mod App
