-- ===== src/Lib.antt =====
-- healthkit: health checks of a service, their aggregation, and the HTTP probes and metrics over them.
--
-- The program. A registry (src/registry.rs) holds named checks, each with an optional group, behind
-- a lock that its clones share. A sweep runs all checks, or those of a group, concurrently, each
-- under the registry's timeout, and folds each outcome into a result; the aggregate of the results
-- is the worst status. The axum handlers (src/axum.rs) turn a sweep into a status code and a body.
-- The exposition (src/metrics.rs) renders the results of a sweep as Prometheus text, and its scrape
-- handler keeps a rendering for a time to live. The redis and sqlx checks (src/checks/) probe a
-- server or a pool under their own deadline, and register themselves in a registry. The example
-- service (examples/k8s_service.rs) wires all of it together.
--
-- The files.
--   Base                names passed on, Boolean tests, lists and texts over the native numbers
--   Async, Async/*      futures as functions from an instant to an outcome; Runtime is what is taken
--                       from tokio and futures, and Ideal is a runtime with these laws
--   Duration, Duration/*  durations in nanoseconds and their Debug form
--   Types, Errors       src/types.rs and src/error.rs; Errors/RoundTrip reads the error texts
--   Registry/Register   `new`, `add_check`, `add_check_to_group`, the async variants
--   Registry/Run        `run_one`
--   Registry/Aggregate  `aggregate`
--   Registry/Sweep      `check_all`, `check_group`, `check_liveness`, `check_readiness`, the facade
--   Registry/Reports, Sweeps, Passing, Verdicts, Worst   theorems about sweeps and aggregates
--   Registry/Sharing, Histories   theorems about registrations
--   Registry/Groups, Grouped   which checks a group has, and the sweep over them
--   Registry/Latest, Ends, Durations   when a sweep ends, how, and what durations it reports
--   Registry/Interleavings   sweeps and registrations by many tasks at once
--   Registry/Emissions  what a recorder of the facade counts
--   Routes/Handlers     src/axum.rs: configuration, handlers, routes
--   Routes/Readiness, Startup   theorems about the probes
--   Routes/Reordered    that a verdict depends on the set of the check functions only
--   Metrics/Render      `render_prometheus` and what it calls, over the numbers of Metrics/Floats
--   Metrics/Exposition  an independent reader of the text format
--   Metrics/Escape, Samples, RoundTrip, Buckets   what the reader finds in a rendering
--   Metrics/Capacity, Covered   the capacity that is reserved for a rendering; the results of a sweep
--                       against the buckets
--   Scrapes/Cache       `MetricsState`, `render`, `metrics_handler`, the routes of the scrapes
--   Scrapes/Cached, Idle   theorems about one scrape: its answer, and when it runs the checks
--   Scrapes/Rate, Age   one scraper, scrape after scrape: how often the checks run, and how old the
--                       results in its answers are
--   Scrapes/Crowd       many scrapes at once, as steps
--   Scrapes/Spacing, Staleness   when many scrapes make the checks run, and how old their answers are
--   Checks/Redis, Checks/Sqlx   src/checks/redis.rs and src/checks/sqlx.rs, with their outcomes in
--                       Checks/RedisOutcomes, RedisProbed, SqlxOutcomes, SqlxQueried and Registered
--   Service/Setup       examples/k8s_service.rs: flags, registrations, routes
--   Service/Shutdown    `shutdown_signal`, with the signals as the record Signals
--   Service/Run         `run`, with the operating system and the server of axum as the record Host
--   Service/Wiring, Ready, Probes, Phases, Routing   which checks it registers, when its probes pass,
--                       and its paths
--   Service/Earlier, Draining   the wait for a signal, and when the pod is draining
--   Service/Life, Ending   when `run` comes to serve, and when and with what it returns
--   Service/Startup, Serves, Scraped   what its probes and its scrapes answer once it serves
--   UnitTests/*         the unit tests that stand in the source files, as programs over any runtime;
--                       Harness has their assertions. InRuntime, Sweeping, Grouping and Statuses are
--                       those of src/registry.rs, which Suite collects; Probing and ProbingPasses
--                       those of src/axum.rs; Querying and QueryingPasses those of
--                       src/checks/sqlx.rs; Pinging, Served and PingingPasses those of
--                       src/checks/redis.rs; Expositions of src/metrics.rs; Crate of src/lib.rs.
--                       Documented has the examples of the documentation
--   UnitTests/FakeRedis   the fake server of src/checks/redis.rs; Scanned, Bounds and Encoded are
--                       about its reader of commands, Replies about its loops
--   IntegrationTests/*  the tests of registered checks under tests/: Readiness has the programs of
--                       tests/sqlx_check.rs and tests/redis_check.rs, ReadinessPasses that they pass
--   Examples/*          the definitions and theorems at concrete inputs
--
-- State. The vectors behind the locks are a store, and a registry is an address with a timeout: a
-- clone is the same address, so that a registration through one handle shows in another. The cell of
-- a scrape's cache stands in the same way behind its state. Operations return the new store or cell.
--
-- Time and failure. A future is a function from the instant at which it is first polled to its
-- outcome: done at an instant, unwound at an instant, or never. Calls of a check at different
-- instants may so differ. Futures yield: one that blocks its worker over a deadline is outside the
-- model. What tokio and futures do is the record Runtime: `timeout` gives the value of a future
-- that completes before the deadline and else ends within a lag of it (one that is ready at the
-- deadline itself, so at once under a timeout of zero, counts as late, where tokio would poll it
-- first), `join_all` ends with the last future, in the order of the futures, and unwinds with any,
-- `spawn_blocking` catches a panic of the task and refuses tasks while the runtime shuts down; a
-- task that it accepts starts at once, the wait for a free thread being part of the task. The redis
-- and sqlx crates and `f64` are records of the same kind. Floats are assumed to compare and print
-- like the decimal numbers they stand for, for the literals of the source only.
--
-- Bounds. Strings are lists of code points. A duration is a natural number of nanoseconds; the one
-- addition that the crate makes, the slack of the redis probe, unwinds above `Duration::MAX`. The
-- digits of a number n are written on the fuel n + 1, of which each round uses one and divides n by
-- ten; a fraction has at most nine digits. Duration/Values relates the digits to the numbers.
--
-- Unit tests. The tests that stand in the source files are programs over the model: an assertion that
-- fails unwinds the test. Those of the registry and the routes are run by any runtime, with
-- `tokio::time::sleep` as the record Sleep and the router of axum as the record Dispatch; those of the
-- database check with a database in memory as the record Sqlite; those of the redis check with what the
-- client finds on the sockets as the record Sockets; those of the exposition by the numbers of
-- Metrics/Exact. UnitTests/FakeRedis is the server that the tests of the redis check start: it scans a
-- buffer for commands, and a number that exceeds 64 bits unwinds it, as in a test build. Its loop has
-- one round more than the buffer has bytes as fuel, and each command takes at least three of them.
--
-- Not modelled: the serialization of the bodies (serde derives), routing by axum, the re-exports of
-- the crate root, the benches, the tests under tests/ of the routes, the exposition, the metrics
-- facade and random statuses, and the ignored one of a live server, the lines that the example
-- prints, its `main`, which builds the runtime that `run` is awaited on, its build for other
-- systems than unix, and the marker implementations of `UnwindSafe`, which have no behaviour.
pub mod Base
pub mod Async
pub mod Duration
pub mod Types
pub mod Errors
pub mod Registry
pub mod Routes
pub mod Metrics
pub mod Scrapes
pub mod Checks
pub mod Service
pub mod UnitTests
pub mod IntegrationTests
pub mod Examples
