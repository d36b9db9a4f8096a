-- ===== src/Examples.antt =====
-- Tests of the definitions, and the theorems at concrete inputs.
mod Fixtures
mod Sweeps
mod Registrations
mod Aggregates
mod Probes
mod Expositions
mod Scraping
mod Dependencies
mod Serving
mod Living
mod Messages
mod Interleaved
mod Suites
mod FakeServer
mod Pools
mod Servers
