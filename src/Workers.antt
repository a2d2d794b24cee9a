-- ===== src/Workers.antt =====
-- src/common/shutdown and src/workers: how a process ends. `Shutdown` has the runner of the
-- shutdown, `RelayLoop` the polling loop of the outbox relay, `HttpDrain` the drain of the HTTP
-- server; `Endings`, `Exits` and `Stopping` have their properties.
pub mod Shutdown
pub mod Endings
pub mod Exits
pub mod HttpDrain
pub mod RelayLoop
pub mod Stopping
mod Tests
