-- ===== src/Trace.antt =====
-- src/trace: what a running trace keeps, and what it does with an event.
-- Children: Registry (the registered providers), Callbacks (the counters), Session
-- (how a session is started, changed and stopped).
pub mod Registry
pub mod Callbacks
pub mod Session
mod Tests
mod SessionTests
