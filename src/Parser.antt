-- ===== src/Parser.antt =====
-- src/parser.rs: locating the properties of an event in its user buffer.
-- Children: Result (errors), Size (the size of one property), Cache (the walk over the schema and
-- the lookups).
pub mod Result
pub mod Size
pub mod Cache
pub mod Text
pub mod SocketAddress
pub mod Scalars
mod Tests
mod ValueTests
