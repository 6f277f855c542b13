-- ===== src/Ser.antt =====
-- src/ser.rs: the serializer's own sizing and slicing of structure members.
-- Children: Size (member sizes, and that they agree with the parser's), Struct (the walk over the
-- members of a structure and the elements of a structure array).
pub mod Size
pub mod Handlers
pub mod Struct
pub mod Names
pub mod Bounds
pub mod Lenient
pub mod Decode
pub mod Guid
pub mod Record
mod Tests
mod RecordTests
