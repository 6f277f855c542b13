-- ===== src/Native.antt =====
-- src/native: wrappers of Windows structures.
-- Children: Time (FILETIME and SYSTEMTIME), ExtendedData (items that come with an event), EtwTypes
-- (properties of a session, masks of kernel groups), Windows (calls and the state that they change),
-- Evntrace (the wrappers of the calls), Pla (providers by name).
pub mod Time
pub mod ExtendedData
pub mod EtwTypes
pub mod Windows
pub mod Evntrace
pub mod Pla
mod Tests
