-- ===== src/Tdh.antt =====
-- src/native/tdh_types.rs: the types of TDH properties and their schema-determined sizes.
-- Children: InType and OutType (the TDH type enumerations), Lengths (literal or by-reference
-- counts and lengths), Property (properties, members and fixed sizes).
pub mod InType
pub mod OutType
pub mod Lengths
pub mod Property
pub mod Decode
mod Tests
