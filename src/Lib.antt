-- ===== src/Lib.antt =====
-- ferrisetw2: event tracing for Windows in Rust. A real event carries a buffer of packed property
-- values; its schema lists the properties. The library locates each value in the buffer, decodes
-- it on request or serializes the whole event.
--
-- Parts, and the files that model them:
-- * Tdh (src/native/tdh_types.rs): the TDH type enumerations, lengths and counts that are literal
--   or held by another property, properties with their nested members, and the sizes that follow
--   from the schema alone. Tdh/Decode (`Property::new`, and `PropertyIterator` of
--   src/native/tdh.rs) makes them from the property array of an event; its recursion over nested
--   structures has fuel, whose end is a result of its own, and Tdh/Decode/Nesting shows when fuel is
--   enough and when none is.
-- * Record (src/native/etw_types/event_record.rs, src/schema.rs, src/property.rs): what is read of
--   an event and of its schema, and the record of the functions that are called outside the
--   repository.
-- * Parser/Size (`Parser::find_property_size` of src/parser.rs): the size of one property.
-- * Parser/Cache (`Parser` of src/parser.rs): the walk over the schema, whose state is the record
--   CachedSlices, with lookups by name (`find_property`) and by position (`property_bytes_at`).
--   Layout, Walk, Probe, Search and Names hold its proofs; Lookup has sequences of lookups.
-- * Parser/Text, Parser/Scalars, Parser/SocketAddress (the `TryParse` impls of src/parser.rs and
--   src/parser/socket_address.rs): values out of located bytes. Text/Counted and
--   SocketAddress/Laws hold proofs about them.
-- * Native/Time (src/native/time.rs): file times and system times. Its child Calendar converts them;
--   Calendar/Gregorian has the calendar that Calendar/Days compares the conversion with.
-- * Native/ExtendedData (src/native/etw_types/extended_data.rs): SIDs and event names, with
--   proofs in SidAccess and Names. Items has all kinds of items, Complete proofs about them.
-- * Provider/EventFilter (src/provider/event_filter.rs): the descriptors of event filters. Pieces
--   and Names have the names that are read back from them.
-- * Ser (src/ser.rs): the serializer. Size has the sizes of structure members, Handlers the choice
--   of a decoder, Struct the walks over members, elements and properties; Names, Bounds, Lenient
--   and Decode hold its proofs. Guid writes GUIDs, and Guid/Text reads them back; Record puts the
--   fields of an event together, and Record/Modes compares the strict and the lenient serializer.
-- * SchemaLocator (src/schema_locator.rs): the bounded cache of schemas, by descriptor and name.
--   Cache and Calls hold its proofs, for one store and for sequences of calls.
-- * Trace/Registry (`ProviderRegistry` of src/trace/callback_data.rs): the registered providers
--   and their index by GUID. Index has its invariant, Refine the plain list that it implements.
-- * Trace/Callbacks (`on_event` and `on_buffer` of src/trace/callback_data.rs): the counters.
-- * Provider/Builder and Provider/KernelProviders (src/provider.rs,
--   src/provider/kernel_providers.rs): providers, their builder and those of the kernel.
-- * Native/EtwTypes (src/native/etw_types.rs): the properties of a session; its child Groupmask has
--   the mask of extended kernel groups.
-- * Native/Windows, Native/Evntrace (src/native/evntrace.rs): the wrappers of the Windows calls.
--   What Windows returns is a function, a parameter, of the calls so far; the state is the list of
--   these calls, the registry of contexts and the registry of providers. Evntrace/Contexts has the
--   thunks that Windows calls.
-- * Native/Pla (src/native/pla.rs): the GUID of a provider by its name, as COM lists providers. The
--   loop has as many rounds as there are providers.
-- * Trace/Session (src/trace.rs): how a session is started, opened, stopped and dropped (Start), and
--   changed while it runs. Lifecycle, Failure and Leaves prove what is left of it after a failure
--   or a drop; Sync, Running, Begun and Synced prove that it agrees with
--   the registry of providers. Builder has the setters of a builder, FileTrace the traces from a
--   file.
-- * Query (src/query.rs): the queries that need no session. The loop over the profile sources has as
--   many rounds as the buffer has bytes, and Query/Sources shows that they are enough.
-- * Base (shared helpers): Boolean tests, lists, byte slices, integers and association lists.
-- * Fixtures and the modules named Tests: small events, runs and instances of the results.
--
-- Conventions: a byte is a number below 256 and a buffer is a list of bytes; `usize` has 64 bits
-- and targets are little-endian; a `String` is the list of its UTF-8 bytes where it is decoded; a
-- float is its bits. The `RefCell` of the parser is a state that is passed along. Loops that the
-- source bounds by a length run for that many rounds: the walk parses one property in a round, so
-- that the properties that are left are rounds enough.
--
-- Not modelled: Windows calls, memchr and the UTF-16 decoder, which are parameters; the threads on
-- which a trace is processed.
pub mod Base
pub mod Tdh
pub mod Native
pub mod Provider
pub mod Record
pub mod Trace
pub mod Query
pub mod SchemaLocator
pub mod Fixtures
pub mod Parser
pub mod Ser
