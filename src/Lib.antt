-- ===== src/Lib.antt =====
-- starkloupe-server simulates and debugs Starknet transactions: it runs a transaction on cheatnet,
-- builds a map of the contract calls from the recorded call trace, decodes and encodes calldata by
-- the ABI of a contract, and keeps the results in a cache. This library models these parts and proves
-- what makes them correct.
--
-- Parts, paths from the repository's root:
--   Calls     crates/simulate/src/contract_calls_map.rs and contract_call.rs: the builder that numbers
--             the calls of a trace, links them to their parents, records failures and charts gas.
--             `process_call` is split into `register_call` (all up to the recursion), `traverse` (the
--             recursion and the loop) and `close_flame` (the push of the chart node).
--   Trace     crates/internal-tracing/src: the records of function calls, events and debugger entries.
--   Mappings  crates/internal-tracing/src/utils.rs and mappings.rs: which instruction and which Sierra
--             statements stand at a program counter.
--   InternalTrace  crates/internal-tracing/src/call_trace.rs: the builder that follows the executed
--             instructions and makes the tree of function calls and events of one contract call. `Output`
--             is what it borrows mutably, `TraceState` its own state; `process_trace_entry` is split at
--             the comparison of frame pointers, `handle_function_exit` at its tests. SyscallAtStep reads
--             system calls from the memory (utils.rs).
--   FunctionCalls  crates/simulate/src/function_calls.rs and parts of simulate.rs: the loop that builds the
--             function calls of every contract call, and the deepest panic. `create_all` is the loop,
--             `create_for_call` one turn of it, `build_call` what it does with a class,
--             `adapter` the run of the call trace builder (build_debugger_data.rs).
--   DebuggerTrace  crates/simulate/src/debugger_trace.rs: the debugger traces of all contract calls merged.
--   StorageChanges  crates/simulate/src/storage_changes.rs: the storage writes of a call, before and after.
--   Gas       crates/simulate/src/gas_counter.rs: the gas that a transaction has left.
--   Abi       crates/walnut-shared/src/abi.rs: structs, enums and functions of an ABI.
--   Simplify  crates/walnut-shared/src/utils.rs: the short names of types.
--   DataType  crates/data-decoder/src/starknet_types.rs: the kinds of types.
--   Values    crates/data-decoder/src/lib.rs: decoded values, their typed forms, limbs.
--   Decoder   crates/data-decoder/src/calldata_decoder.rs and utils.rs: felts to values.
--   TypeDecoder  crates/data-decoder/src/type_decoder.rs: the type information of entrypoints. The
--             recursive method is split by kind of type, each part over the call at the next depth.
--             `Expand` expands the maps of structs and enums, `Decode` whole functions.
--   EventDecoder  crates/data-decoder/src/event_decoder.rs: the felts of an event by its Sierra type; each
--             kind of type is a function over the decoding of nested types.
--   Encoder   crates/server/src/calldata_encoder.rs: values to felts in hexadecimal. `TypeNames` takes
--             type names apart, `Calls` puts the calls of a transaction together.
--   Cache     crates/server/src/services/simulation_cache.rs: the cache of results.
--   Resolver  crates/scarb-dep-resolver/src/resolver.rs: the registry dependencies of a Scarb project,
--             level by level; `resolve` is split into the loop, one level and one package.
--   Shared    crates/walnut-shared/src/lib.rs: chain ids, the ids of calls, links to the web app and
--             compiler versions.
--   Common    texts as byte lists, maps as association lists, runs that may stop, integers.
--
-- How they interact: the decoder classifies a type name by DataType, names the value by Simplify
-- and builds it by Values; the builder of Calls gives each contract call its id and those of the
-- calls inside it, InternalTrace hangs the function calls of each below it for FunctionCalls, and
-- DebuggerTrace follows both; the encoder takes Values and the same short names back to felts; the
-- cache holds whole results.
--
-- State is passed explicitly. A run (Common/Run) is done, or stops: rejected for the source's
-- `None` or `Err`, panicked for a Rust panic, or out of fuel. Fuel stands for the depth of a
-- recursion that the source does not bound: `simplify` gets the length of the name, which is
-- enough, and `decode_type` gets the nesting of the type, which is enough where the type's
-- expansion is finite; `merge_debugger_trace` gets the distance to a bound on the ids of contract
-- calls; `get_complete_type_info` gets seven, one more than its depth limit allows, and the
-- expansion of a map the number of its entries; `decode_event_datas` gets one more than the nesting
-- of the type, for Sierra programs whose types are not recursive; the fuel of
-- `enhance_type_recursively` is left to its caller; the loop over dependency levels gets the number
-- of package names that can be asked for, and one. Felts are numbers below the Stark prime; `usize` is 64 bits wide; call ids and counters
-- are plain numbers, as the code never reaches their width.
--
-- Not modelled: HTTP, the database, S3, RPC and compiler processes, JSON by serde, log lines,
-- floating point (flame graph widths, the hit rate). The decoding of internal values
-- (crates/data-decoder/src/internal_function_decoder.rs) and of cell expressions is left out: the call
-- trace builder takes its answers as arguments. The moka cache is an interface, `EntryStore`,
-- which may evict an entry at any time; the query for verified classes, the clock, the fetched
-- ABIs, what the class mappings and the debug info say of an instruction (reads of the memory that
-- may panic are runs that may stop), the iteration order of a
-- `HashMap`, semver and the package registry, the selector of a name, the encoding of URLs, Sierra's
-- type declarations and the capacity of a vector are arguments.
pub mod Common
pub mod Simplify
pub mod Abi
pub mod Values
pub mod DataType
pub mod Decoder
pub mod Trace
pub mod Calls
pub mod Mappings
pub mod InternalTrace
pub mod FunctionCalls
pub mod DebuggerTrace
pub mod StorageChanges
pub mod Gas
pub mod Encoder
pub mod Cache
pub mod Resolver
pub mod EventDecoder
pub mod Shared
pub mod TypeDecoder
