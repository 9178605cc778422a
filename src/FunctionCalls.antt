-- ===== src/FunctionCalls.antt =====
-- crates/simulate/src/function_calls.rs: the function calls of all contract calls of a transaction;
-- crates/walnut-shared/src/utils.rs: `is_version_gte`. `Driver` has what simulate.rs does with them.
-- `D` is the class data, `K` a contract class, `M` a class's mappings, `S` the storage changes of a call:
-- the compiler, the fork's classes, the storage view and the reading of the mappings are functions on
-- them; `adapter` has the two builders of crates/internal-tracing/src/build_debugger_data.rs. A class
-- hash stands for its text; the two texts that the source prints are never those of one hash, as the
-- second is only used for a class that `classes_data` does not have.
pub mod Driver
pub mod Built
pub mod Resolved
pub mod Created
pub mod Panics
pub mod Merged
pub mod Linked
mod Samples
use starkloupe_server.Common.{
  ℕ, nat_eq, Text, Bool, true, false, ◌&&◌, ◌||◌, Option, none, some, List, [], ◌∷◌, nat_beq, ltb,
  leb, not, contains, if◌then◌else◌,
}
use starkloupe_server.Common.Maps.{Map, get, insert, modify}
use starkloupe_server.Common.Texts.{is_some}
use starkloupe_server.Common.Run.{Run, done, lift, unwrap, ◌>>=◌}
use starkloupe_server.Trace.{CodeLocation, FunctionCall, FunctionCallsMap, DebuggerTraceEntry}
use starkloupe_server.Calls.{ContractCall, ContractCallsMap}
use starkloupe_server.InternalTrace.{
  Output, CallTraceBuilder, Queries, RelocatedTraceEntry, SierraStatementsToCairoDebugInfo,
}
use starkloupe_server.InternalTrace.Steps.{get_simple_internal_call_trace, get_internal_call_trace}

pub record VersionId : Type 0 where
  pub major : ℕ
  pub minor : ℕ
  pub patch : ℕ

-- The order of triples
abbrev pub is_version_gte : VersionId → ℕ → ℕ → ℕ → Bool
is_version_gte v major minor patch =
    ltb major v.major
    || (nat_beq v.major major
        && (ltb minor v.minor || (nat_beq v.minor minor && leb patch v.patch)))

pub data ContractCallBuildResult : Type 0 where
  -- root_function_call_id, panic_id
  simple : ℕ → Option ℕ → ContractCallBuildResult
  -- the execution trace of the debugger data first
  full : List DebuggerTraceEntry → ℕ → Option ℕ → ContractCallBuildResult

pub record Services (D K M S : Type 0) : Type 0 where
  pub classes_data : Map ℕ D
  pub get_contract_class : D → K
  pub inline_strategy_class_hash : D → Option Text
  -- `compile_sierra_contract_class` and `ClassMappings::new`, where both succeed
  pub compile_class : K → Option M
  pub compiler_version : M → VersionId
  -- `get_contract_class` of the fork's cache and `convert_contract_class`, where both succeed
  pub fork_class : ℕ → Option K
  -- `get_storage_changes` from the storage view, the trace and the memory
  pub storage_changes : M → ContractCall → Run (Option S)
  pub with_storage_and_events : Bool
  -- the statements' debug info of a class
  pub get_debug_info : D → Option SierraStatementsToCairoDebugInfo
  -- `Mappings::from_class_and_call`, with the queries on the memory
  pub from_class_and_call : M → List RelocatedTraceEntry → List (Option ℕ) → Run Queries
  -- which of the two adapters is the builder: the one with the debugger data, or the simple one
  pub debugger : Bool

-- The loop's variables
pub record Progress (M S : Type 0) : Type 0 where
  pub output : Output
  pub deepest_function_call_id_with_panic : Option ℕ
  pub prev_nested_level : ℕ
  pub local_class_cache : Map ℕ M
  pub storage_changes_map : Map ℕ S

abbrev pub location_of : Option FunctionCall → Option CodeLocation
location_of none = none
location_of (some c) = c.code_location

unfoldable pub update_call_metadata :
    VersionId → Bool → ℕ → FunctionCallsMap → ContractCall → ContractCall
update_call_metadata version has_inline_class root_id functions call = record call {
  function_call_id = some root_id;
  code_location = location_of (get root_id functions);
  call_debugger_data_available = if is_version_gte version 2 8 2 then has_inline_class else true;
}

abbrev pub is_deeper : ℕ → Option ℕ → ℕ → Bool
is_deeper level none prev = true
is_deeper level (some id) prev = ltb prev level

-- The panic to report, and the nesting level of its contract call
unfoldable pub update_panic_info : ℕ → Option ℕ → Option ℕ × ℕ → Option ℕ × ℕ
update_panic_info level none (deepest, prev) = (deepest, prev)
update_panic_info level (some panic) (deepest, prev) =
    if is_deeper level deepest prev then (some panic, level) else (deepest, prev)

abbrev pub cache_class : {M : Type 0} → ℕ → Option M → Map ℕ M → Run (M × Map ℕ M)
cache_class hash none cache = lift none
cache_class hash (some m) cache = done (m, insert hash m cache)

abbrev pub panic_of : ContractCallBuildResult → Option ℕ
panic_of (simple root panic) = panic
panic_of (full trace root panic) = panic

abbrev pub root_of : ContractCallBuildResult → ℕ
root_of (simple root panic) = root
root_of (full trace root panic) = root

abbrev pub set_debugger_data : ContractCallBuildResult → ContractCall → ContractCall
set_debugger_data (simple root panic) call = call
set_debugger_data (full trace root panic) call = record call { call_debugger_data = some trace }

abbrev pub clean_up : ContractCall → ContractCall
clean_up call = record call { vm_trace = none; vm_memory = none }

abbrev pub has_vm_data : ContractCall → Bool
has_vm_data call = is_some call.vm_memory && is_some call.vm_trace

abbrev pub insert_some : {S : Type 0} → ℕ → Option S → Map ℕ S → Map ℕ S
insert_some id none changes = changes
insert_some id (some c) changes = insert id c changes

abbrev pub trace_or_empty : Option (List RelocatedTraceEntry) → List RelocatedTraceEntry
trace_or_empty none = []
trace_or_empty (some trace) = trace

-- `build_simple_contract_call_debugger_data_adapter` and `build_contract_call_debugger_data_adapter`
unfoldable pub adapter : Bool → CallTraceBuilder → Output → Run (Output × ContractCallBuildResult)
unfolding get_simple_internal_call_trace get_internal_call_trace
adapter false b o = do r ← get_simple_internal_call_trace b o; done (r.0, simple (r.1.0) (r.1.1))
adapter true b o = do r ← get_internal_call_trace b o; done (r.0, full (r.1.0) (r.1.1.0) (r.1.1.1))

abbrev pub with_hash : {D : Type 0} → ℕ → Option D → Option (ℕ × D)
with_hash hash none = none
with_hash hash (some d) = some (hash, d)

module _ {D K M S : Type 0} where
  -- The mappings from the cache, or compiled and cached
  abbrev pub cached_mappings : Services D K M S → ℕ → K → Map ℕ M → Run (M × Map ℕ M)
  cached_mappings s hash class cache = elim (get hash cache) [
    | some m ↦ done (m, cache)
    | none ↦ cache_class hash (s.compile_class class) cache
  ]

  abbrev pub data_of : Services D K M S → Option ℕ → Option (ℕ × D)
  data_of s none = none
  data_of s (some hash) = with_hash hash (get hash s.classes_data)

  abbrev pub class_data : Services D K M S → ContractCall → Option (ℕ × D)
  class_data s call = data_of s call.class_hash

  abbrev pub forked_mappings : Services D K M S → ℕ → Option K → Map ℕ M → Run (Option M × Map ℕ M)
  forked_mappings s hash none cache = done (none, cache)
  forked_mappings s hash (some class) cache =
      cache_class hash (s.compile_class class) cache >>= λ found. done (some found.0, found.1)

  -- The class of the entry point, where there is no class data
  abbrev pub resolve_entry_point : Services D K M S → Option ℕ → Map ℕ M → Run (Option M × Map ℕ M)
  resolve_entry_point s none cache = done (none, cache)
  resolve_entry_point s (some hash) cache = elim (get hash cache) [
    | some m ↦ done (some m, cache)
    | none ↦ forked_mappings s hash (s.fork_class hash) cache
  ]

  abbrev pub resolve_found :
      Services D K M S
      → Option (ℕ × D)
      → ContractCall
      → Map ℕ M
      → Run ((Option M × Option D) × Map ℕ M)
  resolve_found s (some (hash, d)) call cache =
      cached_mappings s hash (s.get_contract_class d) cache >>= λ found.
      done ((some found.0, some d), found.1)
  resolve_found s none call cache =
      resolve_entry_point s call.entry_point.class_hash cache >>= λ found.
      done ((found.0, none), found.1)

  unfoldable pub resolve_class_data :
      Services D K M S → ContractCall → Map ℕ M → Run ((Option M × Option D) × Map ℕ M)
  resolve_class_data s call cache = resolve_found s (class_data s call) call cache

  -- The trace and the memory are there, as the loop has filtered the calls.
  unfoldable pub process_storage_changes :
      Services D K M S → M → ContractCall → Map ℕ S → Run (Map ℕ S)
  process_storage_changes s m call changes = elim call.entry_point.code_address [
    | none ↦ done changes
    | some address ↦ do
      found ← s.storage_changes m call
      done (insert_some call.call_id found changes)
  ]

  abbrev pub storage_changes_if :
      Bool → Services D K M S → M → ContractCall → Map ℕ S → Run (Map ℕ S)
  storage_changes_if false s m call changes = done changes
  storage_changes_if true s m call changes = process_storage_changes s m call changes

  -- `vm_memory.as_ref().unwrap()` and `vm_trace.as_ref().unwrap()`, and the mappings of the call
  abbrev pub call_queries : Services D K M S → M → ContractCall → Run Queries
  call_queries s m call = do
    memory ← unwrap call.vm_memory
    trace ← unwrap call.vm_trace
    s.from_class_and_call m trace memory

  -- What the adapters give the call trace builder; the mode is set by the function they call.
  abbrev pub trace_builder : Services D K M S → D → ContractCall → Queries → CallTraceBuilder
  trace_builder s d call mappings = record {
    mappings = mappings;
    vm_trace = trace_or_empty call.vm_trace;
    sierra_statements_to_cairo_debug_info = s.get_debug_info d;
    contract_call_id = call.call_id;
    contract_call_children_ids = call.children_call_ids;
    debug_mode = false;
  }

  unfoldable pub build_debugger_data :
      Services D K M S → D → M → ContractCall → Output → Run (Output × ContractCallBuildResult)
  unfolding adapter
  build_debugger_data s d m call o = do
    mappings ← call_queries s m call
    adapter s.debugger (trace_builder s d call mappings) o

  -- `match result`
  unfoldable pub apply_result :
      Services D K M S
      → D
      → M
      → Output
      → ContractCallBuildResult
      → ContractCall
      → Progress M S
      → Progress M S × ContractCall
  unfolding update_call_metadata update_panic_info
  apply_result s d m o result call p =
      let call' =
        update_call_metadata (s.compiler_version m) (is_some (s.inline_strategy_class_hash d))
          (root_of result) o.function_calls_map (set_debugger_data result call) in
      let panic =
        update_panic_info call'.contract_calls_nesting_level (panic_of result)
          (p.deepest_function_call_id_with_panic, p.prev_nested_level) in
      (
        record p {
          output = o;
          deepest_function_call_id_with_panic = panic.0;
          prev_nested_level = panic.1;
        },
        call',
      )

  unfoldable pub build_with_data :
      Services D K M S
      → M
      → Option D
      → ContractCall
      → Progress M S
      → Run (Progress M S × ContractCall)
  unfolding apply_result build_debugger_data
  build_with_data s m none call p = done (p, call)
  build_with_data s m (some d) call p = do
    built ← build_debugger_data s d m call p.output
    done (apply_result s d m built.0 built.1 call p)

  unfoldable pub build_call :
      Services D K M S
      → Option M
      → Option D
      → ContractCall
      → Progress M S
      → Run (Progress M S × ContractCall)
  unfolding build_with_data process_storage_changes
  build_call s none data_ call p = done (p, call)
  build_call s (some m) data_ call p = do
    changes ← storage_changes_if s.with_storage_and_events s m call p.storage_changes_map
    build_with_data s m data_ call (record p { storage_changes_map = changes })

  -- One call of the loop; a call without data of the VM is filtered out before.
  unfoldable pub create_for_call :
      Services D K M S → Bool → ContractCall → Progress M S → Run (Progress M S × ContractCall)
  unfolding resolve_class_data build_call
  create_for_call s false call p = done (p, call)
  create_for_call s true call p = do
    ((m, d), cache) ← resolve_class_data s call p.local_class_cache
    (p', call') ← build_call s m d call (record p { local_class_cache = cache })
    done (p', clean_up call')

  unfoldable pub create_all :
      Services D K M S → ContractCallsMap → Progress M S → Run (Progress M S × ContractCallsMap)
  unfolding create_for_call
  create_all s [] p = done (p, [])
  create_all s ((id, call) ∷ calls) p = do
    (p', call') ← create_for_call s (has_vm_data call) call p
    (p'', calls') ← create_all s calls p'
    done (p'', (id, call') ∷ calls')

  -- The maps start empty, the counter at `next_call_id`.
  unfoldable pub create_function_calls_map_generic :
      Services D K M S → ContractCallsMap → ℕ → Option ℕ → Run (Progress M S × ContractCallsMap)
  unfolding create_all
  create_function_calls_map_generic s calls next_call_id deepest = create_all s calls (record {
    output = record { function_calls_map = []; event_calls_map = []; next_call_id = next_call_id };
    deepest_function_call_id_with_panic = deepest;
    prev_nested_level = 0;
    local_class_cache = [];
    storage_changes_map = [];
  })
