-- ===== src/InternalTrace/Debugger.antt =====
-- crates/internal-tracing/src/call_trace.rs: the debugger trace, `process_debugger_trace`.
use starkloupe_server.Common.{
  ℕ, suc, nat_eq, text_eq, text_beq, Bool, true, false, ◌&&◌, not, Option, none, some, List, [],
  ◌∷◌, ◌++◌, if◌then◌else◌, nat_beq,
}
use starkloupe_server.Values.{DecodedValue}
use starkloupe_server.Trace.{
  TextPosition, CodeLocation, InternalFnCallIo, DebuggerTraceEntry, with_location,
}
use starkloupe_server.Mappings.{get_sierra_indexes_at_pc, get_first_sierra_index_at_pc}
use starkloupe_server.InternalTrace.{
  CallTraceBuilder, TraceState, RelocatedTraceEntry, SierraStatementsToCairoDebugInfo,
}

-- `get_first_sierra_index_at_pc`, `get_sierra_indexes_at_pc`
abbrev pub sierra_indexes : CallTraceBuilder → RelocatedTraceEntry → Option (List ℕ)
sierra_indexes b entry =
    get_sierra_indexes_at_pc b.mappings.pc_to_inst_indexes_map b.mappings.casm_to_sierra_map
      entry.pc

abbrev pub first_sierra_index : CallTraceBuilder → RelocatedTraceEntry → Option ℕ
first_sierra_index b entry =
    get_first_sierra_index_at_pc b.mappings.pc_to_inst_indexes_map b.mappings.casm_to_sierra_map
      entry.pc

abbrev pub locations_at :
    Option SierraStatementsToCairoDebugInfo → Option (List ℕ) → List CodeLocation
locations_at none indexes = []
locations_at (some info) none = []
locations_at (some info) (some indexes) = info.cairo_locations_at_indexes indexes

abbrev pub active_locations : CallTraceBuilder → RelocatedTraceEntry → List CodeLocation
active_locations b entry =
    if b.debug_mode
    then locations_at b.sierra_statements_to_cairo_debug_info (sierra_indexes b entry)
    else []

abbrev pub position_beq : TextPosition → TextPosition → Bool
position_beq p q = nat_beq p.line q.line && nat_beq p.col q.col

abbrev pub location_beq : CodeLocation → CodeLocation → Bool
location_beq a b =
    position_beq a.start b.start && position_beq a.end b.end && text_beq a.file_path b.file_path

abbrev pub locations_beq : List CodeLocation → List CodeLocation → Bool
locations_beq [] [] = true
locations_beq [] (b ∷ bs) = false
locations_beq (a ∷ as_) [] = false
locations_beq (a ∷ as_) (b ∷ bs) = location_beq a b && locations_beq as_ bs

abbrev pub should_add_entry : TraceState → CodeLocation → List CodeLocation → Bool
should_add_entry ts location locations = elim ts.prev_cairo_location [
  | none ↦ true
  | some prev ↦
      not (location_beq location prev) && not (locations_beq locations ts.prev_cairo_locations)
]

abbrev pub push_onto :
    DebuggerTraceEntry → Option (List DebuggerTraceEntry) → TraceState → TraceState
push_onto e none ts = ts
push_onto e (some trace) ts = record ts { debugger_execution_trace = some (trace ++ e ∷ []) }

abbrev pub push_entry : DebuggerTraceEntry → TraceState → TraceState
push_entry e ts = push_onto e ts.debugger_execution_trace ts

-- The arguments and the results at an instruction, and their decoded forms
pub record StepIo : Type 0 where
  pub arguments : List InternalFnCallIo
  pub arguments_decoded : List DecodedValue
  pub results : List InternalFnCallIo
  pub results_decoded : List DecodedValue

abbrev pub no_io : StepIo
no_io = record { arguments = []; arguments_decoded = []; results = []; results_decoded = [] }

abbrev pub located_entry :
    CallTraceBuilder → TraceState → RelocatedTraceEntry → StepIo → ℕ → ℕ → DebuggerTraceEntry
located_entry b ts entry io sierra_index location_index = with_location (record {
  sierra_index = sierra_index;
  location_index = location_index;
  results = io.results;
  arguments = io.arguments;
  results_decoded = if b.debug_mode then some io.results_decoded else none;
  arguments_decoded = if b.debug_mode then some io.arguments_decoded else none;
  contract_call_id = b.contract_call_id;
  fp = entry.fp;
  function_call_id = ts.current_call_id;
})

-- `for (location_index, cairo_location) in locations.iter().enumerate()`
unfoldable pub add_locations :
    CallTraceBuilder
    → RelocatedTraceEntry
    → StepIo
    → ℕ
    → List CodeLocation
    → ℕ
    → List CodeLocation
    → TraceState
    → TraceState
add_locations b entry io sierra_index locations location_index [] ts = ts
add_locations b entry io sierra_index locations location_index (location ∷ rest) ts =
    let ts' =
      if should_add_entry ts location locations
      then push_entry (located_entry b ts entry io sierra_index location_index) ts
      else ts in
    add_locations b entry io sierra_index locations (suc location_index) rest
      (record ts' { prev_cairo_location = some location })

abbrev pub locations_of : CallTraceBuilder → ℕ → List CodeLocation
locations_of b index = elim b.sierra_statements_to_cairo_debug_info [
  | none ↦ []
  | some info ↦ info.cairo_locations_at_index index
]

unfoldable pub add_indexes :
    CallTraceBuilder → RelocatedTraceEntry → StepIo → List ℕ → TraceState → TraceState
unfolding add_locations
add_indexes b entry io [] ts = ts
add_indexes b entry io (sierra_index ∷ indexes) ts =
    let locations = locations_of b sierra_index in
    add_indexes b entry io indexes
      (record (add_locations b entry io sierra_index locations 0 locations ts) {
        prev_cairo_locations = locations;
      })

unfoldable pub process_debugger_trace :
    CallTraceBuilder → TraceState → RelocatedTraceEntry → Option (List ℕ) → StepIo → TraceState
unfolding add_indexes
process_debugger_trace b ts entry none io = ts
process_debugger_trace b ts entry (some indexes) io = add_indexes b entry io indexes ts
