-- ===== src/InternalTrace/Steps.antt =====
-- crates/internal-tracing/src/call_trace.rs: one executed instruction, the whole run and the two
-- functions that start it.
use starkloupe_server.Common.{
  ℕ, zero, suc, nat_eq, text_eq, Bool, true, false, Option, none, some, List, [], ◌∷◌,
  if◌then◌else◌, ltb, get_elem?, ◌-◌,
}
use starkloupe_server.Common.Maps.{get}
use starkloupe_server.Common.Run.{Run, done, stop, panicked, unwrap, ◌>>=◌}
use starkloupe_server.Common.Int.{pos, negsuc}
use starkloupe_server.Values.{DecodedValue}
use starkloupe_server.Trace.{CodeLocation, InternalFnCallIo, DebuggerTraceEntry}
use starkloupe_server.Mappings.{first_of}
use starkloupe_server.InternalTrace.{CallTraceBuilder, Output, TraceState, RelocatedTraceEntry}
use starkloupe_server.InternalTrace.Calls.{
  create_root_function_call, function_at, handle_function_entry, handle_function_exit,
  update_current_call_code_location, panics,
}
use starkloupe_server.InternalTrace.Debugger.{
  sierra_indexes, first_sierra_index, active_locations, StepIo, no_io, process_debugger_trace,
}
use starkloupe_server.InternalTrace.SystemCalls.{handle_system_calls}

-- `&self.vm_trace[i - 1]`
abbrev pub previous_entry : CallTraceBuilder → ℕ → Run RelocatedTraceEntry
previous_entry b zero = stop panicked
previous_entry b (suc i) = unwrap (get_elem? b.vm_trace i)

abbrev pub io_at :
    (ℕ → RelocatedTraceEntry → Run (List InternalFnCallIo × List DecodedValue))
    → Option ℕ
    → RelocatedTraceEntry
    → Run (List InternalFnCallIo × List DecodedValue)
io_at f none entry = done ([], [])
io_at f (some index) entry = f index entry

-- The frame pointer grew: a call, with the arguments at the instruction before
unfoldable pub process_entry :
    CallTraceBuilder
    → Output
    → TraceState
    → ℕ
    → RelocatedTraceEntry
    → Run ((Output × TraceState) × StepIo)
unfolding handle_function_entry
process_entry b o ts i entry = do
  prev ← previous_entry b i
  io ← io_at b.mappings.arguments_at_step (first_sierra_index b prev) prev
  (o', ts') ← handle_function_entry b o ts entry (first_of (sierra_indexes b entry)) io.0 io.1
  done ((o', ts'), record no_io { arguments = io.0; arguments_decoded = io.1 })

-- The frame pointer shrank: a return, with the results at the instruction before
unfoldable pub process_exit :
    CallTraceBuilder
    → Output
    → TraceState
    → ℕ
    → RelocatedTraceEntry
    → Run ((Output × TraceState) × StepIo)
unfolding handle_function_exit
process_exit b o ts i entry = do
  prev ← previous_entry b i
  io ← io_at b.mappings.results_at_step (first_sierra_index b prev) prev
  (o', ts') ← handle_function_exit o ts entry io.0 io.1
  done ((o', ts'), record no_io { results = io.0; results_decoded = io.1 })

-- The frame pointer is the same, with the debug mode
unfoldable pub process_same_frame :
    CallTraceBuilder
    → Output
    → TraceState
    → RelocatedTraceEntry
    → Bool
    → Run ((Output × TraceState) × StepIo)
unfolding update_current_call_code_location
process_same_frame b o ts entry false = done ((o, ts), no_io)
process_same_frame b o ts entry true = do
  o' ← update_current_call_code_location o ts (active_locations b entry)
  done ((o', ts), no_io)

-- The part of `process_trace_entry` up to the debugger trace
unfoldable pub process_frame :
    CallTraceBuilder
    → Output
    → TraceState
    → ℕ
    → RelocatedTraceEntry
    → Run ((Output × TraceState) × StepIo)
unfolding process_entry process_exit process_same_frame
process_frame b o ts i entry = elim (ltb ts.prev_fp entry.fp) [
  | true ↦ process_entry b o ts i entry
  | false ↦ elim (ltb entry.fp ts.prev_fp) [
    | true ↦ process_exit b o ts i entry
    | false ↦ process_same_frame b o ts entry b.debug_mode
  ]
]

unfoldable pub process_trace_entry :
    CallTraceBuilder → Output → TraceState → ℕ → RelocatedTraceEntry → Run (Output × TraceState)
unfolding process_frame process_debugger_trace handle_system_calls
process_trace_entry b o ts i entry = do
  ((o', ts'), io) ← process_frame b o ts i entry
  let ts'' =
      if b.debug_mode then process_debugger_trace b ts' entry (sierra_indexes b entry) io else ts'
  call ← b.mappings.system_call_at_step entry
  handle_system_calls b o' ts'' call

-- `for (i, trace_entry) in self.vm_trace.iter().enumerate()`
unfoldable pub process_entries :
    CallTraceBuilder
    → ℕ
    → List RelocatedTraceEntry
    → Output
    → TraceState
    → Run (Output × TraceState)
unfolding process_trace_entry
process_entries b i [] o ts = done (o, ts)
process_entries b i (entry ∷ entries) o ts = do
  (o', ts') ← process_trace_entry b o ts i entry
  process_entries b (suc i) entries o' (record ts' { prev_fp = entry.fp })

-- The first of the root's results that panics
unfoldable pub check_root_results : TraceState → List InternalFnCallIo → Run TraceState
check_root_results ts [] = done ts
check_root_results ts (result ∷ results) = panics result >>= λ is_panic.
    let rest = check_root_results ts results in
    if is_panic
    then done (record ts { deepest_panic_result_call_id = some ts.root_function_call_id })
    else rest

abbrev pub last_entry : List RelocatedTraceEntry → Run RelocatedTraceEntry
last_entry [] = stop panicked
last_entry (e ∷ []) = done e
last_entry (e ∷ f ∷ es) = last_entry (f ∷ es)

-- The root is looked at if no call panicked.
unfoldable pub root_panic : CallTraceBuilder → TraceState → Option ℕ → Run TraceState
unfolding check_root_results
root_panic b ts (some id) = done ts
root_panic b ts none = do
  last ← last_entry b.vm_trace
  io ← io_at b.mappings.results_at_step (first_sierra_index b last) last
  check_root_results ts io.0

unfoldable pub set_panic_function_call : Output → TraceState → Option ℕ → Run TraceState
set_panic_function_call o ts none = done ts
set_panic_function_call o ts (some id) = unwrap (get id o.function_calls_map) >>= λ call.
    done (record ts { deepest_panic_function_call_id = some call.call_id })

unfoldable pub check_root_panic_result : CallTraceBuilder → Output → TraceState → Run TraceState
unfolding root_panic set_panic_function_call
check_root_panic_result b o ts = do
  ts' ← root_panic b ts ts.deepest_panic_result_call_id
  set_panic_function_call o ts' ts'.deepest_panic_result_call_id

abbrev pub first_entry : List RelocatedTraceEntry → Run RelocatedTraceEntry
first_entry [] = stop panicked
first_entry (e ∷ es) = done e

abbrev pub first_of_locations : List CodeLocation → Option CodeLocation
first_of_locations [] = none
first_of_locations (l ∷ ls) = some l

abbrev pub initial_state : CallTraceBuilder → ℕ → ℕ → ℕ → TraceState
initial_state b root next_call_id prev_fp = record {
  deepest_panic_function_call_id = none;
  deepest_panic_result_level = negsuc 0;
  deepest_panic_result_call_id = none;
  nesting_level = pos 0;
  current_call_id = root;
  root_function_call_id = next_call_id - 1;
  prev_fp = prev_fp;
  prev_cairo_location = none;
  prev_cairo_locations = [];
  contract_call_index = 0;
  loop_parent_map = [];
  debugger_execution_trace = if b.debug_mode then some [] else none;
}

-- The results are the fields of the state: the debugger trace, the root and the deepest panic.
unfoldable pub build : CallTraceBuilder → Output → Run (Output × TraceState)
unfolding create_root_function_call process_entries check_root_panic_result
build b o = do
  first ← first_entry b.vm_trace
  let (root, o₁) =
      create_root_function_call b o first.fp (function_at b (first_of (sierra_indexes b first)))
        (first_of_locations (active_locations b first))
  (o', ts) ← process_entries b 0 b.vm_trace o₁ (initial_state b root o₁.next_call_id first.fp)
  ts' ← check_root_panic_result b o' ts
  done (o', ts')

-- The builder with the mode that the two functions give it
unfoldable pub get_simple_internal_call_trace :
    CallTraceBuilder → Output → Run (Output × (ℕ × Option ℕ))
unfolding build
get_simple_internal_call_trace b o = do
  (o', ts) ← build (record b { debug_mode = false; sierra_statements_to_cairo_debug_info = none }) o
  done (o', (ts.root_function_call_id, ts.deepest_panic_function_call_id))

unfoldable pub get_internal_call_trace :
    CallTraceBuilder → Output → Run (Output × (List DebuggerTraceEntry × (ℕ × Option ℕ)))
unfolding build
get_internal_call_trace b o = do
  (o', ts) ← build (record b { debug_mode = true }) (record o { event_calls_map = [] })
  trace ← unwrap ts.debugger_execution_trace
  done (
    record o' { event_calls_map = o.event_calls_map },
    (trace, (ts.root_function_call_id, ts.deepest_panic_function_call_id)),
  )
