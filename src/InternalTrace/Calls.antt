-- ===== src/InternalTrace/Calls.antt =====
-- crates/internal-tracing/src/call_trace.rs: the handlers of function calls and returns.
-- `get_mut(id).unwrap()` is `modify_call`, which panics on a missing id.
use starkloupe_server.Common.{
  ℕ, suc, nat_eq, text_eq, Text, codes, text_beq, Bool, true, false, Option, none, some, List, [],
  ◌∷◌, ◌++◌, if◌then◌else◌, nat_beq,
}
use starkloupe_server.Common.Maps.{get, insert, modify}
use starkloupe_server.Common.Run.{Run, done, stop, panicked, unwrap, ◌>>=◌}
use starkloupe_server.Common.Texts.{starts_with}
use starkloupe_server.Common.Int.{incr, decr, gtb}
use starkloupe_server.Values.{DecodedValue}
use starkloupe_server.Trace.{CodeLocation, InternalFnCallIo, FunctionCall, FunctionCallsMap}
use starkloupe_server.InternalTrace.{CallTraceBuilder, Output, TraceState, RelocatedTraceEntry}
use starkloupe_server.InternalTrace.Names.{is_panic_result, is_loop, get_raw_function_name}

unfoldable pub modify_call :
    ℕ → (FunctionCall → FunctionCall) → FunctionCallsMap → Run FunctionCallsMap
modify_call id f calls = elim (get id calls) [
  | none ↦ stop panicked
  | some call ↦ done (modify id f calls)
]

abbrev pub push_child : ℕ → FunctionCall → FunctionCall
push_child id call = record call { children_call_ids = call.children_call_ids ++ id ∷ [] }

abbrev pub raw_name : Option (Option Text) → Option Text
raw_name none = none
raw_name (some none) = none
raw_name (some (some name)) = get_raw_function_name name

abbrev pub root_function_call :
    CallTraceBuilder → ℕ → ℕ → Option (Option Text) → Option CodeLocation → FunctionCall
root_function_call b call_id fp entry_point_function code_location = record {
  call_id = call_id;
  parent_call_id = 0;
  children_call_ids = [];
  contract_call_id = b.contract_call_id;
  event_call_ids = [];
  fn_name = raw_name entry_point_function;
  fp = fp;
  is_deepest_panic_result = false;
  results = [];
  results_decoded = none;
  arguments = [];
  arguments_decoded = none;
  debugger_data_available = true;
  debugger_trace_step_index = none;
  code_location = code_location;
  is_hidden = true;
}

-- The new call's id is the counter before the call.
unfoldable pub create_root_function_call :
    CallTraceBuilder → Output → ℕ → Option (Option Text) → Option CodeLocation → ℕ × Output
create_root_function_call b o fp entry_point_function code_location =
    let root = root_function_call b o.next_call_id fp entry_point_function code_location in
    (
      o.next_call_id,
      record o {
        next_call_id = suc o.next_call_id;
        function_calls_map = insert o.next_call_id root o.function_calls_map;
      },
    )

abbrev pub location_of : Option FunctionCall → Option CodeLocation
location_of none = none
location_of (some call) = call.code_location

-- The two branches of the source differ in the flags: a function of `core` is hidden and has no
-- debugger data.
unfoldable pub new_function_call :
    CallTraceBuilder
    → Output
    → TraceState
    → Text
    → ℕ
    → List InternalFnCallIo
    → List DecodedValue
    → FunctionCall
new_function_call b o ts fn_name fp arguments arguments_decoded =
    let is_core = starts_with (codes "core::") fn_name in
    record {
      call_id = o.next_call_id;
      parent_call_id = ts.current_call_id;
      children_call_ids = [];
      contract_call_id = b.contract_call_id;
      event_call_ids = [];
      fn_name = some fn_name;
      fp = fp;
      is_deepest_panic_result = false;
      results = [];
      results_decoded = none;
      arguments = arguments;
      arguments_decoded = some arguments_decoded;
      debugger_data_available = if is_core then false else true;
      debugger_trace_step_index = none;
      code_location =
          if b.debug_mode then location_of (get ts.current_call_id o.function_calls_map) else none;
      is_hidden = is_core;
    }

unfoldable pub create_new_function_call :
    CallTraceBuilder
    → Output
    → TraceState
    → Text
    → ℕ
    → List InternalFnCallIo
    → List DecodedValue
    → Run (Output × TraceState)
unfolding modify_call new_function_call
create_new_function_call b o ts fn_name fp arguments arguments_decoded = do
  calls ← modify_call ts.current_call_id (push_child o.next_call_id) (
      insert o.next_call_id (new_function_call b o ts fn_name fp arguments arguments_decoded)
        o.function_calls_map)
  done (
    record o { function_calls_map = calls; next_call_id = suc o.next_call_id },
    record ts { current_call_id = o.next_call_id },
  )

abbrev pub raise_level : Output × TraceState → Run (Output × TraceState)
raise_level (o, ts) = done (o, record ts { nesting_level = incr ts.nesting_level })

-- A loop that runs again returns to the call that was current when it first ran.
abbrev pub enter_loop : Text → TraceState → TraceState
enter_loop fn_name ts = elim (get fn_name ts.loop_parent_map) [
  | some parent_id ↦ record ts { current_call_id = parent_id }
  | none ↦ record ts { loop_parent_map = insert fn_name ts.current_call_id ts.loop_parent_map }
]

abbrev pub name_or_empty : Option Text → Text
name_or_empty none = []
name_or_empty (some name) = name

-- The calls of `handle_function_entry` for a function of this raw name
unfoldable pub enter_function :
    CallTraceBuilder
    → Output
    → TraceState
    → Option Text
    → ℕ
    → List InternalFnCallIo
    → List DecodedValue
    → Run (Output × TraceState)
unfolding create_new_function_call is_loop
enter_function b o ts none fp arguments arguments_decoded = done (o, ts)
enter_function b o ts (some fn_name) fp arguments arguments_decoded = elim (is_loop fn_name) [
  | true ↦ done (o, enter_loop fn_name ts)
  | false ↦ create_new_function_call b o ts fn_name fp arguments arguments_decoded >>= raise_level
]

abbrev pub function_at : CallTraceBuilder → Option ℕ → Option (Option Text)
function_at b none = none
function_at b (some index) = b.mappings.sierra_function_at_index index

unfoldable pub handle_function_entry :
    CallTraceBuilder
    → Output
    → TraceState
    → RelocatedTraceEntry
    → Option ℕ
    → List InternalFnCallIo
    → List DecodedValue
    → Run (Output × TraceState)
unfolding enter_function
handle_function_entry b o ts entry first_sierra_index arguments arguments_decoded =
    elim (function_at b first_sierra_index) [
      | none ↦ done (o, ts)
      | some debug_name ↦
          enter_function b o ts (get_raw_function_name (name_or_empty debug_name)) entry.fp
            arguments arguments_decoded
    ]

abbrev pub first_is_one : List Text → Run Bool
first_is_one [] = stop panicked
first_is_one (v ∷ vs) = done (text_beq v (codes "1"))

-- `value[0]` is read only if the two tests before it hold.
abbrev pub panics : InternalFnCallIo → Run Bool
panics result = if is_panic_result result.type_name then first_is_one result.value else done false

abbrev pub record_panic : TraceState → TraceState
record_panic ts = record ts {
  deepest_panic_result_level = ts.nesting_level;
  deepest_panic_result_call_id = some ts.current_call_id;
}

-- The loop stops at the first result that panics at a new deepest level.
unfoldable pub check_for_panic_result : TraceState → List InternalFnCallIo → Run TraceState
check_for_panic_result ts [] = done ts
check_for_panic_result ts (result ∷ results) =
    elim (gtb ts.nesting_level ts.deepest_panic_result_level) [
      | false ↦ check_for_panic_result ts results
      | true ↦ panics result >>= λ is_panic.
          let rest = check_for_panic_result ts results in
          if is_panic then done (record_panic ts) else rest
    ]

unfoldable pub update_current_call_results :
    Output → TraceState → List InternalFnCallIo → List DecodedValue → Run Output
unfolding modify_call
update_current_call_results o ts results results_decoded = do
  calls ←
      modify_call ts.current_call_id
        (λ call. record call { results = results; results_decoded = some results_decoded })
        o.function_calls_map
  done (record o { function_calls_map = calls })

abbrev pub leave : ℕ → TraceState → TraceState
leave parent_call_id ts = record ts {
  current_call_id = parent_call_id;
  nesting_level = decr ts.nesting_level;
}

-- What follows the test `parent_call.fp == trace_entry.fp`
unfoldable pub return_to :
    Output
    → TraceState
    → ℕ
    → List InternalFnCallIo
    → List DecodedValue
    → Bool
    → Run (Output × TraceState)
unfolding check_for_panic_result update_current_call_results
return_to o ts parent_call_id results results_decoded false = done (o, ts)
return_to o ts parent_call_id results results_decoded true = do
  ts' ← check_for_panic_result ts results
  o' ← update_current_call_results o ts' results results_decoded
  done (o', leave parent_call_id ts')

-- What follows the test `parent_call_id == 0`
unfoldable pub leave_call :
    Output
    → TraceState
    → RelocatedTraceEntry
    → ℕ
    → List InternalFnCallIo
    → List DecodedValue
    → Bool
    → Run (Output × TraceState)
unfolding return_to
leave_call o ts entry parent_call_id results results_decoded true = done (o, ts)
leave_call o ts entry parent_call_id results results_decoded false = do
  parent_call ← unwrap (get parent_call_id o.function_calls_map)
  return_to o ts parent_call_id results results_decoded (nat_beq parent_call.fp entry.fp)

unfoldable pub handle_function_exit :
    Output
    → TraceState
    → RelocatedTraceEntry
    → List InternalFnCallIo
    → List DecodedValue
    → Run (Output × TraceState)
unfolding leave_call
handle_function_exit o ts entry results results_decoded = do
  call ← unwrap (get ts.current_call_id o.function_calls_map)
  leave_call o ts entry call.parent_call_id results results_decoded (nat_beq call.parent_call_id 0)

abbrev pub set_if_none : CodeLocation → Option CodeLocation → FunctionCall → FunctionCall
set_if_none location none call = record call { code_location = some location }
set_if_none location (some known) call = call

abbrev pub first_location : List CodeLocation → FunctionCall → FunctionCall
first_location [] call = call
first_location (location ∷ locations) call = set_if_none location call.code_location call

unfoldable pub update_current_call_code_location :
    Output → TraceState → List CodeLocation → Run Output
unfolding modify_call
update_current_call_code_location o ts locations = do
  calls ← modify_call ts.current_call_id (first_location locations) o.function_calls_map
  done (record o { function_calls_map = calls })
