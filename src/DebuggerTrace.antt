-- ===== src/DebuggerTrace.antt =====
-- crates/simulate/src/debugger_trace.rs: the debugger traces of the contract calls of a transaction,
-- merged into one, and the step at which the debugger opens each call.
-- `merge_debugger_trace` calls itself for the contract calls inside a call; each level uses one unit of
-- fuel. Of a contract call's debugger data the execution trace is kept.
pub mod Merged
pub mod Built
mod Samples
use starkloupe_server.Common.{
  ℕ, zero, suc, nat_eq, codes, Bool, true, false, Option, none, some, List, [], ◌∷◌, ◌++◌, length,
}
use starkloupe_server.Common.Maps.{Map, get, insert, modify}
use starkloupe_server.Common.Texts.{is_some}
use starkloupe_server.Common.Run.{Run, done, stop, panicked, out_of_fuel, unwrap, ◌>>=◌}
use starkloupe_server.Common.{Text}
use starkloupe_server.Trace.{
  FunctionCall, FunctionCallsMap, DebuggerTraceEntry, with_location, with_contract_call,
}
use starkloupe_server.Calls.{ContractCall, ContractCallsMap}

-- The builder, with the function calls that it changes
pub record DebuggerTraceBuilder : Type 0 where
  pub contract_calls_debugger_trace_step_index_map : Map ℕ ℕ
  pub trace : List DebuggerTraceEntry
  pub function_calls_map : FunctionCallsMap

abbrev pub set_step : ℕ → Option ℕ → FunctionCall → FunctionCall
set_step index none call = record call { debugger_trace_step_index = some index }
set_step index (some known) call = call

abbrev pub set_first_step : ℕ → FunctionCall → FunctionCall
set_first_step index call = set_step index call.debugger_trace_step_index call

abbrev pub insert_first : ℕ → ℕ → Option ℕ → Map ℕ ℕ → Map ℕ ℕ
insert_first id index none steps = insert id index steps
insert_first id index (some known) steps = steps

-- One step of the execution trace of the contract call `id`. The index of the entry that is pushed is
-- the length of the trace before.
unfoldable pub visit_step :
    (ℕ → DebuggerTraceBuilder → Run DebuggerTraceBuilder)
    → ℕ
    → DebuggerTraceEntry
    → DebuggerTraceBuilder
    → Run DebuggerTraceBuilder
visit_step merge id (with_contract_call child reason) b = merge child b
visit_step merge id (with_location e) b = do
  call ← unwrap (get e.function_call_id b.function_calls_map)
  let steps = b.contract_calls_debugger_trace_step_index_map
  done (record {
    contract_calls_debugger_trace_step_index_map =
        insert_first id (length b.trace) (get id steps) steps;
    trace = b.trace ++ with_location e ∷ [];
    function_calls_map =
        modify e.function_call_id (set_first_step (length b.trace)) b.function_calls_map;
  })

unfoldable pub visit_steps :
    (ℕ → DebuggerTraceBuilder → Run DebuggerTraceBuilder)
    → ℕ
    → List DebuggerTraceEntry
    → DebuggerTraceBuilder
    → Run DebuggerTraceBuilder
unfolding visit_step
visit_steps merge id [] b = done b
visit_steps merge id (e ∷ es) b = visit_step merge id e b >>= visit_steps merge id es

unfoldable pub merge_children :
    (ℕ → DebuggerTraceBuilder → Run DebuggerTraceBuilder)
    → List ℕ
    → DebuggerTraceBuilder
    → Run DebuggerTraceBuilder
merge_children merge [] b = done b
merge_children merge (child ∷ children) b = merge child b >>= merge_children merge children

abbrev pub push_reason : ℕ → Text → DebuggerTraceBuilder → DebuggerTraceBuilder
push_reason id reason b = record b { trace = b.trace ++ with_contract_call id (some reason) ∷ [] }

-- A call in the map, with its execution trace
unfoldable pub merge_call :
    (ℕ → DebuggerTraceBuilder → Run DebuggerTraceBuilder)
    → ℕ
    → List ℕ
    → Option (List DebuggerTraceEntry)
    → DebuggerTraceBuilder
    → Run DebuggerTraceBuilder
unfolding visit_steps merge_children
merge_call merge id children none b =
    merge_children merge children (push_reason id (codes "No call debugger data available") b)
merge_call merge id children (some []) b =
    merge_children merge children (push_reason id (codes "Execution trace is empty") b)
merge_call merge id children (some (e ∷ es)) b = visit_steps merge id (e ∷ es) b

-- For a call that is not in the map the reason is pushed, and then `get(id).unwrap()` panics.
unfoldable pub merge_debugger_trace :
    ℕ → ContractCallsMap → ℕ → DebuggerTraceBuilder → Run DebuggerTraceBuilder
unfolding merge_call
merge_debugger_trace zero calls id b = stop out_of_fuel
merge_debugger_trace (suc fuel) calls id b = unwrap (get id calls) >>= λ call.
    merge_call (merge_debugger_trace fuel calls) id call.children_call_ids call.call_debugger_data b

-- `for (contract_call_id, debugger_trace_step_index) in ..`
unfoldable pub set_contract_steps : Map ℕ ℕ → ContractCallsMap → Run ContractCallsMap
set_contract_steps [] calls = done calls
set_contract_steps ((id, index) ∷ steps) calls = unwrap (get id calls) >>= λ call.
    set_contract_steps steps
      (modify id (λ c. record c { debugger_trace_step_index = some index }) calls)

abbrev pub fill_step : Option ℕ → ContractCall → FunctionCall → FunctionCall
fill_step none contract_call call = record call {
  debugger_trace_step_index = contract_call.debugger_trace_step_index;
}
fill_step (some index) contract_call call = call

abbrev pub fill_call : ContractCallsMap → FunctionCall → Option ℕ → Run FunctionCall
fill_call calls call (some index) = done call
fill_call calls call none = unwrap (get call.contract_call_id calls) >>= λ contract_call.
    done (fill_step none contract_call call)

-- `for (_function_call_id, function_call) in function_calls_map.0.iter_mut()`
unfoldable pub fill_function_steps : ContractCallsMap → FunctionCallsMap → Run FunctionCallsMap
fill_function_steps calls [] = done []
fill_function_steps calls ((id, call) ∷ rest) = do
  call' ← fill_call calls call call.debugger_trace_step_index
  rest' ← fill_function_steps calls rest
  done ((id, call') ∷ rest')

-- The trace, and both maps as the builder leaves them
unfoldable pub build_debugger_trace :
    ℕ
    → ℕ
    → FunctionCallsMap
    → ContractCallsMap
    → Run (List DebuggerTraceEntry × (FunctionCallsMap × ContractCallsMap))
unfolding merge_debugger_trace set_contract_steps fill_function_steps
build_debugger_trace fuel id functions calls = do
  b ← merge_debugger_trace fuel calls id (record {
    contract_calls_debugger_trace_step_index_map = [];
    trace = [];
    function_calls_map = functions;
  })
  calls' ← set_contract_steps b.contract_calls_debugger_trace_step_index_map calls
  functions' ← fill_function_steps calls' b.function_calls_map
  done (b.trace, (functions', calls'))
