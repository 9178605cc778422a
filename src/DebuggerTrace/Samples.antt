-- ===== src/DebuggerTrace/Samples.antt =====
-- Two contract calls, the second inside the first and without debugger data, each with one function
-- call, and the result on the merged trace at them.
use starkloupe_server.Common.{
  ℕ, ◌≡◌, refl, ◌<◌, ◌⊎◌, arith, true, false, none, some, List, [], ◌∷◌, nat_eq, All,
}
use starkloupe_server.Common.Maps.{get, get-All}
use starkloupe_server.Common.Run.{done}
use starkloupe_server.Trace.{
  FunctionCall, FunctionCallsMap, DebuggerTraceEntry, with_location, with_contract_call,
}
use starkloupe_server.Calls.{
  ContractCall, ContractCallsMap, CallEntryPoint, success, from_cheatnet_state_calltrace,
}
use starkloupe_server.DebuggerTrace.{build_debugger_trace}
use starkloupe_server.DebuggerTrace.Merged.{IsIn, Shows, StepsAreIn, IsMergeable}
use starkloupe_server.DebuggerTrace.Built.{build_debugger_trace-done}

abbrev entry_point : CallEntryPoint
entry_point = record {
  class_hash = none;
  code_address = none;
  storage_address = 1;
  entry_point_selector = 2;
  calldata = [];
}

abbrev a_call : ℕ → ℕ → ContractCall
unfolding from_cheatnet_state_calltrace
a_call id parent =
    from_cheatnet_state_calltrace
      (record {
        entry_point = entry_point;
        result = success [];
        gas_consumed = 0;
        vm_trace = none;
        vm_memory = none;
      })
      id parent 0 false

abbrev execution_trace : List DebuggerTraceEntry
execution_trace =
    with_location (record {
      sierra_index = 0;
      location_index = 0;
      results = [];
      arguments = [];
      results_decoded = none;
      arguments_decoded = none;
      contract_call_id = 1;
      fp = 10;
      function_call_id = 3;
    })
    ∷ with_contract_call 2 none
    ∷ []

abbrev calls : ContractCallsMap
calls =
    (
      1,
      record (a_call 1 0) { children_call_ids = 2 ∷ []; call_debugger_data = some execution_trace },
    )
    ∷ (2, a_call 2 1)
    ∷ []

abbrev function_call : ℕ → ℕ → FunctionCall
function_call id contract = record {
  call_id = id;
  parent_call_id = 0;
  children_call_ids = [];
  contract_call_id = contract;
  event_call_ids = [];
  fn_name = none;
  fp = 10;
  is_deepest_panic_result = false;
  results = [];
  results_decoded = none;
  arguments = [];
  arguments_decoded = none;
  debugger_data_available = true;
  debugger_trace_step_index = none;
  code_location = none;
  is_hidden = false;
}

abbrev functions : FunctionCallsMap
functions = (3, function_call 3 1) ∷ (4, function_call 4 2) ∷ []

calls-IsMergeable : IsMergeable functions calls 3
unfolding get from_cheatnet_state_calltrace
calls-IsMergeable = record {
  below = λ k c at. get-All (λ j w. j < 3) calls k c (omega arith, (omega arith, tt)) at;
  children = λ k c at.
      get-All (λ j w. All (λ i. (j < i) × IsIn i calls) w.children_call_ids) calls k c
        (((omega arith, (_, refl)), tt), (tt, tt)) at;
  steps = λ k c at.
      get-All (λ j w. StepsAreIn functions calls j w.call_debugger_data) calls k c
        (((_, refl), ((omega arith, (_, refl)), tt)), (tt, tt)) at;
}

build_debugger_trace-done_example :
    (trace : List DebuggerTraceEntry) × (functions' : FunctionCallsMap)
    × (calls' : ContractCallsMap) × (build_debugger_trace 2 1 functions calls
        ≡ done (trace, (functions', calls')))
    × ((k i : ℕ) (c : FunctionCall)
        → get k functions' ≡ some c
        → c.debugger_trace_step_index ≡ some i
        → Shows trace i k
          ⊎ ((owner : ContractCall) × (get c.contract_call_id calls' ≡ some owner)
              × (owner.debugger_trace_step_index ≡ some i)))
unfolding get from_cheatnet_state_calltrace
build_debugger_trace-done_example =
    build_debugger_trace-done functions calls 3 1 2 calls-IsMergeable ((_, refl), ((_, refl), tt))
      (λ k c at.
        get-All (λ j w. w.debugger_trace_step_index ≡ none) functions k c (refl, (refl, tt)) at)
      (_, refl) (omega arith)
