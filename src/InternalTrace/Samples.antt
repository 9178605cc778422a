-- ===== src/InternalTrace/Samples.antt =====
-- A run of three instructions: the second enters a function and calls a contract, the third returns
-- from the function with a panic.
use starkloupe_server.Common.{
  ℕ, ◌≡◌, refl, arith, false, Option, none, some, List, [], ◌∷◌, codes, nat_beq, nat_eq,
  if◌then◌else◌, All,
}
use starkloupe_server.Common.Maps.{get, insert, modify}
use starkloupe_server.Common.Texts.{is_some}
use starkloupe_server.Common.Run.{done}
use starkloupe_server.Trace.{InternalFnCallIo, FunctionCall, DebuggerTraceEntry}
use starkloupe_server.InternalTrace.{
  CallTraceBuilder, Queries, Output, TraceState, RelocatedTraceEntry, contract_call,
}
use starkloupe_server.Common.Int.{pos}
use starkloupe_server.Mappings.{get_sierra_indexes_at_pc, get_first_sierra_index_at_pc}
use starkloupe_server.InternalTrace.Names.{get_raw_function_name, is_panic_result}
use starkloupe_server.InternalTrace.Calls.{root_function_call}
use starkloupe_server.InternalTrace.Steps.{
  build, initial_state, get_simple_internal_call_trace, get_internal_call_trace,
}
use starkloupe_server.InternalTrace.Forest.{Known, IsForest}
use starkloupe_server.InternalTrace.Debugger.{first_sierra_index}
use starkloupe_server.InternalTrace.Handlers.{HasFlag}
use starkloupe_server.InternalTrace.Frames.{io_at-Yields, contract_calls, IsTraceable}
use starkloupe_server.InternalTrace.Results.{
  build-done, build-IsForest, get_internal_call_trace-done,
}
use starkloupe_server.InternalTrace.SyscallAtStep.{
  SyscallReader, call_contract, get_system_call_at_trace_step, old_system_call_at_trace_step,
}
use starkloupe_server.InternalTrace.SyscallAtStep.Same.{get_system_call_at_trace_step-same}

abbrev at_pc : ℕ → ℕ → RelocatedTraceEntry
at_pc pc fp = record { pc = pc; ap = 0; fp = fp }

abbrev panic_result : InternalFnCallIo
panic_result = record {
  type_name = some (codes "core::panics::PanicResult");
  value = codes "1" ∷ [];
}

abbrev queries : Queries
queries = record {
  pc_to_inst_indexes_map = (1, 0) ∷ (2, 1) ∷ (3, 2) ∷ [];
  casm_to_sierra_map = (0, 0 ∷ []) ∷ (1, 5 ∷ []) ∷ (2, 6 ∷ []) ∷ [];
  sierra_function_at_index =
      λ i. if nat_beq i 5 then some (some (codes "erc20::transfer")) else none;
  arguments_at_step = λ i e. done ([], []);
  results_at_step = λ i e. done (panic_result ∷ [], []);
  system_call_at_step = λ e. done (if nat_beq e.pc 2 then some (contract_call 17 23) else none);
}

abbrev run : CallTraceBuilder
run = record {
  mappings = queries;
  vm_trace = at_pc 1 10 ∷ at_pc 2 20 ∷ at_pc 3 10 ∷ [];
  sierra_statements_to_cairo_debug_info = none;
  contract_call_id = 1;
  contract_call_children_ids = 2 ∷ [];
  debug_mode = false;
}

abbrev before : Output
before = record { function_calls_map = []; event_calls_map = []; next_call_id = 3 }

run-IsTraceable : IsTraceable run
unfolding contract_calls
run-IsTraceable = record {
  executed = λ h. cc;
  children = omega arith;
  answers = λ k e at. record {
    arguments =
        io_at-Yields {0} (λ io. Unit) queries.arguments_at_step (first_sierra_index run e) e tt
          (λ i. (_, refl, tt));
    results =
        io_at-Yields (λ io. All HasFlag (io.0)) queries.results_at_step (first_sierra_index run e) e
          tt (λ i. (_, refl, ((λ h l. cc), tt)));
    system_call = (_, refl, tt);
  };
}

before-IsForest : IsForest before
unfolding get
before-IsForest = record {
  positive = omega arith;
  calls = λ k c h. absurd cc;
  parents = λ k c h. absurd cc;
  events = λ k e h. absurd cc;
}

build-done_example :
    (o' : Output) × (ts : TraceState) × (build run before ≡ done (o', ts))
    × (ts.root_function_call_id ≡ 3)
    × Known 3 o'.function_calls_map
    × ((id : ℕ) → ts.deepest_panic_function_call_id ≡ some id → Known id o'.function_calls_map)
    × (is_some ts.debugger_execution_trace ≡ false)
build-done_example = build-done run before run-IsTraceable before-IsForest

get_internal_call_trace-done_example :
    ((o' : Output) × (panic : Option ℕ) × (get_simple_internal_call_trace run before
        ≡ done (o', (3, panic)))
      × IsForest o')
    × ((o' : Output) × (trace : List DebuggerTraceEntry) × (panic : Option ℕ)
        × (get_internal_call_trace run before ≡ done (o', (trace, (3, panic))))
        × (o'.event_calls_map ≡ [])
        × (before.event_calls_map ≡ [] → IsForest o'))
get_internal_call_trace-done_example =
    get_internal_call_trace-done run before run-IsTraceable before-IsForest

abbrev root_call : FunctionCall
root_call = record (root_function_call run 3 10 none none) { children_call_ids = 4 ∷ [] }

abbrev transfer_call : FunctionCall
transfer_call = record (root_function_call run 4 20 none none) {
  parent_call_id = 3;
  children_call_ids = 2 ∷ [];
  fn_name = some (codes "erc20::transfer");
  arguments_decoded = some [];
  results = panic_result ∷ [];
  results_decoded = some [];
  is_hidden = false;
}

abbrev after : Output
after = record {
  function_calls_map = (3, root_call) ∷ (4, transfer_call) ∷ [];
  event_calls_map = [];
  next_call_id = 5;
}

abbrev final_state : TraceState
final_state = record (initial_state run 3 4 10) {
  deepest_panic_function_call_id = some 4;
  deepest_panic_result_level = pos 1;
  deepest_panic_result_call_id = some 4;
  contract_call_index = 1;
}

-- The panic of the call is found, and the contract call becomes its child.
build-run : build run before ≡ done (after, final_state)
unfolding build get insert modify get_sierra_indexes_at_pc get_first_sierra_index_at_pc
    get_raw_function_name is_panic_result
build-run = refl

build-IsForest_example : IsForest after
build-IsForest_example =
    build-IsForest run before run-IsTraceable before-IsForest after final_state build-run

-- A memory with a contract call at cell 1.
abbrev reader : SyscallReader ℕ
reader = record {
  pc_to_ptr_sys_calls = (2, 0) ∷ [];
  relocated_memory = some 1 ∷ some 77 ∷ some 0 ∷ some 17 ∷ some 23 ∷ [];
  cell_value = λ e cell. some 1;
  syscall_selector = λ felt. if nat_beq felt 77 then some call_contract else none;
  selector_from_name = λ name. 0;
  type_declarations = none;
  events = none;
  decode_event_datas = λ id felts. none;
}

old-reader : old_system_call_at_trace_step reader (at_pc 2 20) ≡ done (some (contract_call 17 23))
unfolding old_system_call_at_trace_step get
old-reader = refl

get_system_call_at_trace_step-same_example :
    get_system_call_at_trace_step reader (at_pc 2 20) ≡ done (some (contract_call 17 23))
get_system_call_at_trace_step-same_example =
    get_system_call_at_trace_step-same reader (some (contract_call 17 23)) (at_pc 2 20) old-reader
