-- ===== src/FunctionCalls/Samples.antt =====
-- One contract call with data of the VM, whose function calls the call trace builder makes, and the
-- results on the function calls of a transaction at it.
use starkloupe_server.Common.{
  ℕ, ◌≤◌, ◌≡◌, refl, ◌⊎◌, arith, true, false, Option, none, some, List, [], ◌∷◌, nat_eq, nat_beq,
  ◌↔◌, get_elem?, All, if◌then◌else◌,
}
use starkloupe_server.Common.Maps.{get}
use starkloupe_server.Common.Run.{done}
use starkloupe_server.Trace.{FunctionCall}
use starkloupe_server.Calls.{ContractCall, ContractCallsMap, success, from_cheatnet_state_calltrace}
use starkloupe_server.InternalTrace.{Queries}
use starkloupe_server.InternalTrace.Calls.{root_function_call}
use starkloupe_server.InternalTrace.Forest.{IsForest}
use starkloupe_server.InternalTrace.Debugger.{first_sierra_index}
use starkloupe_server.InternalTrace.Handlers.{HasFlag}
use starkloupe_server.InternalTrace.Frames.{contract_calls, IsTraceable, io_at-Yields}
use starkloupe_server.FunctionCalls.{
  Services, trace_builder, Progress, create_function_calls_map_generic,
}
use starkloupe_server.FunctionCalls.Driver.{
  merge_deepest_panic, filter_and_hide_unlinked_function_calls,
}
use starkloupe_server.FunctionCalls.Created.{
  IsServing, Cleaned, create_function_calls_map_generic-IsForest,
}
use starkloupe_server.FunctionCalls.Panics.{record_panics, IsDeepest, record_panics-IsDeepest}
use starkloupe_server.FunctionCalls.Linked.{Linked, filter_and_hide-Linked}
use starkloupe_server.FunctionCalls.Merged.{merge_deepest_panic-deepest}

abbrev queries : Queries
queries = record {
  pc_to_inst_indexes_map = (1, 0) ∷ [];
  casm_to_sierra_map = (0, 0 ∷ []) ∷ [];
  sierra_function_at_index = λ i. none;
  arguments_at_step = λ i e. done ([], []);
  results_at_step = λ i e. done ([], []);
  system_call_at_step = λ e. done none;
}

abbrev services : Services ℕ ℕ ℕ ℕ
services = record {
  classes_data = (7, 1) ∷ [];
  get_contract_class = λ d. d;
  inline_strategy_class_hash = λ d. none;
  compile_class = some;
  compiler_version = λ m. record { major = 2; minor = 9; patch = 0 };
  fork_class = λ hash. none;
  storage_changes = λ m call. done (some 0);
  with_storage_and_events = true;
  get_debug_info = λ d. none;
  from_class_and_call = λ m trace memory. done queries;
  debugger = false;
}

abbrev vm_call : ContractCall
unfolding from_cheatnet_state_calltrace
vm_call =
    from_cheatnet_state_calltrace
      (record {
        entry_point = record {
          class_hash = some 7;
          code_address = some 8;
          storage_address = 8;
          entry_point_selector = 2;
          calldata = [];
        };
        result = success [];
        gas_consumed = 0;
        vm_trace = some (record { pc = 1; ap = 0; fp = 10 } ∷ []);
        vm_memory = some [];
      })
      1 0 0 false

vm_call-IsTraceable : IsTraceable (trace_builder services 1 vm_call queries)
unfolding contract_calls vm_call
vm_call-IsTraceable = record {
  executed = λ h. cc;
  children = omega arith;
  answers = λ k e at. record {
    arguments =
        io_at-Yields {0} (λ io. Unit) queries.arguments_at_step
          (first_sierra_index (trace_builder services 1 vm_call queries) e) e tt
          (λ i. (_, refl, tt));
    results =
        io_at-Yields (λ io. All HasFlag (io.0)) queries.results_at_step
          (first_sierra_index (trace_builder services 1 vm_call queries) e) e tt
          (λ i. (_, refl, tt));
    system_call = (_, refl, tt);
  };
}

services-IsServing : IsServing services ((1, vm_call) ∷ [])
unfolding vm_call
services-IsServing = record {
  compiles = λ k h. cc;
  serves = (
    (λ vm m resolves.
        ((_, refl, tt), λ hash d at. record { mappings = (queries, refl, vm_call-IsTraceable) })),
    tt,
  );
}

create_function_calls_map_generic-IsForest_example :
    (p : Progress ℕ ℕ) × (calls' : ContractCallsMap) × (create_function_calls_map_generic services
        ((1, vm_call) ∷ [])
        2
        none
      ≡ done (p, calls'))
    × IsForest p.output
    × (services.debugger ≡ true → p.output.event_calls_map ≡ [])
    × Cleaned ((1, vm_call) ∷ []) calls'
create_function_calls_map_generic-IsForest_example =
    create_function_calls_map_generic-IsForest services ((1, vm_call) ∷ []) 2 none
      services-IsServing (omega arith)

abbrev panics : List (ℕ × Option ℕ)
panics = (0, none) ∷ (1, some 4) ∷ (2, some 5) ∷ (2, some 6) ∷ []

record_panics-IsDeepest_example :
    ((record_panics panics (none, 0) ≡ (none, 0)) × All (λ (level, panic). panic ≡ none) panics)
    ⊎ ((id : ℕ) × (level : ℕ) × (record_panics panics (none, 0) ≡ (some id, level))
        × IsDeepest panics id level)
record_panics-IsDeepest_example = record_panics-IsDeepest panics

abbrev deep_call : ContractCall
unfolding from_cheatnet_state_calltrace
deep_call = record vm_call { call_id = 2; contract_calls_nesting_level = 1 }

abbrev calls : ContractCallsMap
calls = (1, vm_call) ∷ (2, deep_call) ∷ []

abbrev panicking : FunctionCall
panicking = record (root_function_call (trace_builder services 1 vm_call queries) 3 10 none none) {
  contract_call_id = 2;
}

merge_deepest_panic-deepest_example :
    ((k : ℕ) × (r : ContractCall) × (c' : FunctionCall) × ((merge_deepest_panic
          (some 3)
          (some 1)
          calls
          ((3, panicking) ∷ [])).0
        ≡ some k)
      × (get k calls ≡ some r)
      × (1 ≤ r.contract_calls_nesting_level)
      × (0 ≤ r.contract_calls_nesting_level)
      × ((j : ℕ)
          → get j (merge_deepest_panic (some 3) (some 1) calls ((3, panicking) ∷ [])).1
            ≡ (if nat_beq 3 j then some c' else get j ((3, panicking) ∷ [])))
      × ((c'.is_deepest_panic_result ≡ true) ↔ (0 ≤ 1))
      × (k ≡ (if c'.is_deepest_panic_result then 2 else 1)))
    × (merge_deepest_panic (some 3) none calls ((3, panicking) ∷ [])
        ≡ (some 2, (3, panicking) ∷ []))
unfolding get from_cheatnet_state_calltrace
merge_deepest_panic-deepest_example =
    merge_deepest_panic-deepest 3 1 ((3, panicking) ∷ []) calls panicking deep_call vm_call refl
      refl refl

abbrev unlinked : ContractCallsMap
unlinked = (1, record vm_call { children_call_ids = 9 ∷ []; function_call_id = some 3 }) ∷ []

abbrev childless : ContractCall
childless = record vm_call { children_call_ids = 9 ∷ []; function_call_id = some 3 }

filter_and_hide-Linked_example :
    ((get 1 (filter_and_hide_unlinked_function_calls ((3, panicking) ∷ []) unlinked)
        ≡ some childless)
      × ((childless.is_hidden ≡ true)
          ⊎ All (Linked ((3, panicking) ∷ [])) childless.children_call_ids))
    ⊎ ((get 1 (filter_and_hide_unlinked_function_calls ((3, panicking) ∷ []) unlinked)
          ≡ some (record childless { function_call_id = none }))
        × (childless.is_hidden ≡ false)
        × ((j : ℕ) × (child : ℕ) × (get_elem? childless.children_call_ids j ≡ some child)
            × ¬ Linked ((3, panicking) ∷ []) child))
unfolding get
filter_and_hide-Linked_example =
    filter_and_hide-Linked ((3, panicking) ∷ []) unlinked 1 childless refl
