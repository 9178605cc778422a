-- ===== src/Calls.antt =====
-- crates/simulate/src/contract_call.rs and contract_calls_map.rs: the call tree that cheatnet
-- records, and the map of contract calls that is built from it.
-- Of cheatnet's `CallTrace` the fields that the code reads are kept. A list of `CallTraceNode`s is
-- one data type: its head is an entry point call with its own nested calls, or a deployment without
-- constructor. Of `ContractCall` the fields are left out that stay `None` here and that later
-- passes fill with names and decoded values.
pub mod Builder
pub mod Spec
pub mod Register
pub mod Lookup
pub mod Total
pub mod Built
pub mod Links
pub mod Tree
mod Samples
pub mod Deepest
pub mod Flame
use starkloupe_server.Common.{
  ℕ, zero, suc, ◌+◌, Text, Bool, true, false, Option, none, some, List, [], ◌∷◌, ◌++◌,
}
use starkloupe_server.Common.Maps.{Map}
use starkloupe_server.Trace.{CodeLocation, DebuggerTraceEntry, RelocatedTraceEntry}

pub record CallEntryPoint : Type 0 where
  pub class_hash : Option ℕ
  pub code_address : Option ℕ
  pub storage_address : ℕ
  pub entry_point_selector : ℕ
  pub calldata : List ℕ

pub data TraceDataCallResult : Type 0 where
  -- the `ret_data` of a `CallSuccess`
  success : List ℕ → TraceDataCallResult
  failure : Text → TraceDataCallResult

abbrev pub is_err : TraceDataCallResult → Bool
is_err (success d) = false
is_err (failure e) = true

pub record CallTrace : Type 0 where
  pub entry_point : CallEntryPoint
  pub result : TraceDataCallResult
  pub gas_consumed : ℕ
  pub vm_trace : Option (List RelocatedTraceEntry)
  pub vm_memory : Option (List (Option ℕ))

-- `nested_calls`; the second argument of `entry_point_call` is the list inside the call.
pub data CallTraceNodes : Type 0 where
  nil : CallTraceNodes
  entry_point_call : CallTrace → CallTraceNodes → CallTraceNodes → CallTraceNodes
  deploy_without_constructor : CallTraceNodes → CallTraceNodes

pub record ContractCall : Type 0 where
  pub call_id : ℕ
  pub parent_call_id : ℕ
  pub children_call_ids : List ℕ
  pub function_call_id : Option ℕ
  pub entry_point : CallEntryPoint
  pub result : TraceDataCallResult
  pub vm_trace : Option (List RelocatedTraceEntry)
  pub vm_memory : Option (List (Option ℕ))
  pub error_message : Option Text
  pub call_debugger_data_available : Bool
  pub call_debugger_data : Option (List DebuggerTraceEntry)
  pub class_hash : Option ℕ
  pub is_failed : Bool
  pub is_deepest_panic_result : Bool
  pub sierra_gas : ℕ
  pub contract_calls_nesting_level : ℕ
  pub code_location : Option CodeLocation
  pub debugger_trace_step_index : Option ℕ
  pub is_hidden : Bool

unfoldable pub from_cheatnet_state_calltrace : CallTrace → ℕ → ℕ → ℕ → Bool → ContractCall
from_cheatnet_state_calltrace t call_id parent_call_id level hidden = record {
  call_id = call_id;
  parent_call_id = parent_call_id;
  children_call_ids = [];
  function_call_id = none;
  entry_point = t.entry_point;
  result = t.result;
  vm_trace = t.vm_trace;
  vm_memory = t.vm_memory;
  error_message = none;
  call_debugger_data_available = false;
  call_debugger_data = none;
  class_hash = t.entry_point.class_hash;
  is_failed = is_err t.result;
  is_deepest_panic_result = false;
  sierra_gas = t.gas_consumed;
  contract_calls_nesting_level = level;
  code_location = none;
  debugger_trace_step_index = none;
  is_hidden = hidden;
}

abbrev pub ContractCallsMap : Type 0
ContractCallsMap = Map ℕ ContractCall

-- A list of `FlameChartNode`s: call_id, raw_value, the children, and the nodes that follow.
-- `value`, `name` and `node_type` are constants until the chart is normalised.
pub data FlameChartNodes : Type 0 where
  leaf : FlameChartNodes
  flame : ℕ → ℕ → FlameChartNodes → FlameChartNodes → FlameChartNodes

-- `Vec::push` of one node, with its children.
unfoldable pub push_flame : FlameChartNodes → ℕ → ℕ → FlameChartNodes → FlameChartNodes
push_flame leaf id gas children = flame id gas children leaf
push_flame (flame i g c rest) id gas children = flame i g c (push_flame rest id gas children)

abbrev pub strk_fee_token_address : ℕ
strk_fee_token_address = 0x04718f5a0fc34cc1af16a1cdee98ffb20c31f5cd61d6ab07201858f4287c938d
