-- ===== src/Trace.antt =====
-- Code locations (crates/verification/src/lib.rs) and, of crates/internal-tracing/src, the debugger
-- trace entries (call_trace.rs), the function calls (function_call.rs, function_calls_map.rs) and the
-- event calls (event_call.rs, event_calls_map.rs).
use starkloupe_server.Common.{ℕ, Text, Bool, Option, List}
use starkloupe_server.Common.Maps.{Map}
use starkloupe_server.Values.{DecodedValue}

-- cairo-vm's `RelocatedTraceEntry`
pub record RelocatedTraceEntry : Type 0 where
  pub pc : ℕ
  pub ap : ℕ
  pub fp : ℕ

pub record TextPosition : Type 0 where
  pub line : ℕ
  pub col : ℕ

pub record CodeLocation : Type 0 where
  pub start : TextPosition
  pub end : TextPosition
  pub file_path : Text

pub record InternalFnCallIo : Type 0 where
  pub type_name : Option Text
  pub value : List Text

pub record DebuggerTraceEntryWithLocation : Type 0 where
  pub sierra_index : ℕ
  pub location_index : ℕ
  pub results : List InternalFnCallIo
  pub arguments : List InternalFnCallIo
  pub results_decoded : Option (List DecodedValue)
  pub arguments_decoded : Option (List DecodedValue)
  pub contract_call_id : ℕ
  pub fp : ℕ
  pub function_call_id : ℕ

pub data DebuggerTraceEntry : Type 0 where
  with_location : DebuggerTraceEntryWithLocation → DebuggerTraceEntry
  -- contract_call_id, reason
  with_contract_call : ℕ → Option Text → DebuggerTraceEntry

pub record FunctionCall : Type 0 where
  pub call_id : ℕ
  pub parent_call_id : ℕ
  pub children_call_ids : List ℕ
  pub contract_call_id : ℕ
  pub event_call_ids : List ℕ
  pub fn_name : Option Text
  pub fp : ℕ
  pub is_deepest_panic_result : Bool
  pub results : List InternalFnCallIo
  pub results_decoded : Option (List DecodedValue)
  pub arguments : List InternalFnCallIo
  pub arguments_decoded : Option (List DecodedValue)
  pub debugger_data_available : Bool
  pub debugger_trace_step_index : Option ℕ
  pub code_location : Option CodeLocation
  pub is_hidden : Bool

abbrev pub FunctionCallsMap : Type 0
FunctionCallsMap = Map ℕ FunctionCall

pub record EventField : Type 0 where
  pub name : Text
  pub ty : Text

-- The selector is the felt that the source prints in hexadecimal.
pub record EventCall : Type 0 where
  pub call_id : ℕ
  pub contract_call_id : ℕ
  pub function_call_id : ℕ
  pub name : Text
  pub selector : Option ℕ
  pub members : List EventField
  pub datas : Option (List DecodedValue)
  pub is_hidden : Bool

abbrev pub EventCallsMap : Type 0
EventCallsMap = Map ℕ EventCall
