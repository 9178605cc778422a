-- ===== src/InternalTrace.antt =====
-- crates/internal-tracing/src/call_trace.rs: the call trace builder, which follows the frame pointer
-- of the executed instructions and builds the tree of the function calls of one contract call.
-- `Names` tells loops and panic results by their names, `Calls` has the handlers of calls and returns,
-- `Debugger` the debugger trace, `SystemCalls` the contract calls and events, `Steps` one executed
-- instruction and the whole run.
-- `CallTraceBuilder` holds the builder's inputs. What `Mappings` and the debug info say of an
-- instruction is a function there, so its reads of the memory are not modelled; those that read the
-- memory or decode values may panic, and stop the builder where they do; `Output` holds the
-- maps and the counter that the builder borrows mutably.
pub mod Names
pub mod Calls
pub mod Debugger
pub mod SystemCalls
pub mod Steps
pub mod SyscallAtStep
pub mod Forest
pub mod Kept
pub mod Handlers
pub mod Exits
pub mod Entries
pub mod Frames
pub mod Returns
pub mod Results
mod Samples
use starkloupe_server.Common.{ℕ, Text, Bool, Option, List}
use starkloupe_server.Common.Maps.{Map}
use starkloupe_server.Common.Run.{Run}
use starkloupe_server.Common.Int.{ℤ}
use starkloupe_server.Values.{DecodedValue}
pub use starkloupe_server.Trace.{RelocatedTraceEntry}
use starkloupe_server.Trace.{
  CodeLocation, InternalFnCallIo, DebuggerTraceEntry, FunctionCallsMap, EventField, EventCallsMap,
}

pub record EventSysCall : Type 0 where
  pub event_selector : ℕ
  pub event_name : Option Text
  pub event_members : List EventField
  pub event_datas : List DecodedValue

pub data ESysCall : Type 0 where
  -- contract_address, function_selector
  contract_call : ℕ → ℕ → ESysCall
  event_call : EventSysCall → ESysCall
  -- address, value
  storage_write : ℕ → ℕ → ESysCall

-- What `get_cairo_locations_at_sierra_index` and `.._indexes` find in the debug info.
pub record SierraStatementsToCairoDebugInfo : Type 0 where
  pub cairo_locations_at_index : ℕ → List CodeLocation
  pub cairo_locations_at_indexes : List ℕ → List CodeLocation

-- The parts of `Mappings` that the builder asks, with the memory of the call. A Sierra function is
-- given by its `debug_name`.
pub record Queries : Type 0 where
  pub pc_to_inst_indexes_map : Map ℕ ℕ
  pub casm_to_sierra_map : Map ℕ (List ℕ)
  pub sierra_function_at_index : ℕ → Option (Option Text)
  pub arguments_at_step : ℕ → RelocatedTraceEntry → Run (List InternalFnCallIo × List DecodedValue)
  pub results_at_step : ℕ → RelocatedTraceEntry → Run (List InternalFnCallIo × List DecodedValue)
  pub system_call_at_step : RelocatedTraceEntry → Run (Option ESysCall)

pub record CallTraceBuilder : Type 0 where
  pub mappings : Queries
  pub vm_trace : List RelocatedTraceEntry
  pub sierra_statements_to_cairo_debug_info : Option SierraStatementsToCairoDebugInfo
  pub contract_call_id : ℕ
  pub contract_call_children_ids : List ℕ
  pub debug_mode : Bool

pub record Output : Type 0 where
  pub function_calls_map : FunctionCallsMap
  pub event_calls_map : EventCallsMap
  pub next_call_id : ℕ

pub record TraceState : Type 0 where
  pub deepest_panic_function_call_id : Option ℕ
  pub deepest_panic_result_level : ℤ
  pub deepest_panic_result_call_id : Option ℕ
  pub nesting_level : ℤ
  pub current_call_id : ℕ
  pub root_function_call_id : ℕ
  pub prev_fp : ℕ
  pub prev_cairo_location : Option CodeLocation
  pub prev_cairo_locations : List CodeLocation
  pub contract_call_index : ℕ
  pub loop_parent_map : Map Text ℕ
  pub debugger_execution_trace : Option (List DebuggerTraceEntry)
