-- ===== src/InternalTrace/SystemCalls.antt =====
-- crates/internal-tracing/src/call_trace.rs: the system calls of an instruction; utils.rs:
-- `flatten_event_data_struct`.
use starkloupe_server.Common.{
  ℕ, suc, nat_eq, text_eq, Text, false, Option, none, some, List, [], ◌∷◌, ◌++◌, if◌then◌else◌, ltb,
  get_elem?,
}
use starkloupe_server.Common.Maps.{get, insert, modify}
use starkloupe_server.Common.Run.{Run, done, unwrap, ◌>>=◌}
use starkloupe_server.Values.{DecodedValue, DecodedValueType, struct, value_of, Fields, end, field}
use starkloupe_server.Trace.{FunctionCall, with_contract_call, EventCall}
use starkloupe_server.InternalTrace.{
  CallTraceBuilder, Output, TraceState, ESysCall, contract_call, event_call, storage_write,
  EventSysCall,
}
use starkloupe_server.InternalTrace.Calls.{modify_call, push_child}
use starkloupe_server.InternalTrace.Debugger.{push_entry}

abbrev pub insert_field : ℕ → DecodedValue → Fields → Fields
insert_field k v end = field k v end
insert_field k v (field j w fs) =
    if ltb k j then field k v (field j w fs) else field j w (insert_field k v fs)

abbrev pub sort_onto : Fields → Fields → Fields
sort_onto end sorted = sorted
sort_onto (field k v fs) sorted = sort_onto fs (insert_field k v sorted)

abbrev pub field_values : Fields → List DecodedValue
field_values end = []
field_values (field k v fs) = v ∷ field_values fs

-- The values that an event's value stands for: a struct's members by their keys (`sorted_by_key` is
-- stable), any other value itself.
abbrev pub flatten_value : DecodedValue → DecodedValueType → List DecodedValue
flatten_value d (struct fs) = field_values (sort_onto fs end)
flatten_value d value = d ∷ []

unfoldable pub flatten_event_data_struct : List DecodedValue → List DecodedValue
flatten_event_data_struct [] = []
flatten_event_data_struct (d ∷ ds) = flatten_value d (value_of d) ++ flatten_event_data_struct ds

abbrev pub push_event : ℕ → FunctionCall → FunctionCall
push_event id call = record call {
  event_call_ids = call.event_call_ids ++ id ∷ [];
  children_call_ids = call.children_call_ids ++ id ∷ [];
}

unfoldable pub handle_contract_call :
    CallTraceBuilder → Output → TraceState → Run (Output × TraceState)
unfolding modify_call
handle_contract_call b o ts = do
  child ← unwrap (get_elem? b.contract_call_children_ids ts.contract_call_index)
  calls ← modify_call ts.current_call_id (push_child child) o.function_calls_map
  let ts' = if b.debug_mode then push_entry (with_contract_call child none) ts else ts
  done (
    record o { function_calls_map = calls },
    record ts' { contract_call_index = suc ts'.contract_call_index },
  )

abbrev pub new_event_call : FunctionCall → Text → EventSysCall → ℕ → EventCall
new_event_call call name event id = record {
  call_id = id;
  contract_call_id = call.contract_call_id;
  function_call_id = call.call_id;
  name = name;
  selector = some event.event_selector;
  members = event.event_members;
  datas = some (flatten_event_data_struct event.event_datas);
  is_hidden = false;
}

-- The event of the current call, if both are there
abbrev pub record_event :
    Output → TraceState → EventSysCall → Option FunctionCall → Option Text → Output
record_event o ts event none name = o
record_event o ts event (some call) none = o
record_event o ts event (some call) (some name) = record {
  function_calls_map = modify ts.current_call_id (push_event o.next_call_id) o.function_calls_map;
  event_calls_map =
      insert o.next_call_id (new_event_call call name event o.next_call_id) o.event_calls_map;
  next_call_id = suc o.next_call_id;
}

unfoldable pub handle_system_calls :
    CallTraceBuilder → Output → TraceState → Option ESysCall → Run (Output × TraceState)
unfolding handle_contract_call
handle_system_calls b o ts none = done (o, ts)
handle_system_calls b o ts (some (contract_call address selector)) = handle_contract_call b o ts
handle_system_calls b o ts (some (event_call event)) =
    done
      (record_event o ts event (get ts.current_call_id o.function_calls_map) event.event_name, ts)
handle_system_calls b o ts (some (storage_write address value)) = done (o, ts)
