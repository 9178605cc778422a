-- ===== src/StorageChanges/Samples.antt =====
-- A storage write, whose value before the provider knows, and the result on what is shown at it.
use starkloupe_server.Common.{ℕ, ◌≡◌, refl, false, none, some, List, [], ◌∷◌, nat_eq}
use starkloupe_server.Common.Maps.{get, insert}
use starkloupe_server.Common.Run.{done}
use starkloupe_server.Calls.{ContractCall, success, from_cheatnet_state_calltrace}
use starkloupe_server.Mappings.{CasmInstruction, get_pc_sys_call_mappings}
use starkloupe_server.InternalTrace.{RelocatedTraceEntry}
use starkloupe_server.InternalTrace.SyscallAtStep.{
  SyscallReader, write_storage, get_system_call_at_trace_step,
}
use starkloupe_server.StorageChanges.{
  StorageChanges, StorageView, get_storage_changes, fetch_before, filter_changed,
}
use starkloupe_server.StorageChanges.Shown.{shown_change, get_storage_changes-shown}

abbrev reader : SyscallReader ℕ
reader = record {
  pc_to_ptr_sys_calls = [];
  relocated_memory = some 0 ∷ some 77 ∷ some 0 ∷ some 0 ∷ some 5 ∷ some 9 ∷ [];
  cell_value = λ e cell. some 1;
  syscall_selector = λ felt. some write_storage;
  selector_from_name = λ name. 0;
  type_declarations = none;
  events = none;
  decode_event_datas = λ id felts. none;
}

abbrev instructions : List (CasmInstruction ℕ)
instructions = record { op_size = 2; system_calls = 0 ∷ [] } ∷ []

abbrev view : StorageView
view = record { storage_key = some; before_at = λ contract key. none }

abbrev trace : List RelocatedTraceEntry
trace = record { pc = 0; ap = 0; fp = 10 } ∷ []

abbrev changes : StorageChanges
changes = (5, (none, 9)) ∷ []

get_storage_changes-write : get_storage_changes reader instructions view 1 trace ≡ done changes
unfolding get_storage_changes get_pc_sys_call_mappings get_system_call_at_trace_step get insert
get_storage_changes-write = refl

abbrev writing_call : ContractCall
unfolding from_cheatnet_state_calltrace
writing_call =
    from_cheatnet_state_calltrace
      (record {
        entry_point = record {
          class_hash = none;
          code_address = some 1;
          storage_address = 1;
          entry_point_selector = 2;
          calldata = [];
        };
        result = success [];
        gas_consumed = 0;
        vm_trace = none;
        vm_memory = none;
      })
      1 0 0 false

get_storage_changes-shown_example :
    (m : StorageChanges) × (fetch_before (λ contract key. some 3) ((1, writing_call) ∷ []) 1 changes
      ≡ done m)
    × ((k : ℕ) → get k (filter_changed m) ≡ shown_change (some 3) (get k changes))
unfolding get from_cheatnet_state_calltrace
get_storage_changes-shown_example =
    get_storage_changes-shown reader instructions view 1 trace changes (λ contract key. some 3)
      ((1, writing_call) ∷ []) 1 writing_call get_storage_changes-write refl
