-- ===== src/StorageChanges.antt =====
-- crates/simulate/src/storage_changes.rs: the storage writes of a contract call, with the values before
-- and after. An address stands for its hexadecimal text. The storage view, the range check of
-- `StorageKey` and the RPC provider, whose failure is no value, are arguments.
pub mod Shown
mod Samples
use starkloupe_server.Common.{
  ℕ, nat_eq, Bool, true, false, Option, none, some, List, [], ◌∷◌, map, nat_beq, if◌then◌else◌,
}
use starkloupe_server.Common.Maps.{Map, get, insert}
use starkloupe_server.Common.Run.{Run, done, unwrap, ◌>>=◌}
use starkloupe_server.Calls.{ContractCallsMap}
use starkloupe_server.Mappings.{CasmInstruction, get_pc_sys_call_mappings}
use starkloupe_server.InternalTrace.{
  ESysCall, contract_call, event_call, storage_write, RelocatedTraceEntry,
}
use starkloupe_server.InternalTrace.SyscallAtStep.{SyscallReader, get_system_call_at_trace_step}

abbrev pub StorageChanges : Type 0
StorageChanges = Map ℕ (Option ℕ × ℕ)

-- The state view and the check of `StorageKey`
pub record StorageView : Type 0 where
  pub storage_key : ℕ → Option ℕ
  pub before_at : ℕ → ℕ → Option ℕ

unfoldable pub record_write :
    StorageView → ℕ → Option ESysCall → StorageChanges → Run StorageChanges
record_write view contract none changes = done changes
record_write view contract (some (contract_call address selector)) changes = done changes
record_write view contract (some (event_call event)) changes = done changes
record_write view contract (some (storage_write address value)) changes = do
  key ← unwrap (view.storage_key address)
  done (insert address (view.before_at contract key, value) changes)

module _ {C : Type 0} where
  -- `for trace_entry in vm_trace`
  unfoldable pub collect_writes :
      SyscallReader C
      → StorageView
      → ℕ
      → List RelocatedTraceEntry
      → StorageChanges
      → Run StorageChanges
  unfolding record_write
  collect_writes r view contract [] changes = done changes
  collect_writes r view contract (entry ∷ entries) changes = do
    call ← get_system_call_at_trace_step r entry
    changes' ← record_write view contract call changes
    collect_writes r view contract entries changes'

  unfoldable pub get_storage_changes :
      SyscallReader C
      → List (CasmInstruction C)
      → StorageView
      → ℕ
      → List RelocatedTraceEntry
      → Run StorageChanges
  unfolding collect_writes
  get_storage_changes r instructions view contract vm_trace = do
    pc_to_ptr_sys_calls ← get_pc_sys_call_mappings (map (λ e. e.pc) vm_trace) instructions
    collect_writes
        (record r {
          pc_to_ptr_sys_calls = pc_to_ptr_sys_calls;
          type_declarations = none;
          events = none;
        })
        view contract vm_trace []

-- The value before, asked for at the storage of the contract call if it is missing
unfoldable pub fetch_before :
    (ℕ → ℕ → Option ℕ) → ContractCallsMap → ℕ → StorageChanges → Run StorageChanges
fetch_before provider calls call_id [] = done []
fetch_before provider calls call_id ((address, (some before, after)) ∷ changes) = do
  rest ← fetch_before provider calls call_id changes
  done ((address, (some before, after)) ∷ rest)
fetch_before provider calls call_id ((address, (none, after)) ∷ changes) = do
  call ← unwrap (get call_id calls)
  rest ← fetch_before provider calls call_id changes
  done ((address, (provider call.entry_point.storage_address address, after)) ∷ rest)

-- The writes that change a known value
unfoldable pub filter_changed : StorageChanges → Map ℕ (ℕ × ℕ)
filter_changed [] = []
filter_changed ((address, (none, after)) ∷ changes) = filter_changed changes
filter_changed ((address, (some before, after)) ∷ changes) =
    let rest = filter_changed changes in
    if nat_beq before after then rest else insert address (before, after) rest

abbrev pub insert_unless_empty : ℕ → Map ℕ (ℕ × ℕ) → Map ℕ (Map ℕ (ℕ × ℕ)) → Map ℕ (Map ℕ (ℕ × ℕ))
insert_unless_empty id [] filtered = filtered
insert_unless_empty id (change ∷ changes) filtered = insert id (change ∷ changes) filtered

unfoldable pub fetch_before_storage_changes :
    (ℕ → ℕ → Option ℕ) → ContractCallsMap → Map ℕ StorageChanges → Run (Map ℕ (Map ℕ (ℕ × ℕ)))
unfolding fetch_before filter_changed
fetch_before_storage_changes provider calls [] = done []
fetch_before_storage_changes provider calls ((call_id, changes) ∷ storage_changes) = do
  fetched ← fetch_before provider calls call_id changes
  rest ← fetch_before_storage_changes provider calls storage_changes
  done (insert_unless_empty call_id (filter_changed fetched) rest)
