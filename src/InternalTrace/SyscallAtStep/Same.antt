-- ===== src/InternalTrace/SyscallAtStep/Same.antt =====
-- Both functions that read a system call agree.
use starkloupe_server.Common.{
  ℕ, ◌+◌, ◌≡◌, refl, ◌∙◌, ap, Option, none, some, List, get_elem?, Text, nat_eq,
}
use starkloupe_server.Common.Maps.{get}
use starkloupe_server.Common.Run.{Run, done, unwrap, ◌>>=◌}
use starkloupe_server.InternalTrace.{ESysCall, contract_call, storage_write, RelocatedTraceEntry}
use starkloupe_server.InternalTrace.SyscallAtStep.{
  AbiEvent, SyscallReader, DeprecatedSyscallSelector, call_contract, emit_event, write_storage,
  other, read_felt, event_from, address_in, both, emitted, call_at, selected, pointed, cell_at,
  get_system_call_at_trace_step, old_emitted, old_call_at, old_at, to_usize,
  old_system_call_at_trace_step,
}

unwrap_inv :
    {A B : Type 0} (o : Option A) (f : A → Run B) {b : B}
    → (unwrap o >>= f) ≡ done b
    → (a : A) × (o ≡ some a) × (f a ≡ done b)
unwrap_inv none f h = absurd cc
unwrap_inv (some a) f h = (a, refl, h)

module _ {C : Type 0} (r : SyscallReader C) (res : Option ESysCall) where
  emitted-same :
      (ptr : ℕ) (types : Option (List (ℕ × Option Text))) (events : Option (List AbiEvent))
      → old_emitted r ptr types events ≡ done res
      → emitted r ptr types events ≡ done res
  emitted-same ptr none events h = h
  emitted-same ptr (some types) none h = h
  emitted-same ptr (some types) (some events) h =
      let (skipped, e₁, h₁) = unwrap_inv (get_elem? r.relocated_memory (ptr + 1)) _ h in
      let (felt, e₂, h₂) = unwrap_inv (read_felt r (ptr + 2)) _ h₁ in
      ap (λ v. event_from r types events (address_in v)) e₂ ∙ h₂

  call_at-same :
      (ptr : ℕ) (selector : Option DeprecatedSyscallSelector)
      → old_call_at r ptr selector ≡ done res
      → call_at r ptr selector ≡ done res
  unfolding old_call_at call_at
  call_at-same ptr none h = h
  call_at-same ptr (some call_contract) h =
      let (skipped, e₁, h₁) = unwrap_inv (get_elem? r.relocated_memory (ptr + 1)) _ h in
      let (address, e₂, h₂) = unwrap_inv (read_felt r (ptr + 2)) _ h₁ in
      let (selector, e₃, h₃) = unwrap_inv (read_felt r (ptr + 3)) _ h₂ in
      ap (λ x. done (both contract_call x (read_felt r (ptr + 3)))) e₂
      ∙ ap (λ x. done (both contract_call (some address) x)) e₃
      ∙ h₃
  call_at-same ptr (some emit_event) h = emitted-same ptr r.type_declarations r.events h
  call_at-same ptr (some write_storage) h =
      let (first, e₁, h₁) = unwrap_inv (read_felt r (ptr + 1)) _ h in
      let (second, e₂, h₂) = unwrap_inv (read_felt r (ptr + 2)) _ h₁ in
      let (address, e₃, h₃) = unwrap_inv (read_felt r (ptr + 3)) _ h₂ in
      let (value, e₄, h₄) = unwrap_inv (read_felt r (ptr + 4)) _ h₃ in
      ap (λ x. done (both storage_write x (read_felt r (ptr + 4)))) e₃
      ∙ ap (λ x. done (both storage_write (some address) x)) e₄
      ∙ h₄
  call_at-same ptr (some other) h = h

  at-same :
      (entry : RelocatedTraceEntry) (cell : Option C)
      → old_at r entry cell ≡ done res
      → pointed r (cell_at r entry cell) ≡ done res
  at-same entry none h = h
  at-same entry (some cell) h =
      let (felt, e₁, h₁) = unwrap_inv (r.cell_value entry cell) _ h in
      let (ptr, e₂, h₂) = unwrap_inv (to_usize felt) _ h₁ in
      let (selector, e₃, h₃) = unwrap_inv (read_felt r ptr) _ h₂ in
      ap (λ v. pointed r (address_in v)) e₁
      ∙ ap (pointed r) e₂
      ∙ ap (selected r ptr) e₃
      ∙ call_at-same ptr (r.syscall_selector selector) h₃

  -- Where the older function returns without a panic, with a system call or without one, the newer one
  -- returns the same.
  pub get_system_call_at_trace_step-same :
      (entry : RelocatedTraceEntry)
      → old_system_call_at_trace_step r entry ≡ done res
      → get_system_call_at_trace_step r entry ≡ done res
  unfolding old_system_call_at_trace_step get_system_call_at_trace_step
  get_system_call_at_trace_step-same entry h = at-same entry (get entry.pc r.pc_to_ptr_sys_calls) h
