-- ===== src/InternalTrace/SyscallAtStep.antt =====
-- crates/internal-tracing/src/utils.rs: the system call that an executed instruction makes, read from
-- the memory: `get_system_call_at_trace_step` and the older `get_system_call_at_trace_step_`.
-- blockifier's `SyscallSelector::try_from`, the value of a cell expression, `selector_from_name` and the
-- decoding of an event's data are functions of `SyscallReader`. An event is given by the two kinds.
pub mod Same
use starkloupe_server.Common.{
  ℕ, ◌+◌, ◌^◌, Text, text_beq, Bool, true, false, Option, none, some, List, [], ◌∷◌, map, nat_beq,
  ltb, get_elem?, drop, filter_map, if◌then◌else◌, nat_eq,
}
use starkloupe_server.Common.Maps.{Map, get}
use starkloupe_server.Common.Run.{Run, done, stop, lift, unwrap, ◌>>=◌}
use starkloupe_server.Values.{DecodedValue}
use starkloupe_server.Trace.{EventField}
use starkloupe_server.Simplify.{simplify_type_name}
use starkloupe_server.InternalTrace.{
  ESysCall, contract_call, event_call, storage_write, EventSysCall, RelocatedTraceEntry,
}

pub data EventKind : Type 0 where
  struct_kind : List EventField → EventKind
  enum_kind : List EventField → EventKind

pub record AbiEvent : Type 0 where
  pub name : Text
  pub kind : EventKind

pub data DeprecatedSyscallSelector : Type 0 where
  call_contract emit_event write_storage other : DeprecatedSyscallSelector

-- The inputs of both functions; `C` is a cell expression.
pub record SyscallReader (C : Type 0) : Type 0 where
  pub pc_to_ptr_sys_calls : Map ℕ C
  pub relocated_memory : List (Option ℕ)
  pub cell_value : RelocatedTraceEntry → C → Option ℕ
  pub syscall_selector : ℕ → Option DeprecatedSyscallSelector
  pub selector_from_name : Text → ℕ
  -- the ids of the declared types with their debug names, in the map's order
  pub type_declarations : Option (List (ℕ × Option Text))
  pub events : Option (List AbiEvent)
  pub decode_event_datas : ℕ → List ℕ → Option DecodedValue

unfoldable pub simplify_fields : List EventField → Run (List EventField)
simplify_fields [] = done []
simplify_fields (f ∷ fs) = do
  ty ← simplify_type_name f.ty
  rest ← simplify_fields fs
  done (record f { ty = ty } ∷ rest)

-- The members of the struct of this name, if any
unfoldable pub find_struct_event_members : List AbiEvent → Text → Run (Option (List EventField))
unfolding simplify_fields
find_struct_event_members [] name = done none
find_struct_event_members (e ∷ es) name =
    let rest = find_struct_event_members es name in
    elim (text_beq e.name name) [
      | false ↦ rest
      | true ↦ elim e.kind [
        | struct_kind members ↦ simplify_fields members >>= λ fs. done (some fs)
        | enum_kind variants ↦ rest
      ]
    ]

abbrev pub find_variant : (Text → ℕ) → ℕ → List EventField → Option EventField
find_variant selector_of selector [] = none
find_variant selector_of selector (v ∷ vs) =
    if nat_beq (selector_of v.name) selector then some v else find_variant selector_of selector vs

abbrev pub variants_of : EventKind → List EventField
variants_of (struct_kind members) = []
variants_of (enum_kind variants) = variants

-- The first variant of an enum event with this selector
abbrev pub first_variant : (Text → ℕ) → ℕ → List AbiEvent → Option EventField
first_variant selector_of selector [] = none
first_variant selector_of selector (e ∷ es) =
    elim (find_variant selector_of selector (variants_of e.kind)) [
      | some v ↦ some v
      | none ↦ first_variant selector_of selector es
    ]

abbrev pub named : Text → Option (List EventField) → Option Text × List EventField
named name none = (none, [])
named name (some members) = (some name, members)

unfoldable pub find_event_by_selector :
    (Text → ℕ) → List AbiEvent → ℕ → Run (Option Text × List EventField)
unfolding find_struct_event_members
find_event_by_selector selector_of events selector =
    elim (first_variant selector_of selector events) [
      | none ↦ done (none, [])
      | some v ↦ find_struct_event_members events v.ty >>= λ members. done (named v.name members)
    ]

-- The first declared type whose short name is the event's
unfoldable pub find_event_type : List (ℕ × Option Text) → Option Text → Run (Option ℕ)
find_event_type types none = done none
find_event_type [] (some event) = done none
find_event_type ((id, none) ∷ types) (some event) = find_event_type types (some event)
find_event_type ((id, some name) ∷ types) (some event) = simplify_type_name name >>= λ short.
    let rest = find_event_type types (some event) in
    if text_beq short event then done (some id) else rest

abbrev pub to_usize : ℕ → Option ℕ
to_usize n = if ltb n (2 ^ 64) then some n else none

abbrev pub present : Option (Option ℕ) → Option ℕ
present none = none
present (some v) = v

abbrev pub id_value : Option ℕ → Option ℕ
id_value v = v

abbrev pub address_in : Option ℕ → Option ℕ
address_in none = none
address_in (some v) = to_usize v

abbrev pub both : (ℕ → ℕ → ESysCall) → Option ℕ → Option ℕ → Option ESysCall
both f none b = none
both f (some a) none = none
both f (some a) (some b) = some (f a b)

module _ {C : Type 0} where
  abbrev pub read_felt : SyscallReader C → ℕ → Option ℕ
  read_felt r ptr = present (get_elem? r.relocated_memory ptr)

  abbrev pub event_of :
      SyscallReader C → ℕ → Option Text × List EventField → Option DecodedValue → Option ESysCall
  event_of r selector event none = none
  event_of r selector event (some value) = some (
      event_call (record {
        event_selector = selector;
        event_name = event.0;
        event_members = event.1;
        event_datas = value ∷ [];
      }))

  abbrev pub decode_at : SyscallReader C → ℕ → Option ℕ → Option DecodedValue
  decode_at r id none = none
  decode_at r id (some type_id) =
      r.decode_event_datas type_id (filter_map id_value (drop (id + 1) r.relocated_memory))

  -- An event whose selector stands at `id`
  unfoldable pub event_at :
      SyscallReader C → List (ℕ × Option Text) → List AbiEvent → ℕ → ℕ → Run (Option ESysCall)
  unfolding find_event_by_selector find_event_type
  event_at r types events id selector = do
    event ← find_event_by_selector r.selector_from_name events selector
    type_id ← find_event_type types event.0
    done (event_of r selector event (decode_at r id type_id))

  -- An event at the address that is in the cell, if it is one
  unfoldable pub event_from :
      SyscallReader C → List (ℕ × Option Text) → List AbiEvent → Option ℕ → Run (Option ESysCall)
  unfolding event_at
  event_from r types events none = done none
  event_from r types events (some id) = elim (read_felt r id) [
    | none ↦ done none
    | some selector ↦ event_at r types events id selector
  ]

  abbrev pub emitted :
      SyscallReader C
      → ℕ
      → Option (List (ℕ × Option Text))
      → Option (List AbiEvent)
      → Run (Option ESysCall)
  emitted r ptr none events = done none
  emitted r ptr (some types) none = done none
  emitted r ptr (some types) (some events) =
      event_from r types events (address_in (read_felt r (ptr + 2)))

  -- `match selector`
  unfoldable pub call_at :
      SyscallReader C → ℕ → Option DeprecatedSyscallSelector → Run (Option ESysCall)
  unfolding event_from
  call_at r ptr none = done none
  call_at r ptr (some call_contract) =
      done (both contract_call (read_felt r (ptr + 2)) (read_felt r (ptr + 3)))
  call_at r ptr (some emit_event) = emitted r ptr r.type_declarations r.events
  call_at r ptr (some write_storage) =
      done (both storage_write (read_felt r (ptr + 3)) (read_felt r (ptr + 4)))
  call_at r ptr (some other) = done none

  abbrev pub selected : SyscallReader C → ℕ → Option ℕ → Run (Option ESysCall)
  selected r ptr none = done none
  selected r ptr (some felt) = call_at r ptr (r.syscall_selector felt)

  abbrev pub pointed : SyscallReader C → Option ℕ → Run (Option ESysCall)
  pointed r none = done none
  pointed r (some ptr) = selected r ptr (read_felt r ptr)

  abbrev pub cell_at : SyscallReader C → RelocatedTraceEntry → Option C → Option ℕ
  cell_at r entry none = none
  cell_at r entry (some cell) = address_in (r.cell_value entry cell)

  unfoldable pub get_system_call_at_trace_step :
      SyscallReader C → RelocatedTraceEntry → Run (Option ESysCall)
  unfolding call_at
  get_system_call_at_trace_step r entry =
      pointed r (cell_at r entry (get entry.pc r.pc_to_ptr_sys_calls))

  abbrev pub old_emitted :
      SyscallReader C
      → ℕ
      → Option (List (ℕ × Option Text))
      → Option (List AbiEvent)
      → Run (Option ESysCall)
  old_emitted r ptr none events = done none
  old_emitted r ptr (some types) none = done none
  old_emitted r ptr (some types) (some events) = do
    skipped ← unwrap (get_elem? r.relocated_memory (ptr + 1))
    felt ← unwrap (read_felt r (ptr + 2))
    event_from r types events (to_usize felt)

  unfoldable pub old_call_at :
      SyscallReader C → ℕ → Option DeprecatedSyscallSelector → Run (Option ESysCall)
  unfolding event_from
  old_call_at r ptr none = done none
  old_call_at r ptr (some call_contract) = do
    skipped ← unwrap (get_elem? r.relocated_memory (ptr + 1))
    address ← unwrap (read_felt r (ptr + 2))
    selector ← unwrap (read_felt r (ptr + 3))
    done (some (contract_call address selector))
  old_call_at r ptr (some emit_event) = old_emitted r ptr r.type_declarations r.events
  old_call_at r ptr (some write_storage) = do
    first ← unwrap (read_felt r (ptr + 1))
    second ← unwrap (read_felt r (ptr + 2))
    address ← unwrap (read_felt r (ptr + 3))
    value ← unwrap (read_felt r (ptr + 4))
    done (some (storage_write address value))
  old_call_at r ptr (some other) = done none

  abbrev pub old_at : SyscallReader C → RelocatedTraceEntry → Option C → Run (Option ESysCall)
  old_at r entry none = done none
  old_at r entry (some cell) = do
    felt ← unwrap (r.cell_value entry cell)
    ptr ← unwrap (to_usize felt)
    selector ← unwrap (read_felt r ptr)
    old_call_at r ptr (r.syscall_selector selector)

  -- `get_system_call_at_trace_step_`
  unfoldable pub old_system_call_at_trace_step :
      SyscallReader C → RelocatedTraceEntry → Run (Option ESysCall)
  unfolding old_call_at
  old_system_call_at_trace_step r entry = old_at r entry (get entry.pc r.pc_to_ptr_sys_calls)
