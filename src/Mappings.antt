-- ===== src/Mappings.antt =====
-- crates/internal-tracing/src/utils.rs: which instruction stands at a program counter. The library
-- that defines the instructions gives their sizes and the cells of their system call hints, of a
-- type `C`. `partition_point` is the standard library's, on a slice that is partitioned.
pub mod Offsets
pub mod Numbering
mod Samples
use starkloupe_server.Common.{
  ℕ, zero, suc, ◌+◌, ◌-◌, Bool, true, false, ◌&&◌, Option, none, some, List, [], ◌∷◌, ◌++◌,
  get_elem?, length, leb, ltb, nat_eq, if◌then◌else◌,
}
use starkloupe_server.Common.Maps.{Map, get, insert}
use starkloupe_server.Common.Run.{Run, done, stop, rejected, panicked, ◌>>=◌}

pub record CasmInstruction (C : Type 0) : Type 0 where
  -- `body.op_size()`
  pub op_size : ℕ
  -- the `system` operands of the `SystemCall` hints, as cell expressions
  pub system_calls : List C

-- The offsets of the instructions and the end of the last: `offset` grows by the sizes.
unfoldable pub offsets_from : {C : Type 0} → ℕ → List (CasmInstruction C) → List ℕ
offsets_from offset [] = offset ∷ []
offsets_from offset (inst ∷ insts) = offset ∷ offsets_from (offset + inst.op_size) insts

-- `offsets.partition_point(|&x| x <= pc)`
unfoldable pub partition_point : ℕ → List ℕ → ℕ
partition_point pc [] = 0
partition_point pc (x ∷ xs) = let rest = partition_point pc xs in if leb x pc then suc rest else 0

abbrev pub below : ℕ → Option ℕ → Bool
below pc none = false
below pc (some x) = ltb pc x

-- `offsets.len() - 1` underflows on the empty slice.
unfoldable pub find_instruction_index : ℕ → List ℕ → Run ℕ
unfolding partition_point
find_instruction_index pc [] = stop panicked
find_instruction_index pc (x ∷ xs) =
    let index = partition_point pc (x ∷ xs) - 1 in
    if ltb index (length xs) && below pc (get_elem? (x ∷ xs) (suc index))
    then done index
    else stop rejected

-- `get_pc_mappings`, from the offset and the index that the loop has reached
unfoldable pub pc_mappings_from :
    {C : Type 0} → ℕ → ℕ → List (CasmInstruction C) → Map ℕ ℕ → Map ℕ ℕ
pc_mappings_from offset i [] map = map
pc_mappings_from offset i (inst ∷ insts) map =
    pc_mappings_from (offset + inst.op_size) (suc i) insts (insert offset i map)

unfoldable pub get_pc_mappings : {C : Type 0} → List (CasmInstruction C) → Map ℕ ℕ
unfolding pc_mappings_from
get_pc_mappings instructions = pc_mappings_from 1 0 instructions []

-- `for hint in &inst.hints`
abbrev pub insert_calls : {C : Type 0} → ℕ → List C → Map ℕ C → Map ℕ C
insert_calls pc [] map = map
insert_calls pc (cell ∷ cells) map = insert_calls pc cells (insert pc cell map)

unfoldable pub record_calls :
    {C : Type 0} → Run ℕ → ℕ → List (CasmInstruction C) → Map ℕ C → Run (Map ℕ C)
record_calls (done index) pc insts map = elim (get_elem? insts index) [
  | some inst ↦ done (insert_calls pc inst.system_calls map)
  | none ↦ stop panicked
]
record_calls (stop rejected) pc insts map = done map
record_calls (stop s) pc insts map = stop s

-- `for trace_entry in relocated_trace`, with the program counters of the entries
unfoldable pub sys_call_mappings_from :
    {C : Type 0} → List ℕ → List ℕ → List (CasmInstruction C) → Map ℕ C → Run (Map ℕ C)
unfolding find_instruction_index record_calls
sys_call_mappings_from [] offsets insts map = done map
sys_call_mappings_from (pc ∷ pcs) offsets insts map = do
  map' ← record_calls (find_instruction_index pc offsets) pc insts map
  sys_call_mappings_from pcs offsets insts map'

unfoldable pub get_pc_sys_call_mappings :
    {C : Type 0} → List ℕ → List (CasmInstruction C) → Run (Map ℕ C)
unfolding offsets_from sys_call_mappings_from
get_pc_sys_call_mappings pcs insts = sys_call_mappings_from pcs (offsets_from 0 insts) insts []

abbrev pub or_empty : Option (List ℕ) → List ℕ
or_empty none = []
or_empty (some is) = is

-- `make_casm_to_sierra_map`, from the index of the first of the statements; each is given by its
-- `instruction_idx`.
unfoldable pub casm_to_sierra_from : ℕ → List ℕ → Map ℕ (List ℕ) → Map ℕ (List ℕ)
casm_to_sierra_from i [] map = map
casm_to_sierra_from i (key ∷ keys) map =
    casm_to_sierra_from (suc i) keys (insert key (or_empty (get key map) ++ i ∷ []) map)

unfoldable pub make_casm_to_sierra_map : List ℕ → Map ℕ (List ℕ)
unfolding casm_to_sierra_from
make_casm_to_sierra_map instruction_idxs = casm_to_sierra_from 0 instruction_idxs []

abbrev pub first_of : Option (List ℕ) → Option ℕ
first_of none = none
first_of (some []) = none
first_of (some (i ∷ is)) = some i

-- `get_sierra_indexes_at_pc` and `get_first_sierra_index_at_pc` of mappings.rs
unfoldable pub get_sierra_indexes_at_pc : Map ℕ ℕ → Map ℕ (List ℕ) → ℕ → Option (List ℕ)
get_sierra_indexes_at_pc pc_to_inst casm_to_sierra pc = elim (get pc pc_to_inst) [
  | none ↦ none
  | some index ↦ get index casm_to_sierra
]

unfoldable pub get_first_sierra_index_at_pc : Map ℕ ℕ → Map ℕ (List ℕ) → ℕ → Option ℕ
unfolding get_sierra_indexes_at_pc
get_first_sierra_index_at_pc pc_to_inst casm_to_sierra pc =
    first_of (get_sierra_indexes_at_pc pc_to_inst casm_to_sierra pc)
