-- ===== src/Mappings/Samples.antt =====
-- A program of three instructions, and the results on program counters at it.
use starkloupe_server.Common.{
  ℕ, ◌+◌, ◌≤◌, ◌<◌, ◌≡◌, refl, ◌↔◌, List, [], ◌∷◌, length, some, ltb, if◌then◌else◌, arith, nat_eq,
}
use starkloupe_server.Common.Maps.{get}
use starkloupe_server.Common.Run.{done, stop, rejected}
use starkloupe_server.Mappings.{
  CasmInstruction, offsets_from, find_instruction_index, get_pc_mappings,
}
use starkloupe_server.Mappings.Offsets.{start_of, find_instruction_index_iff}
use starkloupe_server.Mappings.Numbering.{find-get_pc_mappings}

abbrev sized_inst : ℕ → CasmInstruction ℕ
sized_inst n = record { op_size = n; system_calls = [] }

abbrev insts : List (CasmInstruction ℕ)
insts = sized_inst 2 ∷ sized_inst 1 ∷ sized_inst 2 ∷ []

find_instruction_index_iff_example :
    (find_instruction_index 3 (offsets_from 0 insts) ≡ done 2)
    ↔ ((2 < length insts) × (start_of insts 2 ≤ 3) × (3 < start_of insts 3))
find_instruction_index_iff_example = find_instruction_index_iff 3 insts 2

find-get_pc_mappings_example :
    (get (1 + start_of insts 1) (get_pc_mappings insts) ≡ some 1)
    × (find_instruction_index (1 + start_of insts 1) (offsets_from 0 insts)
        ≡ (if ltb 1 1 then done 1 else if ltb 2 (length insts) then done 2 else stop rejected))
find-get_pc_mappings_example =
    find-get_pc_mappings insts 1 (omega arith, (omega arith, (omega arith, tt))) refl
