-- ===== src/Mappings/Numbering.antt =====
-- `get_pc_mappings` counts program counters from 1, `get_pc_sys_call_mappings` counts them from 0.
use starkloupe_server.Common.{
  ℕ, zero, suc, ◌+◌, ◌≤◌, ◌<◌, ◌≡◌, refl, sym, ap, subst, ◌∙◌, arith, inl, inr, some, List, [], ◌∷◌,
  All, get_elem?, length, ltb, nat_eq, if◌then◌else◌, Bool-cases, some_inj,
}
use starkloupe_server.Common.Maps.{Map, get, insert, get-insert}
use starkloupe_server.Common.Run.{done, stop, rejected}
use starkloupe_server.Mappings.{
  CasmInstruction, offsets_from, find_instruction_index, pc_mappings_from, get_pc_mappings,
}
use starkloupe_server.Mappings.Offsets.{
  start_of, start_of_zero, start_of_mono, partition_point-offsets_from, find-offsets_from,
  find_instruction_index_iff,
}

module _ {C : Type 0} where
  abbrev pub AllSized : List (CasmInstruction C) → Type 0
  AllSized insts = All (λ inst. 0 < inst.op_size) insts

  get-before :
      (pc offset i : ℕ) (insts : List (CasmInstruction C)) (map : Map ℕ ℕ)
      → pc < offset
      → get pc (pc_mappings_from offset i insts map) ≡ get pc map
  unfolding pc_mappings_from
  get-before pc offset i [] map h = refl
  get-before pc offset i (inst ∷ insts) map h =
      get-before pc (offset + inst.op_size) (suc i) insts (insert offset i map) (omega arith)
      ∙ get-insert offset pc i map
      ∙ (ground arith)

  get-at :
      (offset k i : ℕ) (insts : List (CasmInstruction C)) (map : Map ℕ ℕ)
      → AllSized insts
      → i < length insts
      → get (offset + start_of insts i) (pc_mappings_from offset k insts map) ≡ some (k + i)
  unfolding pc_mappings_from
  get-at offset k i [] map sized h = absurd (omega arith)
  get-at offset k zero (inst ∷ insts) map sized h =
      let here : offset + 0 ≡ offset = omega arith in
      ap
        (λ pc.
          get pc (pc_mappings_from (offset + inst.op_size) (suc k) insts (insert offset k map)))
        here
      ∙ get-before offset (offset + inst.op_size) (suc k) insts (insert offset k map) (omega arith)
      ∙ get-insert offset offset k map
      ∙ (ground arith)
  get-at offset k (suc i) (inst ∷ insts) map sized h =
      let place : offset + (inst.op_size + start_of insts i)
          ≡ offset + inst.op_size + start_of insts i =
        omega arith in
      ap
        (λ pc.
          get pc (pc_mappings_from (offset + inst.op_size) (suc k) insts (insert offset k map)))
        place
      ∙ get-at (offset + inst.op_size) (suc k) i insts (insert offset k map) sized.1 (omega arith)
      ∙ ap some (omega arith)

  start_of-suc :
      (insts : List (CasmInstruction C)) (i : ℕ) {inst : CasmInstruction C}
      → get_elem? insts i ≡ some inst
      → (i < length insts) × (start_of insts (suc i) ≡ start_of insts i + inst.op_size)
  start_of-suc [] i h = cc
  start_of-suc (x ∷ xs) zero {inst} h =
      let same : x ≡ inst = some_inj h in
      (omega arith, omega (arith, start_of_zero xs, ap (λ (y : CasmInstruction C). y.op_size) same))
  start_of-suc (x ∷ xs) (suc i) h = omega (arith, start_of-suc xs i h)

  size_at :
      (insts : List (CasmInstruction C)) (i : ℕ)
      → AllSized insts
      → i < length insts
      → start_of insts i < start_of insts (suc i)
  size_at [] i sized h = omega arith
  size_at (x ∷ []) zero sized h = omega arith
  size_at (x ∷ y ∷ ys) zero sized h = omega arith
  size_at (x ∷ xs) (suc i) sized h = omega (arith, size_at xs i sized.1 (omega arith))

  past_end :
      (pc : ℕ) (insts : List (CasmInstruction C))
      → start_of insts (length insts) ≤ pc
      → find_instruction_index pc (offsets_from 0 insts) ≡ stop rejected
  past_end pc insts h =
      let (j, p, last) = partition_point-offsets_from pc 0 insts (omega arith) in
      find-offsets_from pc insts j p last ∙ elim (Bool-cases (ltb j (length insts))) [
        | inr e ↦ rw e refl
        | inl e ↦ absurd (
            omega (
              arith,
              last.2 (ground arith),
              start_of_mono insts (suc j) (length insts) (ground arith),
            ))
      ]

  -- Where no instruction has size 0: the counter at which `get_pc_mappings` puts instruction `i` is
  -- found as `i` by the search of `get_pc_sys_call_mappings` if the instruction has a size above 1;
  -- if its size is 1, the search gives the next instruction, or none behind the last.
  pub find-get_pc_mappings :
      (insts : List (CasmInstruction C)) (i : ℕ) {inst : CasmInstruction C}
      → AllSized insts
      → get_elem? insts i ≡ some inst
      → (get (1 + start_of insts i) (get_pc_mappings insts) ≡ some i)
        × (find_instruction_index (1 + start_of insts i) (offsets_from 0 insts) ≡ (
            if ltb 1 inst.op_size
            then done i
            else if ltb (suc i) (length insts)
            then done (suc i)
            else stop rejected))
  unfolding get_pc_mappings
  find-get_pc_mappings insts i {inst} sized h =
      let (lt, next) = start_of-suc insts i h in
      let grows = size_at insts i sized lt in
      (
        get-at 1 0 i insts [] sized lt ∙ ap some (omega arith),
        elim (Bool-cases (ltb 1 inst.op_size)) [
          | inl e ↦ rw e (
              (find_instruction_index_iff (1 + start_of insts i) insts i).1
                (lt, omega arith, ground arith))
          | inr e ↦ elim (Bool-cases (ltb (suc i) (length insts))) [
            | inl e' ↦
                rw (e, e')
                  ((find_instruction_index_iff (1 + start_of insts i) insts (suc i)).1 (
                    ground arith,
                    ground arith,
                    ground (arith, size_at insts (suc i) sized (ground arith)),
                  ))
            | inr e' ↦
                let end : length insts ≡ suc i = ground arith in
                rw (e, e')
                  (past_end (1 + start_of insts i) insts
                    (subst (λ n. start_of insts n ≤ 1 + start_of insts i) (sym end) (ground arith)))
          ]
        ],
      )
