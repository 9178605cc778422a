-- ===== src/Mappings/Offsets.antt =====
-- The binary search in the offsets against the ranges of the instructions, and the two ways in which
-- program counters are numbered.
use starkloupe_server.Common.{
  ℕ, zero, suc, ◌+◌, ◌-◌, ◌≤◌, ◌<◌, ◌≡◌, ◌↔◌, refl, sym, ap, subst, ◌∙◌, arith, inl, inr, ◌&&◌,
  some, List, [], ◌∷◌, get_elem?, length, ltb, nat_eq, if◌then◌else◌, Bool-cases,
}
use starkloupe_server.Common.Run.{done, stop, rejected}
use starkloupe_server.Mappings.{
  CasmInstruction, offsets_from, partition_point, below, find_instruction_index,
}

-- The sizes of the first `i` instructions together
abbrev pub start_of : {C : Type 0} → List (CasmInstruction C) → ℕ → ℕ
start_of [] i = 0
start_of (inst ∷ insts) zero = 0
start_of (inst ∷ insts) (suc i) = inst.op_size + start_of insts i

find_at :
    (pc j m : ℕ) (xs : List ℕ)
    → partition_point pc xs ≡ suc j
    → length xs ≡ suc m
    → find_instruction_index pc xs
      ≡ (if ltb j m && below pc (get_elem? xs (suc j)) then done j else stop rejected)
unfolding find_instruction_index
find_at pc j m [] p l = absurd (omega arith)
find_at pc j m (x ∷ xs) p l =
    let index : partition_point pc (x ∷ xs) - 1 ≡ j = omega (arith, p) in
    let size : length xs ≡ m = omega arith in
    ap
      (λ i.
        if ltb i (length xs) && below pc (get_elem? (x ∷ xs) (suc i))
        then done i
        else stop rejected)
      index
    ∙ ap (λ n. if ltb j n && below pc (get_elem? (x ∷ xs) (suc j)) then done j else stop rejected)
        size

found_inv : (j n i : ℕ) → (if ltb j n then done j else stop rejected) ≡ done i → (j ≡ i) × (j < n)
found_inv j n i h = elim (Bool-cases (ltb j n)) [
  | inl e ↦ (ground arith, ground arith)
  | inr e ↦ absurd (ground arith)
]

module _ {C : Type 0} where
  pub start_of_zero : (insts : List (CasmInstruction C)) → start_of insts 0 ≡ 0
  start_of_zero [] = refl
  start_of_zero (inst ∷ insts) = refl

  pub start_of_mono :
      (insts : List (CasmInstruction C)) (i j : ℕ) → i ≤ j → start_of insts i ≤ start_of insts j
  start_of_mono [] i j h = omega arith
  start_of_mono (inst ∷ insts) zero j h = omega arith
  start_of_mono (inst ∷ insts) (suc i) zero h = omega arith
  start_of_mono (inst ∷ insts) (suc i) (suc j) h =
      omega (arith, start_of_mono insts i j (omega arith))

  length-offsets_from :
      (offset : ℕ) (insts : List (CasmInstruction C))
      → length (offsets_from offset insts) ≡ suc (length insts)
  unfolding offsets_from
  length-offsets_from offset [] = refl
  length-offsets_from offset (inst ∷ insts) =
      ap suc (length-offsets_from (offset + inst.op_size) insts)

  get_elem?-offsets_from :
      (offset : ℕ) (insts : List (CasmInstruction C)) (i : ℕ)
      → i ≤ length insts
      → get_elem? (offsets_from offset insts) i ≡ some (offset + start_of insts i)
  unfolding offsets_from
  get_elem?-offsets_from offset [] zero h = ap some (omega arith)
  get_elem?-offsets_from offset [] (suc i) h = absurd (omega arith)
  get_elem?-offsets_from offset (inst ∷ insts) zero h = ap some (omega arith)
  get_elem?-offsets_from offset (inst ∷ insts) (suc i) h =
      get_elem?-offsets_from (offset + inst.op_size) insts i (omega arith) ∙ ap some (omega arith)

  -- The count of offsets up to `pc` is one more than the index of the last of them.
  abbrev pub IsLast : ℕ → ℕ → List (CasmInstruction C) → ℕ → Type 0
  IsLast pc offset insts j =
      (j ≤ length insts)
      × (offset + start_of insts j ≤ pc)
      × (suc j ≤ length insts → pc < offset + start_of insts (suc j))

  partition_point_none :
      (pc offset : ℕ) (insts : List (CasmInstruction C))
      → pc < offset
      → partition_point pc (offsets_from offset insts) ≡ 0
  unfolding partition_point offsets_from
  partition_point_none pc offset [] h = ground arith
  partition_point_none pc offset (inst ∷ insts) h = ground arith

  pub partition_point-offsets_from :
      (pc offset : ℕ) (insts : List (CasmInstruction C))
      → offset ≤ pc
      → (j : ℕ) × (partition_point pc (offsets_from offset insts) ≡ suc j)
        × IsLast pc offset insts j
  unfolding partition_point offsets_from
  partition_point-offsets_from pc offset [] h =
      (0, ground arith, (omega arith, omega arith, λ k. omega arith))
  partition_point-offsets_from pc offset (inst ∷ insts) h =
      elim (Bool-cases (ltb pc (offset + inst.op_size))) [
        | inl e ↦
            let none_after : partition_point pc (offsets_from (offset + inst.op_size) insts) ≡ 0 =
              partition_point_none pc (offset + inst.op_size) insts (ground arith) in
            (0, ground arith, (omega arith, omega arith, λ k. ground (arith, start_of_zero insts)))
        | inr e ↦
            let (j, p, (b, s, n)) =
              partition_point-offsets_from pc (offset + inst.op_size) insts (ground arith) in
            (suc j, ground arith, (omega arith, omega arith, λ k. omega (arith, n (omega arith))))
      ]

  pub find-offsets_from :
      (pc : ℕ) (insts : List (CasmInstruction C)) (j : ℕ)
      → partition_point pc (offsets_from 0 insts) ≡ suc j
      → IsLast pc 0 insts j
      → find_instruction_index pc (offsets_from 0 insts)
        ≡ (if ltb j (length insts) then done j else stop rejected)
  find-offsets_from pc insts j p (b, s, n) =
      find_at pc j (length insts) (offsets_from 0 insts) p (length-offsets_from 0 insts)
      ∙ elim (Bool-cases (ltb j (length insts))) [
        | inl e ↦ ground (arith, get_elem?-offsets_from 0 insts (suc j) (ground arith), n)
        | inr e ↦ rw e refl
      ]

  last_unique :
      (pc : ℕ) (insts : List (CasmInstruction C)) (i j : ℕ)
      → IsLast pc 0 insts j
      → i < length insts
      → start_of insts i ≤ pc
      → pc < start_of insts (suc i)
      → j ≡ i
  last_unique pc insts i j (b, s, n) l lo hi = elim (Bool-cases (ltb j i)) [
    | inl e ↦
        absurd (ground (arith, n (ground arith), start_of_mono insts (suc j) i (ground arith)))
    | inr e ↦ elim (Bool-cases (ltb i j)) [
      | inl e' ↦ absurd (ground (arith, start_of_mono insts (suc i) j (ground arith)))
      | inr e' ↦ ground arith
    ]
  ]

  -- The search returns the index `i` if and only if there is an instruction `i` and the counter,
  -- counted from 0, lies in its range: from the sizes of the instructions before it, taken together,
  -- up to its end.
  pub find_instruction_index_iff :
      (pc : ℕ) (insts : List (CasmInstruction C)) (i : ℕ)
      → (find_instruction_index pc (offsets_from 0 insts) ≡ done i)
        ↔ ((i < length insts) × (start_of insts i ≤ pc) × (pc < start_of insts (suc i)))
  find_instruction_index_iff pc insts i =
      let (j, p, last) = partition_point-offsets_from pc 0 insts (omega arith) in
      let found = find-offsets_from pc insts j p last in
      (
        λ e.
            let (same, lt) = found_inv j (length insts) i (sym found ∙ e) in
            subst
              (λ k. (k < length insts) × (start_of insts k ≤ pc) × (pc < start_of insts (suc k)))
              same (lt, omega (arith, last.1), omega (arith, last.2 lt)),
        λ (l, lo, hi).
            found
            ∙ ap (λ k. if ltb k (length insts) then done k else stop rejected)
                (last_unique pc insts i j last l lo hi)
            ∙ (ground arith),
      )
