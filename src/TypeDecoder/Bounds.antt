-- ===== src/TypeDecoder/Bounds.antt =====
-- crates/data-decoder/src/type_decoder.rs: the depth limit and the visited names of
-- `get_complete_type_info`.
use starkloupe_server.Common.{
  ℕ, zero, suc, ◌+◌, ◌-◌, Text, text_eq, Bool, true, false, ◌||◌, Option, none, some, List, [], ◌∷◌,
  ◌≡◌, sym, some_inj, subst, codes, inl, inr, ◌≤◌, arith, contains, ltb, Bool-cases, Option-cases,
}
use starkloupe_server.Common.Maps.{get}
use starkloupe_server.Common.Texts.{split, split_once, trim}
use starkloupe_server.Common.Run.{Meets, done-Meets, >>=-Meets, Ends-Meets, Run, done, ◌>>=◌, Ends}
use starkloupe_server.Abi.{Struct}
use starkloupe_server.Simplify.{simplify_type_name, strip_both}
use starkloupe_server.Simplify.Total.{simplify_type_name-Ends}
use starkloupe_server.TypeDecoder.{
  Member, Members, entry, TypeInfo, Visited, Expansion, Recurse, TypeDecoder, no_info,
  is_primitive_type, expand_unless, with_info, expand_member, expand_members, expand_inner,
  has_structure, as_element, expand_components, tuple_name, unless_found, first_structured,
  as_members, as_variants, span_inner, expand_struct, expand_enum, expand_span, expand_generic,
  expand_builtin, generic_parts, expand_new, is_expanded, up_to_bracket, get_complete_type_info,
  struct_fields, enum_fields, is_multi_limb_integer_struct, up_to_last, split_generic_params,
}
use starkloupe_server.TypeDecoder.Nesting.{
  nesting, nesting_of_members, nesting_of_member, Within, element_info-Within,
}

-- No name is there twice, and none is primitive.
abbrev pub Distinct : Visited → Type 0
Distinct [] = Unit
Distinct (ty ∷ visited) =
    (contains ty visited ≡ false) × (is_primitive_type ty ≡ false) × Distinct visited

abbrev pub GoodInfo : ℕ → TypeInfo × Visited → Type 0
GoodInfo n (info, visited) = Within n info × Distinct visited

abbrev GoodMember : ℕ → Member × Visited → Type 0
GoodMember n (m, visited) = (nesting_of_member m ≤ n) × Distinct visited

abbrev GoodMembers : ℕ → Members × Visited → Type 0
GoodMembers n (ms, visited) = (nesting_of_members ms ≤ n) × Distinct visited

no_info-Within : (n : ℕ) → Within n no_info
unfolding nesting
no_info-Within n = (omega arith, omega arith)

with_info-GoodMember :
    (name ty : Text) (n : ℕ) (found : TypeInfo × Visited)
    → GoodInfo n found
    → GoodMember n (with_info name ty found)
unfolding nesting_of_member
with_info-GoodMember name ty n ((members, variants), visited) (h, d) = (omega (arith, h.0, h.1), d)

entry-GoodMembers :
    (n : ℕ) (m : Member) (ms : Members) (v v' : Visited)
    → GoodMember n (m, v)
    → GoodMembers n (ms, v')
    → GoodMembers n (entry m ms, v')
unfolding nesting_of_members
entry-GoodMembers n m ms v v' h k = (omega (arith, h.0, k.0), k.1)

up_to_bracket-Ends : (name : Text) (o : Option Text) → Ends (up_to_bracket name o)
up_to_bracket-Ends name none e = cc
up_to_bracket-Ends name (some t) e = cc

generic_parts-Ends :
    (ty : Text) (parts : Run (Text × Text)) → generic_parts ty ≡ some parts → Ends parts
generic_parts-Ends ty parts h = elim (Option-cases (up_to_last b'>' ty)) [
  | inl e ↦ absurd (let h' : none ≡ some parts = rw (sym h) (rw (e, generic_parts)) in cc)
  | inr (t, e) ↦ elim (Option-cases (split_once b'<' ty)) [
    | inl e' ↦ absurd (let h' : none ≡ some parts = rw (sym h) (rw (e, e', generic_parts)) in cc)
    | inr ((name, rest), e') ↦
        let h' : some (up_to_bracket name (up_to_last b'>' rest)) ≡ some parts =
          rw (sym h) (rw (e, e', generic_parts)) in
        subst Ends (some_inj h') (up_to_bracket-Ends name (up_to_last b'>' rest))
  ]
]

is_expanded_inv :
    (depth : ℕ) (ty : Text) (v : Visited)
    → is_expanded depth ty v ≡ false
    → (is_primitive_type ty ≡ false) × (depth ≤ 5) × (contains ty v ≡ false)
is_expanded_inv depth ty v h = ground arith

-- What holds of the recursive call at the next depth carries over to each kind of type.
module _ (recurse : Recurse) (n : ℕ)
    (good : (ty : Text) (v : Visited) → Distinct v → Meets (GoodInfo n) (recurse ty v)) where
  expand_inner-Meets :
      (inner : Text) (v : Visited) → Distinct v → Meets (GoodInfo n) (expand_inner recurse inner v)
  expand_inner-Meets inner v d =
      >>=-Meets (λ a. Unit) (GoodInfo n) (simplify_type_name inner) (λ t. recurse t v)
        (Ends-Meets _ (simplify_type_name-Ends inner)) (λ t _. good t v d)

  expand_unless-Meets :
      (b : Bool) (name ty member_type : Text) (v : Visited)
      → Distinct v
      → Meets (GoodMember n) (expand_unless b recurse name ty member_type v)
  unfolding nesting_of_member nesting
  expand_unless-Meets true name ty member_type v d = done-Meets (GoodMember n) _ (omega arith, d)
  expand_unless-Meets false name ty member_type v d =
      >>=-Meets (GoodInfo n) (GoodMember n) (recurse member_type v)
        (λ found. done (with_info name ty found)) (good member_type v d)
        (λ found g. done-Meets (GoodMember n) _ (with_info-GoodMember name ty n found g))

  expand_member-Meets :
      (depth : ℕ) (name ty : Text) (v : Visited)
      → Distinct v
      → Meets (GoodMember n) (expand_member recurse depth name ty v)
  unfolding expand_member
  expand_member-Meets depth name ty v d =
      >>=-Meets (λ a. Unit) (GoodMember n) (simplify_type_name ty) _
        (Ends-Meets _ (simplify_type_name-Ends ty))
        (λ t _. expand_unless-Meets (contains t v || ltb 5 (suc depth)) name ty t v d)

  expand_members-Meets :
      (depth : ℕ) (fields : List (Text × Text)) (v : Visited)
      → Distinct v
      → Meets (GoodMembers n) (expand_members recurse depth fields v)
  unfolding expand_members nesting_of_members
  expand_members-Meets depth [] v d = done-Meets (GoodMembers n) _ (omega arith, d)
  expand_members-Meets depth ((name, ty) ∷ rest) v d =
      >>=-Meets (GoodMember n) (GoodMembers n) (expand_member recurse depth name ty v) _
        (expand_member-Meets depth name ty v d)
        (λ first g.
          >>=-Meets (GoodMembers n) (GoodMembers n) (expand_members recurse depth rest (first.1)) _
            (expand_members-Meets depth rest (first.1) (g.1))
            (λ others k.
              done-Meets (GoodMembers n) _
                (entry-GoodMembers n (first.0) (others.0) (first.1) (others.1) g k)))

  expand_components-Meets :
      (i : ℕ) (components : List Text) (v : Visited)
      → Distinct v
      → Meets (GoodMembers n) (expand_components recurse i components v)
  unfolding expand_components nesting_of_members
  expand_components-Meets i [] v d = done-Meets (GoodMembers n) _ (omega arith, d)
  expand_components-Meets i (c ∷ rest) v d =
      >>=-Meets (GoodInfo n) (GoodMembers n) (expand_inner recurse (trim c) v) _
        (expand_inner-Meets (trim c) v d)
        (λ found g.
          >>=-Meets (GoodMembers n) (GoodMembers n)
            (expand_components recurse (suc i) rest (found.1)) _
            (expand_components-Meets (suc i) rest (found.1) (g.1))
            (λ others k. done-Meets (GoodMembers n) _ (
              entry-GoodMembers n ((with_info (tuple_name i) (trim c) found).0) (others.0) (found.1)
                (others.1) (with_info-GoodMember (tuple_name i) (trim c) n found g) k)))

  unless_found-Meets :
      (continue : Visited → Expansion) (found : TypeInfo × Visited)
      → GoodInfo n found
      → ((v : Visited) → Distinct v → Meets (GoodInfo n) (continue v))
      → Meets (GoodInfo n) (unless_found continue found)
  unless_found-Meets continue (info, v) g k = elim (Bool-cases (has_structure info)) [
    | inl e ↦ rw (e, unless_found) (done-Meets (GoodInfo n) _ g)
    | inr e ↦ rw (e, unless_found) (k v (g.1))
  ]

  first_structured-Meets :
      (params : List Text) (v : Visited)
      → Distinct v
      → Meets (GoodInfo n) (first_structured recurse params v)
  unfolding first_structured
  first_structured-Meets [] v d = done-Meets (GoodInfo n) _ (no_info-Within n, d)
  first_structured-Meets (p ∷ rest) v d =
      >>=-Meets (GoodInfo n) (GoodInfo n) (expand_inner recurse p v) _ (expand_inner-Meets p v d)
        (λ found g.
          unless_found-Meets (first_structured recurse rest) found g
            (λ w e. first_structured-Meets rest w e))

  weaken-GoodInfo :
      (m : Run (TypeInfo × Visited)) → Meets (GoodInfo n) m → Meets (GoodInfo (suc n)) m
  weaken-GoodInfo m (ends, holds) =
      (ends, λ a e. let g = holds a e in ((omega (arith, g.0.0), omega (arith, g.0.1)), g.1))

  as_members-Meets :
      (m : Run (Members × Visited))
      → Meets (GoodMembers n) m
      → Meets (GoodInfo (suc n)) (do members ← m; done (as_members members))
  unfolding nesting
  as_members-Meets m h =
      >>=-Meets (GoodMembers n) (GoodInfo (suc n)) m _ h
        (λ ms g. done-Meets (GoodInfo (suc n)) _ ((omega (arith, g.0), omega arith), g.1))

  as_variants-Meets :
      (m : Run (Members × Visited))
      → Meets (GoodMembers n) m
      → Meets (GoodInfo (suc n)) (do variants ← m; done (as_variants variants))
  unfolding nesting
  as_variants-Meets m h =
      >>=-Meets (GoodMembers n) (GoodInfo (suc n)) m _ h
        (λ ms g. done-Meets (GoodInfo (suc n)) _ ((omega arith, omega (arith, g.0)), g.1))

  expand_struct-Meets :
      (depth : ℕ) (ty : Text) (s : Struct) (v : Visited)
      → Distinct v
      → Meets (GoodInfo (suc n)) (expand_struct recurse depth ty s v)
  unfolding expand_struct
  expand_struct-Meets depth ty s v d = elim (Option-cases (span_inner ty)) [
    | inr (inner, e) ↦
        rw (e, expand_struct)
          (weaken-GoodInfo (expand_inner recurse inner v) (expand_inner-Meets inner v d))
    | inl e ↦ elim (Bool-cases (is_multi_limb_integer_struct s)) [
      | inl b ↦
          rw (e, b, expand_struct) (done-Meets (GoodInfo (suc n)) _ (no_info-Within (suc n), d))
      | inr b ↦
          rw (e, b, expand_struct)
            (as_members-Meets (expand_members recurse depth (struct_fields s) v)
              (expand_members-Meets depth (struct_fields s) v d))
    ]
  ]

  expand_span-Meets :
      (inner : Text) (v : Visited)
      → Distinct v
      → Meets (GoodInfo (suc n)) (expand_span recurse inner v)
  expand_span-Meets inner v d =
      >>=-Meets (GoodInfo n) (GoodInfo (suc n)) (expand_inner recurse inner v) _
        (expand_inner-Meets inner v d)
        (λ found g.
          done-Meets (GoodInfo (suc n)) (as_element inner found)
            (element_info-Within inner n (found.0) (g.0), g.1))

  expand_generic-Meets :
      (ty : Text) (v : Visited)
      → Distinct v
      → Meets (GoodInfo n) (expand_generic recurse (generic_parts ty) v)
  expand_generic-Meets ty v d = elim (Option-cases (generic_parts ty)) [
    | inl e ↦ rw (e, expand_generic) (done-Meets (GoodInfo n) _ (no_info-Within n, d))
    | inr (parts, e) ↦
        rw (e, expand_generic)
          (>>=-Meets (λ a. Unit) (GoodInfo n) parts _ (Ends-Meets _ (generic_parts-Ends ty parts e))
            (λ found _. first_structured-Meets (split_generic_params (found.1)) v d))
  ]

  expand_builtin-Meets :
      (ty : Text) (v : Visited)
      → Distinct v
      → Meets (GoodInfo (suc n)) (expand_builtin recurse ty v)
  unfolding expand_builtin
  expand_builtin-Meets ty v d = elim (Option-cases (strip_both (codes "Array<") (codes ">") ty)) [
    | inr (inner, e) ↦
        rw (e, expand_builtin)
          (weaken-GoodInfo (expand_inner recurse inner v) (expand_inner-Meets inner v d))
    | inl e1 ↦ elim (Option-cases (span_inner ty)) [
      | inr (inner, e) ↦ rw (e1, e, expand_builtin) (expand_span-Meets inner v d)
      | inl e2 ↦ elim (Option-cases (strip_both (codes "Option<") (codes ">") ty)) [
        | inr (inner, e) ↦
            rw (e1, e2, e, expand_builtin)
              (weaken-GoodInfo (expand_inner recurse inner v) (expand_inner-Meets inner v d))
        | inl e3 ↦ elim (Option-cases (strip_both (codes "(") (codes ")") ty)) [
          | inr (inner, e) ↦
              rw (e1, e2, e3, e, expand_builtin)
                (as_members-Meets (expand_components recurse 0 (split b',' inner) v)
                  (expand_components-Meets 0 (split b',' inner) v d))
          | inl e4 ↦
              rw (e1, e2, e3, e4, expand_builtin)
                (weaken-GoodInfo (expand_generic recurse (generic_parts ty) v)
                  (expand_generic-Meets ty v d))
        ]
      ]
    ]
  ]

  expand_new-Meets :
      (decoder : TypeDecoder) (depth : ℕ) (ty : Text) (v : Visited)
      → Distinct v
      → Meets (GoodInfo (suc n)) (expand_new decoder recurse depth ty v)
  unfolding expand_new expand_enum
  expand_new-Meets decoder depth ty v d =
      elim (Option-cases (get ty (TypeDecoder.struct_map decoder))) [
        | inr (s, e) ↦ rw (e, expand_new) (expand_struct-Meets depth ty s v d)
        | inl e ↦ elim (Option-cases (get ty (TypeDecoder.enum_map decoder))) [
          | inr (en, e') ↦
              rw (e, e', expand_new)
                (as_variants-Meets (expand_members recurse depth (enum_fields en) v)
                  (expand_members-Meets depth (enum_fields en) v d))
          | inl e' ↦ rw (e, e', expand_new) (expand_builtin-Meets ty v d)
        ]
      ]

GoodInfo-level :
    (j k : ℕ) (m : Run (TypeInfo × Visited)) → j ≡ k → Meets (GoodInfo j) m → Meets (GoodInfo k) m
GoodInfo-level j k m e h = subst (λ i. Meets (GoodInfo i) m) e h

-- `get_complete_type_info` ends whatever the ABI, be its types circular: with a fuel that makes
-- seven with the depth, a call at a depth of at most six returns or panics. A type information that
-- it returns has at most six levels of members, less the depth. If the names visited before the call
-- are distinct and not primitive, so are the names visited after it.
pub get_complete_type_info-Bounded :
    (fuel : ℕ) (decoder : TypeDecoder) (depth : ℕ) (ty : Text) (v : Visited)
    → depth ≤ 6
    → 7 ≤ fuel + depth
    → Distinct v
    → Meets (GoodInfo (6 - depth)) (get_complete_type_info fuel decoder depth ty v)
unfolding get_complete_type_info
get_complete_type_info-Bounded zero decoder depth ty v le h d = absurd (omega arith)
get_complete_type_info-Bounded (suc fuel) decoder depth ty v le h d =
    elim (Bool-cases (is_expanded depth ty v)) [
      | inl e ↦
          rw (e, get_complete_type_info)
            (done-Meets (GoodInfo (6 - depth)) _ (no_info-Within (6 - depth), d))
      | inr e ↦
          rw (e, get_complete_type_info)
            (let (primitive, lt, unvisited) = is_expanded_inv depth ty v e in
              GoodInfo-level _ _ _ (omega arith) (
                expand_new-Meets (get_complete_type_info fuel decoder (suc depth)) (5 - depth)
                  (λ t w dw. GoodInfo-level _ _ _ (omega arith) (
                    get_complete_type_info-Bounded fuel decoder (suc depth) t w (omega arith)
                      (omega arith) dw))
                  decoder depth ty (ty ∷ v) (unvisited, primitive, d)))
    ]
