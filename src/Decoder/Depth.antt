-- ===== src/Decoder/Depth.antt =====
-- How deep `decode_type` of calldata_decoder.rs recurses on the type names of an ABI.
use starkloupe_server.Common.{
  ℕ, zero, suc, ◌≡◌, refl, Text, Bool, true, false, ◌&&◌, ◌||◌, Option, none, some, List, [], ◌∷◌,
  arith, get_elem?, text_beq, Bool-cases, Option-cases, inl, inr,
}
use starkloupe_server.Common.Run.{
  done, stop, out_of_fuel, lift, unwrap, Ends, >>=-Ends, done-Ends, lift-Ends,
}
use starkloupe_server.Common.Texts.{split, trim, parse_usize}
use starkloupe_server.Abi.{Struct, StructMember, Enum, EnumVariant}
use starkloupe_server.Values.{DecodedValueType, single}
use starkloupe_server.DataType.{EDataType, primitive, tuple, user_enum, from_str, bracketed}
use starkloupe_server.Simplify.{simplify_type_name}
use starkloupe_server.Simplify.Total.{simplify_type_name-Ends}
use starkloupe_server.Decoder.{
  Decode, decode_elements, decode_inners, decode_members, decode_variant, decode_kind, decode_type,
  decode_all, decode_calldata, guard, is_empty, element_type, array_length, is_allocation_safe,
  create, split_first, to_usize, find_enum, find_struct,
}

abbrev pub all_types : (Text → Bool) → List Text → Bool
all_types p [] = true
all_types p (t ∷ ts) = p t && all_types p ts

abbrev all_members : (Text → Bool) → List StructMember → Bool
all_members p [] = true
all_members p (m ∷ ms) = p m.ty && all_members p ms

-- A unit variant has no type to decode.
abbrev all_variants : (Text → Bool) → List EnumVariant → Bool
all_variants p [] = true
all_variants p (v ∷ vs) = (text_beq v.ty [] || p v.ty) && all_variants p vs

abbrev parts_within : (Text → Bool) → List Struct → List Enum → EDataType → Text → Bool
parts_within p structs enums primitive ty = true
parts_within p structs enums EDataType.array ty = elim (element_type ty) [
  | none ↦ true
  | some t ↦ p t
]
parts_within p structs enums (user_enum _) ty = elim (find_enum ty enums) [
  | none ↦ true
  | some e ↦ all_variants p e.variants
]
parts_within p structs enums (tuple inners) ty = all_types p inners
parts_within p structs enums (EDataType.struct _) ty = elim (find_struct ty structs) [
  | none ↦ true
  | some s ↦ all_members p s.members
]

-- The elements, members, variants and components of a type nest at most `n` deep.
unfoldable pub expands_within : List Struct → List Enum → ℕ → Text → Bool
expands_within structs enums zero ty = false
expands_within structs enums (suc n) ty =
    parts_within (expands_within structs enums n) structs enums (from_str ty enums) ty

split_first-Ends : (input : List ℕ) → Ends (split_first input)
split_first-Ends [] e = cc
split_first-Ends (x ∷ xs) e = cc

unwrap-Ends {ℓ} : {A : Type ℓ} (o : Option A) → Ends (unwrap o)
unwrap-Ends none e = cc
unwrap-Ends (some a) e = cc

guard-Ends : (b : Bool) → Ends (guard b)
guard-Ends true e = cc
guard-Ends false e = cc

create-Ends :
    (name : Option Text) (ty : Text) (v : DecodedValueType) (rest : List ℕ)
    → Ends (create name ty v rest)
create-Ends name ty v rest =
    >>=-Ends (simplify_type_name ty) _ (simplify_type_name-Ends ty) (λ s _. done-Ends _)

array_length-Ends : (ty : Text) (input : List ℕ) → Ends (array_length ty input)
array_length-Ends ty input = elim (Option-cases (bracketed ty)) [
  | inr (t, e) ↦
      rw (e, array_length)
        (>>=-Ends (unwrap (get_elem? (split b';' t) 1)) _ (unwrap-Ends _) (λ size _.
          >>=-Ends (lift (parse_usize (trim size))) _ (lift-Ends _) (λ n _. done-Ends _)))
  | inl e ↦
      rw (e, array_length)
        (>>=-Ends (split_first input) _ (split_first-Ends input)
          (λ (felt, rest) _. >>=-Ends (lift (to_usize felt)) _ (lift-Ends _) (λ n _. done-Ends _)))
]

module _ (d : Decode) (p : Text → Bool)
    (ends : (ty : Text) (name : Option Text) (input : List ℕ)
      → p ty ≡ true
      → Ends (d ty name input)) where
  decode_elements-Ends :
      (n : ℕ) (ty : Text) (input : List ℕ) → p ty ≡ true → Ends (decode_elements d n ty input)
  unfolding decode_elements
  decode_elements-Ends zero ty input h = done-Ends _
  decode_elements-Ends (suc n) ty input h =
      >>=-Ends (d ty none input) _ (ends ty none input h) (λ (v, rest) _.
        >>=-Ends (decode_elements d n ty rest) _ (decode_elements-Ends n ty rest h)
          (λ r _. done-Ends _))

  decode_inners-Ends :
      (tys : List Text) (input : List ℕ) → all_types p tys ≡ true → Ends (decode_inners d tys input)
  unfolding decode_inners
  decode_inners-Ends [] input h = done-Ends _
  decode_inners-Ends (ty ∷ tys) input h =
      >>=-Ends (d ty none input) _ (ends ty none input (ground arith)) (λ (v, rest) _.
        >>=-Ends (decode_inners d tys rest) _ (decode_inners-Ends tys rest (ground arith))
          (λ r _. done-Ends _))

  decode_members-Ends :
      (index : ℕ) (ms : List StructMember) (input : List ℕ)
      → all_members p ms ≡ true
      → Ends (decode_members d index ms input)
  unfolding decode_members
  decode_members-Ends index [] input h = done-Ends _
  decode_members-Ends index (m ∷ ms) input h =
      >>=-Ends (d m.ty (some m.name) input) _ (ends m.ty (some m.name) input (ground arith))
        (λ (v, rest) _.
          >>=-Ends (decode_members d (suc index) ms rest) _
            (decode_members-Ends (suc index) ms rest (ground arith)) (λ r _. done-Ends _))

  variant_at :
      (vs : List EnumVariant) (i : ℕ) {v : EnumVariant}
      → all_variants p vs ≡ true
      → get_elem? vs i ≡ some v
      → text_beq v.ty [] ≡ false
      → p v.ty ≡ true
  variant_at [] i h e u = cc
  variant_at (w ∷ vs) zero h e u = ground arith
  variant_at (w ∷ vs) (suc i) h e u = variant_at vs i (ground arith) e u

  decode_variant-Ends :
      (ty : Text) (name : Option Text) (v : EnumVariant) (input : List ℕ)
      → (text_beq v.ty [] ≡ false → p v.ty ≡ true)
      → Ends (decode_variant d ty name v input)
  decode_variant-Ends ty name v input h = elim (Bool-cases (text_beq v.ty [])) [
    | inl unit ↦ rw (unit, decode_variant) (done-Ends _)
    | inr typed ↦
        rw (typed, decode_variant)
          (>>=-Ends (d v.ty none input) _ (ends v.ty none input (h typed)) (λ (x, rest) _.
            >>=-Ends (simplify_type_name v.ty) _ (simplify_type_name-Ends v.ty)
              (λ s _. done-Ends _)))
  ]

  lift-inv {ℓ} : {A : Type ℓ} (o : Option A) {a : A} → lift o ≡ done a → o ≡ some a
  lift-inv none h = cc
  lift-inv (some a) h = cc

  decode_kind-Ends :
      (structs : List Struct) (enums : List Enum) (e : EDataType) (ty : Text) (name : Option Text)
      (input : List ℕ)
      → parts_within p structs enums e ty ≡ true
      → Ends (decode_kind d structs enums e ty name input)
  unfolding decode_kind
  decode_kind-Ends structs enums primitive ty name input h =
      >>=-Ends (split_first input) _ (split_first-Ends input)
        (λ (felt, rest) _. create-Ends name ty (single felt) rest)
  decode_kind-Ends structs enums EDataType.array ty name input h =
      >>=-Ends (lift (element_type ty)) _ (lift-Ends _) (λ t et.
        let inner : p t ≡ true = ground (arith, lift-inv (element_type ty) et) in
        >>=-Ends (array_length ty input) _ (array_length-Ends ty input) (λ (n, rest) _.
          >>=-Ends (guard (is_allocation_safe n)) _ (guard-Ends _) (λ _ _.
            >>=-Ends (decode_elements d n t rest) _ (decode_elements-Ends n t rest inner)
              (λ (vs, rest') _. create-Ends name ty _ rest'))))
  decode_kind-Ends structs enums (user_enum _) ty name input h =
      >>=-Ends (split_first input) _ (split_first-Ends input) (λ (felt, rest) _.
        >>=-Ends (lift (to_usize felt)) _ (lift-Ends _) (λ index _.
          >>=-Ends (lift (find_enum ty enums)) _ (lift-Ends _) (λ e ee.
            let all : all_variants p e.variants ≡ true =
              ground (arith, lift-inv (find_enum ty enums) ee) in
            >>=-Ends (lift (get_elem? e.variants index)) _ (lift-Ends _) (λ v ev.
              decode_variant-Ends ty name v rest
                (variant_at e.variants index all (lift-inv (get_elem? e.variants index) ev))))))
  decode_kind-Ends structs enums (tuple inners) ty name input h =
      >>=-Ends (decode_inners d inners input) _ (decode_inners-Ends inners input h)
        (λ (vs, rest) _. create-Ends name ty _ rest)
  decode_kind-Ends structs enums (EDataType.struct _) ty name input h =
      >>=-Ends (lift (find_struct ty structs)) _ (lift-Ends _) (λ s es.
        >>=-Ends (decode_members d 0 s.members input) _
          (decode_members-Ends 0 s.members input
            (ground (arith, lift-inv (find_struct ty structs) es)))
          (λ (fs, rest) _. create-Ends name ty _ rest))

  decode_all-Ends :
      (index : ℕ) (tys names : List Text) (input : List ℕ)
      → all_types p tys ≡ true
      → Ends (decode_all d index tys names input)
  unfolding decode_all
  decode_all-Ends index [] names input h = done-Ends _
  decode_all-Ends index (ty ∷ tys) names input h =
      >>=-Ends (d ty (get_elem? names index) input) _
        (ends ty (get_elem? names index) input (ground arith))
        (λ (v, rest) _.
          >>=-Ends (decode_all d (suc index) tys names rest) _
            (decode_all-Ends (suc index) tys names rest (ground arith)) (λ r _. done-Ends _))

decode_type-Ends :
    (n : ℕ) (structs : List Struct) (enums : List Enum) (ty : Text) (name : Option Text)
    (input : List ℕ)
    → expands_within structs enums n ty ≡ true
    → Ends (decode_type n structs enums ty name input)
unfolding decode_type expands_within
decode_type-Ends zero structs enums ty name input h = cc
decode_type-Ends (suc n) structs enums ty name input h =
    decode_kind-Ends (decode_type n structs enums) (expands_within structs enums n)
      (decode_type-Ends n structs enums) structs enums (from_str ty enums) ty name input h

-- If the elements, members, variants and components of every type in the list nest at most `n`
-- deep, then decoding any data with fuel `n` ends: it returns values, `None`, or panics.
pub decode_calldata-Ends :
    (n : ℕ) (input : List ℕ) (types names : List Text) (structs : List Struct) (enums : List Enum)
    → all_types (expands_within structs enums n) types ≡ true
    → Ends (decode_calldata n input types names structs enums)
unfolding decode_calldata
decode_calldata-Ends n input types names structs enums h =
    >>=-Ends (decode_all (decode_type n structs enums) 0 types names input) _
      (decode_all-Ends (decode_type n structs enums) (expands_within structs enums n)
        (decode_type-Ends n structs enums) 0 types names input h)
      (λ (vs, rest) _. >>=-Ends (guard (is_empty rest)) _ (guard-Ends _) (λ _ _. done-Ends _))

-- A struct whose first member has the struct's own type, as long as the type name is classified as
-- a struct, is never decoded: whatever the fuel and the data, the recursion does not end.
pub decode_type-self_member :
    (fuel : ℕ) (structs : List Struct) (enums : List Enum) (ty : Text) (name : Option Text)
    (input : List ℕ) {t field_name : Text} (s : Struct) (ms : List StructMember)
    → from_str ty enums ≡ EDataType.struct t
    → find_struct ty structs ≡ some s
    → s.members ≡ record { name = field_name; ty = ty } ∷ ms
    → decode_type fuel structs enums ty name input ≡ stop out_of_fuel
unfolding decode_type
decode_type-self_member zero structs enums ty name input s ms e f g = refl
decode_type-self_member (suc n) structs enums ty name input {t} {field_name} s ms e f g =
    rw (e, decode_kind, f, g, decode_members)
      (rw (decode_type-self_member n structs enums ty (some field_name) input s ms e f g))
