-- ===== src/Decoder/Extends.antt =====
-- Decoding reads a prefix of the data: more data behind it is left over unchanged.
use starkloupe_server.Common.{
  ℕ, zero, suc, ◌≡◌, refl, Text, false, Option, none, some, List, [], ◌∷◌, ◌++◌, get_elem?,
  text_beq, Bool-cases, Option-cases, inl, inr,
}
use starkloupe_server.Common.Run.{Run, done, stop, rejected, ◌>>=◌, lift, unwrap, >>=-eq-done}
use starkloupe_server.Common.Texts.{split, trim, parse_usize}
use starkloupe_server.Abi.{Struct, StructMember, Enum, EnumVariant}
use starkloupe_server.Values.{DecodedValue, DecodedValueType, single}
use starkloupe_server.DataType.{EDataType, primitive, tuple, user_enum, from_str, bracketed}
use starkloupe_server.Simplify.{simplify_type_name}
use starkloupe_server.Decoder.{
  Decode, decode_elements, decode_inners, decode_members, decode_primitive, decode_variant,
  decode_kind, decode_type, decode_all, decode_calldata, guard, is_empty, element_type,
  array_length, is_allocation_safe, create, split_first, to_usize, find_enum, find_struct,
}

module _ (extra : List ℕ) where
  -- `m'` returns what `m` does, with `extra` behind the rest of the data.
  abbrev pub Extends {ℓ} : {A : Type ℓ} → Run (A × List ℕ) → Run (A × List ℕ) → Type ℓ
  Extends {A = A} m m' = (a : A) (rest : List ℕ) → m ≡ done (a, rest) → m' ≡ done (a, rest ++ extra)

  done-Extends {ℓ} :
      {A : Type ℓ} (a : A) (rest : List ℕ) → Extends (done (a, rest)) (done (a, rest ++ extra))
  done-Extends a rest a' rest' h = cc h

  >>=-Extends {ℓ} :
      {A B : Type ℓ} (m m' : Run (A × List ℕ)) (f f' : A × List ℕ → Run (B × List ℕ))
      → Extends m m'
      → ((a : A) (rest : List ℕ) → Extends (f (a, rest)) (f' (a, rest ++ extra)))
      → Extends (m >>= f) (m' >>= f')
  >>=-Extends m m' f f' p q b rest h =
      let ((a, r), e, e') = >>=-eq-done m f h in rw (p a r e) (q a r b rest e')

  -- A step that reads no data.
  step-Extends {ℓ} :
      {C A : Type ℓ} (m : Run C) (f f' : C → Run (A × List ℕ))
      → ((c : C) → Extends (f c) (f' c))
      → Extends (m >>= f) (m >>= f')
  step-Extends m f f' q b rest h = let (c, e, e') = >>=-eq-done m f h in rw e (q c b rest e')

  create-Extends :
      (name : Option Text) (ty : Text) (v : DecodedValueType) (rest : List ℕ)
      → Extends (create name ty v rest) (create name ty v (rest ++ extra))
  create-Extends name ty v rest =
      step-Extends (simplify_type_name ty) _ _ (λ s. done-Extends _ rest)

  split_first-Extends :
      (input : List ℕ) → Extends (split_first input) (split_first (input ++ extra))
  split_first-Extends [] a rest h = cc
  split_first-Extends (x ∷ xs) a rest h = cc h

  -- Every call of `d` reads a prefix.
  abbrev pub DecodeExtends : Decode → Type 0
  DecodeExtends d =
      (ty : Text) (name : Option Text) (input : List ℕ)
      → Extends (d ty name input) (d ty name (input ++ extra))

  array_length-Extends :
      (ty : Text) (input : List ℕ)
      → Extends (array_length ty input) (array_length ty (input ++ extra))
  array_length-Extends ty input = elim (Option-cases (bracketed ty)) [
    | inr (t, e) ↦
        rw (e, array_length)
          (step-Extends (unwrap (get_elem? (split b';' t) 1)) _ _
            (λ size. step-Extends (lift (parse_usize (trim size))) _ _ (λ n. done-Extends n input)))
    | inl e ↦
        rw (e, array_length)
          (>>=-Extends (split_first input) _ _ _ (split_first-Extends input)
            (λ felt rest. step-Extends (lift (to_usize felt)) _ _ (λ n. done-Extends n rest)))
  ]

  decode_primitive-Extends :
      (ty : Text) (name : Option Text) (input : List ℕ)
      → Extends (decode_primitive ty name input) (decode_primitive ty name (input ++ extra))
  unfolding decode_primitive
  decode_primitive-Extends ty name input =
      >>=-Extends (split_first input) _ _ _ (split_first-Extends input)
        (λ felt rest. create-Extends name ty (single felt) rest)

  module _ (d : Decode) (more : DecodeExtends d) where
    decode_elements-Extends :
        (n : ℕ) (ty : Text) (input : List ℕ)
        → Extends (decode_elements d n ty input) (decode_elements d n ty (input ++ extra))
    unfolding decode_elements
    decode_elements-Extends zero ty input = done-Extends _ input
    decode_elements-Extends (suc n) ty input =
        >>=-Extends (d ty none input) _ _ _ (more ty none input) (λ v rest.
          >>=-Extends (decode_elements d n ty rest) _ _ _ (decode_elements-Extends n ty rest)
            (λ vs rest'. done-Extends _ rest'))

    decode_inners-Extends :
        (tys : List Text) (input : List ℕ)
        → Extends (decode_inners d tys input) (decode_inners d tys (input ++ extra))
    unfolding decode_inners
    decode_inners-Extends [] input = done-Extends _ input
    decode_inners-Extends (ty ∷ tys) input =
        >>=-Extends (d ty none input) _ _ _ (more ty none input) (λ v rest.
          >>=-Extends (decode_inners d tys rest) _ _ _ (decode_inners-Extends tys rest)
            (λ vs rest'. done-Extends _ rest'))

    decode_members-Extends :
        (index : ℕ) (ms : List StructMember) (input : List ℕ)
        → Extends (decode_members d index ms input) (decode_members d index ms (input ++ extra))
    unfolding decode_members
    decode_members-Extends index [] input = done-Extends _ input
    decode_members-Extends index (m ∷ ms) input =
        >>=-Extends (d m.ty (some m.name) input) _ _ _ (more m.ty (some m.name) input) (λ v rest.
          >>=-Extends (decode_members d (suc index) ms rest) _ _ _
            (decode_members-Extends (suc index) ms rest) (λ vs rest'. done-Extends _ rest'))

    decode_variant-Extends :
        (ty : Text) (name : Option Text) (variant : EnumVariant) (input : List ℕ)
        → Extends
            (decode_variant d ty name variant input)
            (decode_variant d ty name variant (input ++ extra))
    decode_variant-Extends ty name variant input = elim (Bool-cases (text_beq variant.ty [])) [
      | inl unit ↦ rw (unit, decode_variant) (done-Extends _ input)
      | inr data_variant ↦
          rw (data_variant, decode_variant)
            (>>=-Extends (d variant.ty none input) _ _ _ (more variant.ty none input) (λ v rest.
              step-Extends (simplify_type_name variant.ty) _ _ (λ s. done-Extends _ rest)))
    ]

    decode_kind-Extends :
        (structs : List Struct) (enums : List Enum) (e : EDataType) (ty : Text) (name : Option Text)
        (input : List ℕ)
        → Extends
            (decode_kind d structs enums e ty name input)
            (decode_kind d structs enums e ty name (input ++ extra))
    unfolding decode_kind
    decode_kind-Extends structs enums primitive ty name input =
        decode_primitive-Extends ty name input
    decode_kind-Extends structs enums EDataType.array ty name input =
        step-Extends (lift (element_type ty)) _ _ (λ t.
          >>=-Extends (array_length ty input) _ _ _ (array_length-Extends ty input) (λ n rest.
            step-Extends (guard (is_allocation_safe n)) _ _ (λ _.
              >>=-Extends (decode_elements d n t rest) _ _ _ (decode_elements-Extends n t rest)
                (λ vs rest'. create-Extends name ty _ rest'))))
    decode_kind-Extends structs enums (user_enum _) ty name input =
        >>=-Extends (split_first input) _ _ _ (split_first-Extends input) (λ felt rest.
          step-Extends (lift (to_usize felt)) _ _ (λ index.
            step-Extends (lift (find_enum ty enums)) _ _ (λ e.
              step-Extends (lift (get_elem? e.variants index)) _ _
                (λ v. decode_variant-Extends ty name v rest))))
    decode_kind-Extends structs enums (tuple inners) ty name input =
        >>=-Extends (decode_inners d inners input) _ _ _ (decode_inners-Extends inners input)
          (λ vs rest. create-Extends name ty _ rest)
    decode_kind-Extends structs enums (EDataType.struct _) ty name input =
        step-Extends (lift (find_struct ty structs)) _ _ (λ s.
          >>=-Extends (decode_members d 0 s.members input) _ _ _
            (decode_members-Extends 0 s.members input) (λ fs rest. create-Extends name ty _ rest))

    decode_all-Extends :
        (index : ℕ) (tys names : List Text) (input : List ℕ)
        → Extends
            (decode_all d index tys names input)
            (decode_all d index tys names (input ++ extra))
    unfolding decode_all
    decode_all-Extends index [] names input = done-Extends _ input
    decode_all-Extends index (ty ∷ tys) names input =
        >>=-Extends (d ty (get_elem? names index) input) _ _ _
          (more ty (get_elem? names index) input)
          (λ v rest.
            >>=-Extends (decode_all d (suc index) tys names rest) _ _ _
              (decode_all-Extends (suc index) tys names rest) (λ vs rest'. done-Extends _ rest'))

  pub decode_type-Extends :
      (n : ℕ) (structs : List Struct) (enums : List Enum)
      → DecodeExtends (decode_type n structs enums)
  unfolding decode_type
  decode_type-Extends zero structs enums ty name input a rest h = cc
  decode_type-Extends (suc n) structs enums ty name input a rest h =
      decode_kind-Extends (decode_type n structs enums) (decode_type-Extends n structs enums)
        structs enums (from_str ty enums) ty name input a rest h

is_empty-append : (rest : List ℕ) (x : ℕ) (extra : List ℕ) → is_empty (rest ++ x ∷ extra) ≡ false
is_empty-append [] x extra = refl
is_empty-append (y ∷ ys) x extra = refl

is_empty-nil : (rest : List ℕ) → guard (is_empty rest) ≡ done tt → rest ≡ []
is_empty-nil [] h = refl
is_empty-nil (x ∷ xs) h = cc

-- If the data decodes, then the same data with at least one felt more behind it is rejected: no
-- decodable calldata is a proper prefix of another for the same types.
pub decode_calldata-prefix_free :
    (n : ℕ) (input : List ℕ) (x : ℕ) (extra : List ℕ) (types names : List Text)
    (structs : List Struct) (enums : List Enum) {values : List DecodedValue}
    → decode_calldata n input types names structs enums ≡ done values
    → decode_calldata n (input ++ x ∷ extra) types names structs enums ≡ stop rejected
unfolding decode_calldata
decode_calldata-prefix_free n input x extra types names structs enums h =
    let d = decode_type n structs enums in
    let ((vs, rest), e, f) = >>=-eq-done (decode_all d 0 types names input) _ h in
    let (t, g, g') = >>=-eq-done (guard (is_empty rest)) (λ _. done vs) f in
    let grown =
      decode_all-Extends (x ∷ extra) d (decode_type-Extends (x ∷ extra) n structs enums) 0 types
        names input vs rest e in
    rw grown (rw (is_empty-append rest x extra))
