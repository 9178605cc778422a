-- ===== src/Decoder/Names.antt =====
-- The names of the decoded values, and how many there are.
use starkloupe_server.Common.{
  ℕ, zero, suc, ◌≡◌, refl, sym, ap, ◌∙◌, Text, Bool-cases, inl, inr, Option, none, List, [], ◌∷◌,
  map, get_elem?, text_beq,
}
use starkloupe_server.Common.Run.{Run, done, ◌>>=◌, lift, >>=-eq-done}
use starkloupe_server.Abi.{Struct, Enum, EnumVariant}
use starkloupe_server.Values.{
  DecodedValue, decoded, DecodedValueType, create_decoded_value_by_type, single, array, struct,
}
use starkloupe_server.DataType.{EDataType, primitive, tuple, user_enum, from_str}
use starkloupe_server.Simplify.{simplify_type_name}
use starkloupe_server.Decoder.{
  Decode, decode_elements, decode_inners, decode_members, decode_variant, decode_kind, decode_type,
  decode_all, decode_calldata, guard, is_empty, element_type, array_length, is_allocation_safe,
  create, split_first, to_usize, find_enum, find_struct,
}

abbrev pub name_of : DecodedValue → Option Text
name_of (decoded name ty value) = name

-- The name at the position of each type, where there is one
abbrev pub names_at : ℕ → List Text → List Text → List (Option Text)
names_at index [] names = []
names_at index (ty ∷ tys) names = get_elem? names index ∷ names_at (suc index) tys names

-- A run keeps the name if every value it returns has it.
abbrev Named : Option Text → Run (DecodedValue × List ℕ) → Type 0
Named name m = (v : DecodedValue) (rest : List ℕ) → m ≡ done (v, rest) → name_of v ≡ name

>>=-Named {ℓ} :
    {A : Type ℓ} (name : Option Text) (m : Run A) (k : A → Run (DecodedValue × List ℕ))
    → ((a : A) → Named name (k a))
    → Named name (m >>= k)
>>=-Named name m k h v rest e = let (a, p, q) = >>=-eq-done m k e in h a v rest q

done_inj {ℓ} : {A : Type ℓ} {a b : A} → done a ≡ done b → a ≡ b
done_inj h = cc

done-Named :
    (name : Option Text) (v : DecodedValue) (rest : List ℕ)
    → name_of v ≡ name
    → Named name (done (v, rest))
done-Named name v rest h w rest' e = ap (λ p. name_of p.0) (sym (done_inj e)) ∙ h

create-Named :
    (name : Option Text) (ty : Text) (x : DecodedValueType) (rest : List ℕ)
    → Named name (create name ty x rest)
unfolding create_decoded_value_by_type
create-Named name ty x rest =
    >>=-Named name (simplify_type_name ty) _ (λ s. done-Named name _ rest refl)

decode_variant-Named :
    (d : Decode) (ty : Text) (name : Option Text) (variant : EnumVariant) (input : List ℕ)
    → Named name (decode_variant d ty name variant input)
decode_variant-Named d ty name variant input = elim (Bool-cases (text_beq variant.ty [])) [
  | inl e ↦ rw (e, decode_variant) (done-Named name _ input refl)
  | inr e ↦
      rw (e, decode_variant)
        (>>=-Named name (d variant.ty none input) _ (λ (w, rest).
          >>=-Named name (simplify_type_name variant.ty) _ (λ s. done-Named name _ rest refl)))
]

decode_kind-Named :
    (d : Decode) (structs : List Struct) (enums : List Enum) (e : EDataType) (ty : Text)
    (name : Option Text) (input : List ℕ)
    → Named name (decode_kind d structs enums e ty name input)
unfolding decode_kind
decode_kind-Named d structs enums primitive ty name input =
    >>=-Named name (split_first input) _ (λ (felt, rest). create-Named name ty (single felt) rest)
decode_kind-Named d structs enums EDataType.array ty name input =
    >>=-Named name (lift (element_type ty)) _ (λ t.
      >>=-Named name (array_length ty input) _ (λ (n, rest).
        >>=-Named name (guard (is_allocation_safe n)) _ (λ u.
          >>=-Named name (decode_elements d n t rest) _
            (λ (vs, rest'). create-Named name ty (array vs) rest'))))
decode_kind-Named d structs enums (user_enum t) ty name input =
    >>=-Named name (split_first input) _ (λ (felt, rest).
      >>=-Named name (lift (to_usize felt)) _ (λ index.
        >>=-Named name (lift (find_enum ty enums)) _ (λ e.
          >>=-Named name (lift (get_elem? e.variants index)) _
            (λ variant. decode_variant-Named d ty name variant rest))))
decode_kind-Named d structs enums (tuple inners) ty name input =
    >>=-Named name (decode_inners d inners input) _
      (λ (vs, rest). create-Named name ty (array vs) rest)
decode_kind-Named d structs enums (EDataType.struct t) ty name input =
    >>=-Named name (lift (find_struct ty structs)) _ (λ s.
      >>=-Named name (decode_members d 0 s.members input) _
        (λ (fs, rest). create-Named name ty (struct fs) rest))

decode_type-Named :
    (n : ℕ) (structs : List Struct) (enums : List Enum) (ty : Text) (name : Option Text)
    (input : List ℕ)
    → Named name (decode_type n structs enums ty name input)
unfolding decode_type
decode_type-Named zero structs enums ty name input v rest e = cc
decode_type-Named (suc n) structs enums ty name input v rest e =
    decode_kind-Named (decode_type n structs enums) structs enums (from_str ty enums) ty name input
      v rest e

decode_all-names :
    (n : ℕ) (structs : List Struct) (enums : List Enum) (index : ℕ) (tys names : List Text)
    (input : List ℕ) (vs : List DecodedValue) (rest : List ℕ)
    → decode_all (decode_type n structs enums) index tys names input ≡ done (vs, rest)
    → map name_of vs ≡ names_at index tys names
unfolding decode_all
decode_all-names n structs enums index [] names input vs rest h =
    ap (λ p. map name_of p.0) (sym (done_inj h))
decode_all-names n structs enums index (ty ∷ tys) names input vs rest h =
    let d = decode_type n structs enums in
    let ((v, rest₁), e, f) = >>=-eq-done (d ty (get_elem? names index) input) _ h in
    let ((ws, rest₂), e', f') = >>=-eq-done (decode_all d (suc index) tys names rest₁) _ f in
    ap (λ p. map name_of p.0) (sym (done_inj f'))
    ∙ ap (λ o. o ∷ map name_of ws)
        (decode_type-Named n structs enums ty (get_elem? names index) input v rest₁ e)
    ∙ ap (λ os. get_elem? names index ∷ os)
        (decode_all-names n structs enums (suc index) tys names rest₁ ws rest₂ e')

-- If the data decodes, then there is one value for every type, in order, and each has the name that
-- stands at the position of its type, or no name where there are fewer names.
pub decode_calldata-names :
    (n : ℕ) (input : List ℕ) (types names : List Text) (structs : List Struct) (enums : List Enum)
    (values : List DecodedValue)
    → decode_calldata n input types names structs enums ≡ done values
    → map name_of values ≡ names_at 0 types names
unfolding decode_calldata
decode_calldata-names n input types names structs enums values h =
    let d = decode_type n structs enums in
    let ((vs, rest), e, f) = >>=-eq-done (decode_all d 0 types names input) _ h in
    let (t, g, g') = >>=-eq-done (guard (is_empty rest)) (λ _. done vs) f in
    ap (map name_of) (sym (done_inj g'))
    ∙ decode_all-names n structs enums 0 types names input vs rest e
