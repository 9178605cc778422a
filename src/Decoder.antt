-- ===== src/Decoder.antt =====
-- crates/data-decoder/src/calldata_decoder.rs and utils.rs. A run that stops `rejected` is the
-- source's `None`; `out_of_fuel` is a recursion deeper than the fuel, for which the source grows its
-- stack. `usize` is 64 bits wide.
pub mod Extends
pub mod Depth
pub mod Names
mod Samples
use starkloupe_server.Common.{
  ℕ, zero, suc, ◌*◌, ◌^◌, min, Text, Bool, true, false, not, Option, none, some, List, [], ◌∷◌,
  length, get_elem?, ltb, leb, text_beq, codes, if◌then◌else◌,
}
use starkloupe_server.Common.Run.{Run, done, stop, rejected, out_of_fuel, ◌>>=◌, ◌>>◌, lift, unwrap}
use starkloupe_server.Common.Texts.{strip_prefix, strip_suffix, ends_with, split, trim, parse_usize}
use starkloupe_server.Abi.{Struct, StructMember, Enum, EnumVariant}
use starkloupe_server.Values.{
  DecodedValue, decoded, DecodedValueType, string, single, array, struct, enum, Elements, nil, cons,
  Fields, end, field, value_of, create_decoded_value_by_type,
}
use starkloupe_server.Simplify.{simplify_type_name}
use starkloupe_server.DataType
use starkloupe_server.DataType.{
  EDataType, primitive, tuple, user_enum, from_str, or_else, strip_end, bracketed,
}

abbrev pub avg_size_per_element : ℕ
avg_size_per_element = 512

abbrev pub max_estimated_bytes : ℕ
max_estimated_bytes = 1024 * 1024 * 1024

abbrev pub usize_max : ℕ
usize_max = 0xffff_ffff_ffff_ffff

unfoldable pub is_allocation_safe : ℕ → Bool
is_allocation_safe array_length =
    not (ltb max_estimated_bytes (min usize_max (array_length * avg_size_per_element)))

abbrev pub guard : Bool → Run (Unit {0})
guard true = done tt
guard false = stop rejected

abbrev pub first : List Text → Option Text
first [] = none
first (t ∷ ts) = some t

-- The name of the element type, in the four spellings of an array type.
abbrev pub element_type : Text → Option Text
element_type ty = elim (strip_end (codes ">") (strip_prefix (codes "Array<") ty)) [
  | some t ↦ some t
  | none ↦ elim (strip_end (codes ">") (strip_prefix (codes "Span<") ty)) [
    | some t ↦ some t
    | none ↦
        if ends_with (codes "[]") ty then strip_suffix (codes "[]") ty else (elim (bracketed ty) [
          | none ↦ none
          | some t ↦ some (trim (DataType.unwrap_or [] (first (split b';' t))))
        ])
  ]
]

-- `split_first`
abbrev pub split_first : List ℕ → Run (ℕ × List ℕ)
split_first [] = stop rejected
split_first (x ∷ xs) = done (x, xs)

-- `Felt::to_usize`
abbrev pub to_usize : ℕ → Option ℕ
to_usize felt = if ltb felt (2 ^ 64) then some felt else none

-- The length of an array: written in a fixed size type, else the first felt of the data.
abbrev pub array_length : Text → List ℕ → Run (ℕ × List ℕ)
array_length ty input = elim (bracketed ty) [
  | some t ↦ do
    size ← unwrap (get_elem? (split b';' t) 1)
    n ← lift (parse_usize (trim size))
    done (n, input)
  | none ↦ do (felt, rest) ← split_first input; n ← lift (to_usize felt); done (n, rest)
]

abbrev pub find_struct : Text → List Struct → Option Struct
find_struct ty [] = none
find_struct ty (s ∷ ss) = if text_beq s.name ty then some s else find_struct ty ss

abbrev pub find_enum : Text → List Enum → Option Enum
find_enum ty [] = none
find_enum ty (e ∷ es) = if text_beq e.name ty then some e else find_enum ty es

-- `decode_type` of the parts of a type, as a function that the loops below call.
abbrev pub Decode : Type 0
Decode = Text → Option Text → List ℕ → Run (DecodedValue × List ℕ)

-- `for _ in 0..array_length`
unfoldable pub decode_elements : Decode → ℕ → Text → List ℕ → Run (Elements × List ℕ)
decode_elements decode zero ty input = done (nil, input)
decode_elements decode (suc n) ty input = do
  (v, rest) ← decode ty none input
  (vs, rest') ← decode_elements decode n ty rest
  done (cons (value_of v) vs, rest')

-- `for inner in inners`
unfoldable pub decode_inners : Decode → List Text → List ℕ → Run (Elements × List ℕ)
decode_inners decode [] input = done (nil, input)
decode_inners decode (ty ∷ tys) input = do
  (v, rest) ← decode ty none input
  (vs, rest') ← decode_inners decode tys rest
  done (cons (value_of v) vs, rest')

-- `for (index, member) in struct_def.members.iter().enumerate()`
unfoldable pub decode_members : Decode → ℕ → List StructMember → List ℕ → Run (Fields × List ℕ)
decode_members decode index [] input = done (end, input)
decode_members decode index (m ∷ ms) input = do
  (v, rest) ← decode m.ty (some m.name) input
  (fs, rest') ← decode_members decode (suc index) ms rest
  done (field index v fs, rest')

-- `create_decoded_value_by_type(name, &simplify_type_name(ty), value)`
abbrev pub create : Option Text → Text → DecodedValueType → List ℕ → Run (DecodedValue × List ℕ)
create name ty value rest = do
  simplified ← simplify_type_name ty
  done (create_decoded_value_by_type name simplified value, rest)

unfoldable pub decode_array : Decode → Text → Option Text → List ℕ → Run (DecodedValue × List ℕ)
unfolding decode_elements
decode_array decode ty name input = do
  inner ← lift (element_type ty)
  (n, rest) ← array_length ty input
  guard (is_allocation_safe n)
  (elements, rest') ← decode_elements decode n inner rest
  create name ty (array elements) rest'

-- The variant at the index that the data gives
abbrev pub decode_variant :
    Decode → Text → Option Text → EnumVariant → List ℕ → Run (DecodedValue × List ℕ)
decode_variant decode ty name variant input =
    if text_beq variant.ty []
    then done (
      decoded name ty
          (enum variant.name (decoded (some variant.name) (codes "string") (string variant.name))),
      input,
    )
    else do
      (v, rest) ← decode variant.ty none input
      variant_type ← simplify_type_name variant.ty
      done (
        decoded name ty (enum variant.name (decoded (some variant.name) variant_type (value_of v))),
        rest,
      )

unfoldable pub decode_enum :
    Decode → List Enum → Text → Option Text → List ℕ → Run (DecodedValue × List ℕ)
decode_enum decode enums ty name input = do
  (felt, rest) ← split_first input
  index ← lift (to_usize felt)
  enum_def ← lift (find_enum ty enums)
  variant ← lift (get_elem? enum_def.variants index)
  decode_variant decode ty name variant rest

unfoldable pub decode_tuple :
    Decode → List Text → Text → Option Text → List ℕ → Run (DecodedValue × List ℕ)
unfolding decode_inners
decode_tuple decode inners ty name input = do
  (elements, rest) ← decode_inners decode inners input
  create name ty (array elements) rest

unfoldable pub decode_struct :
    Decode → List Struct → Text → Option Text → List ℕ → Run (DecodedValue × List ℕ)
unfolding decode_members
decode_struct decode structs ty name input = do
  struct_def ← lift (find_struct ty structs)
  (fields, rest) ← decode_members decode 0 struct_def.members input
  create name ty (struct fields) rest

unfoldable pub decode_primitive : Text → Option Text → List ℕ → Run (DecodedValue × List ℕ)
decode_primitive ty name input = do
  (felt, rest) ← split_first input
  create name ty (single felt) rest

-- `match etype`
unfoldable pub decode_kind :
    Decode
    → List Struct
    → List Enum
    → EDataType
    → Text
    → Option Text
    → List ℕ
    → Run (DecodedValue × List ℕ)
unfolding decode_primitive decode_array decode_enum decode_tuple decode_struct
decode_kind decode structs enums primitive ty name input = decode_primitive ty name input
decode_kind decode structs enums EDataType.array ty name input = decode_array decode ty name input
decode_kind decode structs enums (user_enum _) ty name input =
    decode_enum decode enums ty name input
decode_kind decode structs enums (tuple inners) ty name input =
    decode_tuple decode inners ty name input
decode_kind decode structs enums (EDataType.struct _) ty name input =
    decode_struct decode structs ty name input

unfoldable pub decode_type :
    ℕ → List Struct → List Enum → Text → Option Text → List ℕ → Run (DecodedValue × List ℕ)
unfolding decode_kind
decode_type zero structs enums ty name input = stop out_of_fuel
decode_type (suc fuel) structs enums ty name input =
    decode_kind (decode_type fuel structs enums) structs enums (from_str ty enums) ty name input

-- The loop over the types; `names` is read by the index of the type.
unfoldable pub decode_all :
    Decode → ℕ → List Text → List Text → List ℕ → Run (List DecodedValue × List ℕ)
decode_all decode index [] names input = done ([], input)
decode_all decode index (ty ∷ tys) names input = do
  (v, rest) ← decode ty (get_elem? names index) input
  (vs, rest') ← decode_all decode (suc index) tys names rest
  done (v ∷ vs, rest')

abbrev pub is_empty : List ℕ → Bool
is_empty [] = true
is_empty (x ∷ xs) = false

unfoldable pub decode_calldata :
    ℕ → List ℕ → List Text → List Text → List Struct → List Enum → Run (List DecodedValue)
unfolding decode_all
decode_calldata fuel input types names structs enums = do
  (result, rest) ← decode_all (decode_type fuel structs enums) 0 types names input
  guard (is_empty rest)
  done result
