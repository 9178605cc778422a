-- ===== src/Encoder.antt =====
-- crates/server/src/calldata_encoder.rs: decoded values back to calldata, as hexadecimal texts. A
-- run that stops `rejected` is the source's `Err`, whose message is left out; the fetch of the ABIs
-- is left out, and the results of the fetches are arguments.
pub mod TypeNames
pub mod Typed
pub mod Tuple
pub mod Calls
mod Samples
use mathlib.Core.List.{reverse}
use starkloupe_server.Common.{
  ℕ, zero, suc, Text, Bool, true, false, not, ◌&&◌, ◌||◌, Option, none, some, List, [], ◌∷◌, ◌++◌,
  get_elem?, length, nat_beq, text_beq, text_eq, codes, leb, if◌then◌else◌,
}
use starkloupe_server.Common.Int.{ℤ, pos, negsuc}
use starkloupe_server.Common.Maps.{Map, get}
use starkloupe_server.Common.Texts.{
  strip_prefix, strip_suffix, starts_with, has_substring, split_once, first_or, trim, format_hex,
  hex_digits,
}
use starkloupe_server.Common.Run.{Run, done, stop, rejected, ◌>>=◌, lift}
use starkloupe_server.Abi.{Enum, EnumVariant, Function, StructMember}
use starkloupe_server.Simplify.{simplify_type_name}
use starkloupe_server.Values.{
  DecodedValue, decoded, DecodedValueType, string, single, big_uint, big_int, bool, array, struct,
  enum, null, Elements, nil, cons, Fields, end, field, split_into_limbs, type_name_of, value_of,
}
use starkloupe_server.Encoder.TypeNames.{parse_tuple_types, extract_generic_inner, split_path}

-- `variants.iter().position(|v| v.name == name)`
abbrev pub position : Text → List EnumVariant → Option ℕ
position name [] = none
position name (v ∷ vs) =
    let rest = position name vs in
    if text_beq v.name name then some 0 else elim rest [ none ↦ none | some i ↦ some (suc i) ]

abbrev pub is_ascii_hexdigit : ℕ → Bool
is_ascii_hexdigit c =
    leb b'0' c && leb c b'9' || leb b'a' c && leb c b'f' || leb b'A' c && leb c b'F'

abbrev pub all_hexdigits : Text → Bool
all_hexdigits [] = true
all_hexdigits (c ∷ s) = is_ascii_hexdigit c && all_hexdigits s

-- `format!("0x{:x}", n)` of a `BigInt`: the sign stands between the prefix and the digits.
abbrev pub format_hex_int : ℤ → Text
format_hex_int (pos n) = format_hex n
format_hex_int (negsuc n) = codes "0x-" ++ hex_digits (suc (suc n)) (suc n) []

abbrev pub find_variant : Map Text Enum → Text → Text → Run ℕ
find_variant enums enum_name variant = do
  enum_def ← lift (get enum_name enums)
  lift (position variant enum_def.variants)

-- The branch of a string: the index of a variant, if the enum is known, else the string itself
unfoldable pub encode_string : Map Text Enum → Text → Text → Run (List Text)
encode_string enums ty s =
    if has_substring (codes "::") ty || not (starts_with (codes "0x") s) && not (all_hexdigits s)
    then (elim (get (first_or ty (split_path ty)) enums) [
      | none ↦ done (s ∷ [])
      | some enum_def ↦ do i ← lift (position s enum_def.variants); done (format_hex i ∷ [])
    ])
    else done (s ∷ [])

abbrev pub encode_bool : Bool → Text
encode_bool b = if b then codes "0x1" else codes "0x0"

abbrev pub is_tuple : Text → Bool
is_tuple ty = starts_with (codes "(") ty || starts_with (codes "Tuple<") ty

abbrev pub stripped : Text → Text → Text → Text
stripped prefix suffix ty = elim (strip_prefix prefix ty) [
  | none ↦ []
  | some s ↦ elim (strip_suffix suffix s) [ none ↦ [] | some inner ↦ inner ]
]

abbrev pub tuple_inner : Text → Text
tuple_inner ty =
    if starts_with (codes "Tuple<") ty
    then stripped (codes "Tuple<") (codes ">") ty
    else stripped (codes "(") (codes ")") ty

abbrev pub or_empty : Option Text → Text
or_empty none = []
or_empty (some t) = t

abbrev pub or_unknown : Option Text → Text
or_unknown none = codes "unknown"
or_unknown (some t) = t

abbrev pub array_element_type : Text → Text
array_element_type ty =
    if starts_with (codes "Array<") ty || starts_with (codes "Span<") ty
    then or_unknown (extract_generic_inner ty)
    else codes "unknown"

abbrev pub count : Elements → ℕ
count nil = 0
count (cons v vs) = suc (count vs)

unfoldable mutual
  -- `encode_decoded_value` of a value with its type name
  pub encode_value : Map Text Enum → Text → DecodedValueType → Run (List Text)
  encode_value enums ty (string s) = encode_string enums ty s
  encode_value enums ty (single felt) = done (format_hex felt ∷ [])
  encode_value enums ty (big_uint n) = done (split_into_limbs n ty)
  encode_value enums ty (big_int n) = done (format_hex_int n ∷ [])
  encode_value enums ty (bool b) = done (encode_bool b ∷ [])
  encode_value enums ty (array items) =
      let as_tuple = encode_tuple_items enums (parse_tuple_types (tuple_inner ty)) 0 items in
      let as_array = encode_items enums (array_element_type ty) items in
      if is_tuple ty
      then as_tuple
      else do calldata ← as_array; done (format_hex (count items) ∷ calldata)
  encode_value enums ty (struct fields) = encode_fields enums fields
  encode_value enums ty (enum variant (decoded name inner_ty inner)) = do
    i ← find_variant enums (first_or (codes "unknown") (split_path ty)) variant
    calldata ← encode_value enums inner_ty inner
    done (format_hex i ∷ calldata)
  encode_value enums ty null = done []

  pub encode_tuple_items : Map Text Enum → List Text → ℕ → Elements → Run (List Text)
  encode_tuple_items enums types i nil = done []
  encode_tuple_items enums types i (cons item items) = do
    calldata ← encode_value enums (or_unknown (get_elem? types i)) item
    rest ← encode_tuple_items enums types (suc i) items
    done (calldata ++ rest)

  pub encode_items : Map Text Enum → Text → Elements → Run (List Text)
  encode_items enums ty nil = done []
  encode_items enums ty (cons item items) = do
    calldata ← encode_value enums ty item
    rest ← encode_items enums ty items
    done (calldata ++ rest)

  pub encode_fields : Map Text Enum → Fields → Run (List Text)
  encode_fields enums end = done []
  encode_fields enums (field index (decoded name ty value) fields) = do
    calldata ← encode_value enums ty value
    rest ← encode_fields enums fields
    done (calldata ++ rest)

abbrev pub encode_decoded_value : Map Text Enum → DecodedValue → Run (List Text)
encode_decoded_value enums (decoded name ty value) = encode_value enums ty value

abbrev pub is_enum_variant : Text → Bool
is_enum_variant type_name =
    has_substring (codes "::") type_name && nat_beq (length (split_path type_name)) 2

abbrev pub last_or : Text → List Text → Text
last_or d [] = d
last_or d (t ∷ ts) = last_or t ts

-- The payload of an enum variant; the type of a number is the last part of the type name.
abbrev pub encode_payload : Map Text Enum → Text → DecodedValueType → Run (List Text)
encode_payload enums ty (string s) = done []
encode_payload enums ty (single felt) = done (format_hex felt ∷ [])
encode_payload enums ty (big_uint n) = done (split_into_limbs n (last_or [] (split_path ty)))
encode_payload enums ty (big_int n) = done (format_hex_int n ∷ [])
encode_payload enums ty (bool b) = done (encode_bool b ∷ [])
encode_payload enums ty (array items) = encode_items enums (codes "unknown") items
encode_payload enums ty (struct fields) = encode_fields enums fields
encode_payload enums ty (enum variant inner) = encode_decoded_value enums inner
encode_payload enums ty null = done []

unfoldable pub encode_enum_variant : Map Text Enum → DecodedValue → Run (List Text)
encode_enum_variant enums (decoded name ty value) = elim (split_path ty) [
  | enum_name ∷ variant_name ∷ [] ↦ do
    i ← find_variant enums enum_name variant_name
    calldata ← encode_payload enums ty value
    done (format_hex i ∷ calldata)
  | _ ↦ stop rejected
]

abbrev pub input_type : Option StructMember → Text → Text
input_type none ty = ty
input_type (some input) ty = input.ty

unfoldable pub encode_parameter :
    Option StructMember → Map Text Enum → DecodedValue → Run (List Text)
encode_parameter input enums (decoded name ty value) =
    if is_enum_variant ty then encode_enum_variant enums (decoded name ty value) else do
      simplified ← simplify_type_name (input_type input ty)
      encode_value enums simplified value

unfoldable pub encode_parameters_with_abi :
    List DecodedValue → ℕ → List StructMember → Map Text Enum → Run (List Text)
encode_parameters_with_abi [] i function_inputs enums = done []
encode_parameters_with_abi (param ∷ parameters) i function_inputs enums = do
  calldata ← encode_parameter (get_elem? function_inputs i) enums param
  rest ← encode_parameters_with_abi parameters (suc i) function_inputs enums
  done (calldata ++ rest)
