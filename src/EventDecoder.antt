-- ===== src/EventDecoder.antt =====
-- crates/data-decoder/src/event_decoder.rs and the set of skipped types of constants.rs and utils.rs:
-- the felts of an event decoded by the Sierra type of the event. What the source returns is an
-- `Option` next to the data index, which also moves where nothing is decoded. The recursion runs on
-- fuel; the sum of `usize` wraps. The capacity that `Vec::with_capacity` allows is an argument.
pub mod Index
pub mod Samples
use starkloupe_server.Common.{
  ℕ, zero, suc, ◌+◌, ◌%◌, ◌^◌, Text, text_eq, text_beq, codes, contains, Bool, true, false, ◌&&◌,
  Option, none, some, List, [], ◌∷◌, ltb, get_elem?, if◌then◌else◌,
}
use starkloupe_server.Common.Texts.{starts_with, ends_with, split_once}
use starkloupe_server.Common.Run.{Run, done, stop, panicked, out_of_fuel, ◌>>=◌}
use starkloupe_server.Values.{
  DecodedValue, DecodedValueType, single, array, struct, enum, Elements, nil, cons, Fields, end,
  field, value_of, create_decoded_value_by_type,
}
use starkloupe_server.Simplify.{simplify_type_name}
use starkloupe_server.Decoder.{to_usize}

abbrev pub skip_builtin_types : List Text
skip_builtin_types =
    codes "Const"
    ∷ codes "Step"
    ∷ codes "Hole"
    ∷ codes "GasBuiltin"
    ∷ codes "Bitwise"
    ∷ codes "BuiltinCosts"
    ∷ codes "EcOp"
    ∷ codes "RangeCheck"
    ∷ codes "SegmentArena"
    ∷ codes "Poseidon"
    ∷ codes "Pedersen"
    ∷ codes "RangeCheck96"
    ∷ codes "CircuitAdd"
    ∷ codes "CircuitMul"
    ∷ codes "Gas"
    ∷ codes "System"
    ∷ codes "()"
    ∷ codes "ContractState"
    ∷ codes "ComponentState"
    ∷ []

abbrev pub base_name : Text → Option (Text × Text) → Text
base_name ty none = ty
base_name ty (some (name, rest)) = name

unfoldable pub skip_builtin_type_declaration : Text → Bool
skip_builtin_type_declaration ty = contains (base_name ty (split_once b'<' ty)) skip_builtin_types

-- What the code reads of Sierra's `ConcreteTypeId`.
pub record TypeId : Type 0 where
  pub id : ℕ
  pub debug_name : Option Text

-- `GenericArg::Type`, or another argument.
pub data GenericArg : Type 0 where
  type_arg : TypeId → GenericArg
  other_arg : GenericArg

pub record TypeDeclaration : Type 0 where
  pub debug_name : Option Text
  pub generic_id : Text
  pub generic_args : List GenericArg

-- What decoding gives: a value if there is one, and the data index.
abbrev pub Decoding : Type 0
Decoding = Run (Option DecodedValue × ℕ)

-- `decode_event_datas` of a nested type, from a data index
abbrev pub DecodeNested : Type 0
DecodeNested = TypeId → ℕ → Decoding

abbrev pub type_at : List GenericArg → ℕ → Option GenericArg
type_at = get_elem?

-- The first felt of a type without arguments.
abbrev pub decode_single : Text → Option ℕ → ℕ → Decoding
decode_single name none index = done (none, index)
decode_single name (some value) index =
    done (some (create_decoded_value_by_type none name (single value)), suc index)

abbrev pub decode_type_arg : DecodeNested → Option GenericArg → ℕ → Decoding
decode_type_arg decode (some (type_arg id)) index = decode id index
decode_type_arg decode (some other_arg) index = done (none, index)
decode_type_arg decode none index = done (none, index)

-- Changes the value, if there is one.
abbrev pub on_value :
    (DecodedValue → DecodedValue) → Option DecodedValue × ℕ → Option DecodedValue × ℕ
on_value f (none, index) = (none, index)
on_value f (some v, index) = (some (f v), index)

-- `unwrap_or("")`
abbrev pub debug_name_or_empty : Option Text → Text
debug_name_or_empty none = []
debug_name_or_empty (some t) = t

abbrev pub is_unit : TypeId → Bool
is_unit id = text_beq (debug_name_or_empty (TypeId.debug_name id)) (codes "Unit")

abbrev pub enum_value : Text → DecodedValue → DecodedValue
enum_value name v = create_decoded_value_by_type none name (enum name v)

-- The variant of the index, behind the felt that has been read.
abbrev pub decode_variant_type : DecodeNested → Text → ℕ → Option GenericArg → ℕ → Decoding
decode_variant_type decode name variant (some (type_arg id)) index = elim (is_unit id) [
  | true ↦ done (some (create_decoded_value_by_type none name (single variant)), suc index)
  | false ↦ do found ← decode id (suc index); done (on_value (enum_value name) found)
]
decode_variant_type decode name variant (some other_arg) index = done (none, index)
decode_variant_type decode name variant none index = done (none, index)

abbrev pub decode_enum_value : DecodeNested → Text → List GenericArg → Option ℕ → ℕ → Decoding
decode_enum_value decode name args none index = done (none, index)
decode_enum_value decode name args (some variant) index =
    decode_variant_type decode name variant (type_at args ((variant + 1) % 2 ^ 64)) index

abbrev pub decode_sierra_enum : DecodeNested → Text → List GenericArg → Option ℕ → ℕ → Decoding
decode_sierra_enum decode name args none index = done (none, index)
decode_sierra_enum decode name args (some value) index =
    decode_enum_value decode name args (to_usize value) index

abbrev pub span_value : Text → DecodedValue → DecodedValue
span_value name v = create_decoded_value_by_type none name (value_of v)

abbrev pub decode_span : DecodeNested → Text → List GenericArg → ℕ → Decoding
decode_span decode name args index = do
  found ← decode_type_arg decode (type_at args 1) index
  done (on_value (span_value name) found)

abbrev pub push_element : Option DecodedValue → Elements × ℕ → Elements × ℕ
push_element none rest = rest
push_element (some v) (elements, index) = (cons (value_of v) elements, index)

-- The arguments that are types and decode to a value.
unfoldable pub tuple_elements : DecodeNested → List GenericArg → ℕ → Run (Elements × ℕ)
tuple_elements decode [] index = done (nil, index)
tuple_elements decode (arg ∷ rest) index = do
  found ← decode_type_arg decode (some arg) index
  others ← tuple_elements decode rest (found.1)
  done (push_element (found.0) others)

abbrev pub tuple_value : Text → Elements × ℕ → Option DecodedValue × ℕ
tuple_value name (nil, index) = (none, index)
tuple_value name (cons v vs, index) =
    (some (create_decoded_value_by_type none name (array (cons v vs))), index)

abbrev pub decode_sierra_tuple : DecodeNested → Text → List GenericArg → ℕ → Decoding
decode_sierra_tuple decode name args index = do
  elements ← tuple_elements decode args index
  done (tuple_value name elements)

abbrev pub insert_decoded : ℕ → Option DecodedValue → Fields × ℕ → Fields × ℕ
insert_decoded i none rest = rest
insert_decoded i (some v) (fields, index) = (field i v fields, index)

-- The fields by the position of their argument.
unfoldable pub struct_values : DecodeNested → ℕ → List GenericArg → ℕ → Run (Fields × ℕ)
struct_values decode i [] index = done (end, index)
struct_values decode i (arg ∷ rest) index = do
  found ← decode_type_arg decode (some arg) index
  others ← struct_values decode (suc i) rest (found.1)
  done (insert_decoded i (found.0) others)

abbrev pub struct_value : Text → Fields × ℕ → Option DecodedValue × ℕ
struct_value name (end, index) = (none, index)
struct_value name (field i v fs, index) =
    (some (create_decoded_value_by_type none name (struct (field i v fs))), index)

abbrev pub decode_standard_struct : DecodeNested → Text → List GenericArg → ℕ → Decoding
decode_standard_struct decode name args index = do
  fields ← struct_values decode 0 args index
  done (struct_value name fields)

abbrev pub decode_struct_named : DecodeNested → List GenericArg → ℕ → Text → Decoding
decode_struct_named decode args index name = elim (starts_with (codes "Span<") name) [
  | true ↦ decode_span decode name args index
  | false ↦ elim (starts_with (codes "(") name && ends_with (codes ")") name) [
    | true ↦ decode_sierra_tuple decode name args index
    | false ↦ decode_standard_struct decode name args index
  ]
]

abbrev pub decode_sierra_struct : DecodeNested → Text → List GenericArg → ℕ → Decoding
decode_sierra_struct decode name args index = do
  simplified ← simplify_type_name name
  decode_struct_named decode args index simplified

abbrev pub push_all : DecodedValue → Option Elements × ℕ → Option Elements × ℕ
push_all v (none, i) = (none, i)
push_all v (some vs, i) = (some (cons (value_of v) vs), i)

-- The loop over the elements: none that fails, or else all of them.
abbrev pub next_element :
    (ℕ → Run (Option Elements × ℕ)) → Option DecodedValue × ℕ → Run (Option Elements × ℕ)
next_element rest (none, index) = done (none, index)
next_element rest (some v, index) = do others ← rest index; done (push_all v others)

unfoldable pub array_elements : DecodeNested → TypeId → ℕ → ℕ → Run (Option Elements × ℕ)
array_elements decode id zero index = done (some nil, index)
array_elements decode id (suc n) index = do
  found ← decode id index
  next_element (array_elements decode id n) found

abbrev pub elements_of : DecodeNested → Option GenericArg → ℕ → ℕ → Run (Option Elements × ℕ)
elements_of decode (some (type_arg id)) n index = array_elements decode id n index
elements_of decode (some other_arg) n index = done (some nil, index)
elements_of decode none n index = done (some nil, index)

abbrev pub array_value : Text → Option Elements × ℕ → Option DecodedValue × ℕ
array_value name (none, index) = (none, index)
array_value name (some vs, index) =
    (some (create_decoded_value_by_type none name (array vs)), index)

-- The length has been read at the index; `Vec::with_capacity` panics past the capacity.
abbrev pub decode_array_of : ℕ → DecodeNested → Text → List GenericArg → Option ℕ → ℕ → Decoding
decode_array_of capacity decode name args none index = done (none, index)
decode_array_of capacity decode name args (some n) index = elim (ltb capacity n) [
  | true ↦ stop panicked
  | false ↦ do
    elements ← elements_of decode (type_at args 0) n (suc index)
    done (array_value name elements)
]

abbrev pub decode_sierra_array : ℕ → DecodeNested → Text → List GenericArg → Option ℕ → ℕ → Decoding
decode_sierra_array capacity decode name args none index = done (none, index)
decode_sierra_array capacity decode name args (some felt) index =
    decode_array_of capacity decode name args (to_usize felt) index

-- The declared types, the felts of the event, and how many elements a vector can have.
pub record EventData : Type 0 where
  pub declaration : TypeId → Option TypeDeclaration
  pub values : List ℕ
  pub capacity : ℕ

-- The type by its generic id; a snapshot and `NonZero` are what they are of.
unfoldable pub decode_generic :
    EventData → DecodeNested → Text → Text → List GenericArg → ℕ → Decoding
decode_generic event decode generic name args index =
    let felt = get_elem? (EventData.values event) index in
    let as_enum = decode_sierra_enum decode name args felt index in
    let as_struct = decode_sierra_struct decode name args index in
    let as_array = decode_sierra_array (EventData.capacity event) decode name args felt index in
    let inner = decode_type_arg decode (type_at args 0) index in
    if text_beq generic (codes "Enum")
    then as_enum
    else if text_beq generic (codes "Struct")
    then as_struct
    else if text_beq generic (codes "Array")
    then as_array
    else if text_beq generic (codes "Snapshot")
    then inner
    else if text_beq generic (codes "NonZero")
    then inner
    else done (none, index)

abbrev pub decode_by_args : EventData → DecodeNested → Text → Text → List GenericArg → ℕ → Decoding
decode_by_args event decode generic name [] index =
    decode_single name (get_elem? (EventData.values event) index) index
decode_by_args event decode generic name (arg ∷ args) index =
    decode_generic event decode generic name (arg ∷ args) index

-- A builtin type, or an event without felts.
abbrev pub is_skipped : Text → List ℕ → Bool
is_skipped name [] = true
is_skipped name (v ∷ vs) = skip_builtin_type_declaration name

abbrev pub decode_declared : EventData → DecodeNested → Option TypeDeclaration → ℕ → Decoding
decode_declared event decode none index = done (none, index)
decode_declared event decode (some d) index = do
  name ← simplify_type_name (debug_name_or_empty (TypeDeclaration.debug_name d))
  (if is_skipped name (EventData.values event)
      then done (none, index)
      else decode_by_args event decode (TypeDeclaration.generic_id d) name
          (TypeDeclaration.generic_args d) index)

unfoldable pub decode_event_datas : ℕ → EventData → TypeId → ℕ → Decoding
unfolding decode_generic
decode_event_datas zero event id index = stop out_of_fuel
decode_event_datas (suc fuel) event id index =
    decode_declared event (decode_event_datas fuel event) (EventData.declaration event id) index
