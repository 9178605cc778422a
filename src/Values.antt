-- ===== src/Values.antt =====
-- crates/data-decoder/src/lib.rs: decoded values, their construction by type, and the limbs of wide
-- integers. A felt is its representative below the Stark prime.
pub mod Wide
mod Samples
use Prim.Native.Nat.{bit_and, bit_or}
use starkloupe_server.Common.{
  ℕ, zero, suc, ◌+◌, ◌-◌, ◌*◌, ◌/◌, ◌^◌, Text, Bool, true, false, not, ◌&&◌, ◌||◌, Option, none,
  some, List, [], ◌∷◌, nat_beq, text_beq, codes, contains, text_eq, if◌then◌else◌,
}
use starkloupe_server.Common.Int.{ℤ, sub_ℕ}
use starkloupe_server.Common.Texts.{format_hex, starts_with, ends_with}

abbrev pub stark_prime : ℕ
stark_prime = 2 ^ 251 + 17 * 2 ^ 192 + 1

-- Arrays and the maps of struct fields are lists of their own. A field map is a `BTreeMap<usize, _>`
-- with its entries in the order of their keys.
mutual
  pub data DecodedValue : Type 0 where
    -- name, type_name, value
    decoded : Option Text → Text → DecodedValueType → DecodedValue

  pub data DecodedValueType : Type 0 where
    string : Text → DecodedValueType
    single : ℕ → DecodedValueType
    big_uint : ℕ → DecodedValueType
    big_int : ℤ → DecodedValueType
    bool : Bool → DecodedValueType
    array : Elements → DecodedValueType
    struct : Fields → DecodedValueType
    enum : Text → DecodedValue → DecodedValueType
    null : DecodedValueType

  pub data Elements : Type 0 where
    nil : Elements
    cons : DecodedValueType → Elements → Elements

  pub data Fields : Type 0 where
    end : Fields
    field : ℕ → DecodedValue → Fields → Fields

abbrev pub value_of : DecodedValue → DecodedValueType
value_of (decoded name type_name value) = value

abbrev pub type_name_of : DecodedValue → Text
type_name_of (decoded name type_name value) = type_name

abbrev pub first_kind : Elements → Text
first_kind nil = codes "array"
first_kind (cons (string s) r) = codes "array-string"
first_kind (cons (single f) r) = codes "array-primitive"
first_kind (cons (big_uint n) r) = codes "array-primitive"
first_kind (cons (big_int n) r) = codes "array-primitive"
first_kind (cons (bool b) r) = codes "array-boolean"
first_kind (cons (array xs) r) = codes "array-array"
first_kind (cons (struct fs) r) = codes "array-struct"
first_kind (cons (enum v x) r) = codes "array-enum"
first_kind (cons null r) = codes "array-null"

unfoldable pub get_type_string : DecodedValue → Text
get_type_string (decoded name ty (string s)) = codes "string"
get_type_string (decoded name ty (single f)) = codes "primitive"
get_type_string (decoded name ty (big_uint n)) = codes "primitive"
get_type_string (decoded name ty (big_int n)) = codes "primitive"
get_type_string (decoded name ty (bool b)) = codes "boolean"
get_type_string (decoded name ty (array xs)) =
    if starts_with (codes "(") ty && ends_with (codes ")") ty
    then codes "tuple"
    else if (starts_with (codes "Array<(") ty || starts_with (codes "Span<(") ty)
        && ends_with (codes ")>") ty
    then codes "array-tuple"
    else first_kind xs
get_type_string (decoded name ty (struct fs)) = codes "struct"
get_type_string (decoded name ty (enum v x)) = codes "enum"
get_type_string (decoded name ty null) = codes "null"

abbrev pub unsigned_types : List Text
unsigned_types = codes "u128" ∷ codes "u64" ∷ codes "u32" ∷ codes "u16" ∷ codes "u8" ∷ []

abbrev pub signed_types : List Text
signed_types = codes "i128" ∷ codes "i64" ∷ codes "i32" ∷ codes "i16" ∷ codes "i8" ∷ []

-- `values.get(&k)` as a `BigUint`
abbrev pub uint_of : DecodedValueType → Option ℕ
uint_of (big_uint n) = some n
uint_of v = none

abbrev pub uint_at : ℕ → Fields → Option ℕ
uint_at k end = none
uint_at k (field j v rest) = if nat_beq j k then uint_of (value_of v) else uint_at k rest

abbrev pub count_fields : Fields → ℕ
count_fields end = 0
count_fields (field j v rest) = suc (count_fields rest)

-- (high << 128) | low
abbrev pub join_u256 : ℕ → ℕ → ℕ
join_u256 low high = bit_or (high * 2 ^ 128) low

-- (limb3 << 384) | (limb2 << 256) | (limb1 << 128) | limb0
abbrev pub join_u512 : ℕ → ℕ → ℕ → ℕ → ℕ
join_u512 limb0 limb1 limb2 limb3 =
    bit_or (bit_or (bit_or (limb3 * 2 ^ 384) (limb2 * 2 ^ 256)) (limb1 * 2 ^ 128)) limb0

abbrev pub or_struct : Fields → Option ℕ → DecodedValueType
or_struct fs none = struct fs
or_struct fs (some n) = big_uint n

abbrev pub both : Option ℕ → Option ℕ → (ℕ → ℕ → ℕ) → Option ℕ
both none b f = none
both (some a) none f = none
both (some a) (some b) f = some (f a b)

abbrev pub single_by_type : Text → ℕ → DecodedValueType
single_by_type ty felt =
    if text_beq ty (codes "bool")
    then bool (not (nat_beq felt 0))
    else if contains ty unsigned_types
    then big_uint felt
    else if contains ty signed_types
    then big_int (sub_ℕ felt stark_prime)
    else single felt

abbrev pub limbs_u512 : Fields → Option ℕ
limbs_u512 fs = elim (both (uint_at 0 fs) (uint_at 1 fs) (λ a b. a)) [
  | none ↦ none
  | some limb0 ↦ elim (both (uint_at 1 fs) (uint_at 2 fs) (λ a b. a)) [
    | none ↦ none
    | some limb1 ↦
        both (uint_at 2 fs) (uint_at 3 fs) (λ limb2 limb3. join_u512 limb0 limb1 limb2 limb3)
  ]
]

abbrev pub struct_by_type : Text → Fields → DecodedValueType
struct_by_type ty fs =
    if text_beq ty (codes "u256") && nat_beq (count_fields fs) 2
    then or_struct fs (both (uint_at 0 fs) (uint_at 1 fs) join_u256)
    else if text_beq ty (codes "u512") && nat_beq (count_fields fs) 4
    then or_struct fs (limbs_u512 fs)
    else struct fs

abbrev pub by_type : Text → DecodedValueType → DecodedValueType
by_type ty (single felt) = single_by_type ty felt
by_type ty (struct fs) = struct_by_type ty fs
by_type ty (string s) = string s
by_type ty (big_uint n) = big_uint n
by_type ty (big_int n) = big_int n
by_type ty (bool b) = bool b
by_type ty (array xs) = array xs
by_type ty (enum v x) = enum v x
by_type ty null = null

unfoldable pub create_decoded_value_by_type : Option Text → Text → DecodedValueType → DecodedValue
create_decoded_value_by_type name ty value = decoded name ty (by_type ty value)

-- The limbs as numbers: value & mask, (value >> 128) & mask, and so on; the last limb is not masked.
unfoldable pub limbs : ℕ → Text → List ℕ
limbs value ty =
    let mask = 2 ^ 128 - 1 in
    if text_beq ty (codes "u256")
    then bit_and value mask ∷ (value / 2 ^ 128) ∷ []
    else if text_beq ty (codes "u512")
    then bit_and value mask
      ∷ bit_and (value / 2 ^ 128) mask
      ∷ bit_and (value / 2 ^ 256) mask
      ∷ (value / 2 ^ 384)
      ∷ []
    else value ∷ []

abbrev pub map_hex : List ℕ → List Text
map_hex [] = []
map_hex (n ∷ ns) = format_hex n ∷ map_hex ns

unfoldable pub split_into_limbs : ℕ → Text → List Text
unfolding limbs
split_into_limbs value ty = map_hex (limbs value ty)
