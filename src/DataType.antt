-- ===== src/DataType.antt =====
-- crates/data-decoder/src/starknet_types.rs: the classification of type names. The boxed element
-- type of `Array` is left out: `decode_type` never reads it.
use starkloupe_server.Common.{
  ℕ, Text, Bool, false, ◌&&◌, ◌||◌, Option, none, some, List, [], ◌∷◌, map, nat_beq, text_beq,
  codes, contains, text_eq, if◌then◌else◌,
}
use starkloupe_server.Common.Texts.{
  strip_prefix, strip_suffix, starts_with, ends_with, is_some, split_once, split, rsplit_path,
  first_or, is_whitespace, trim_matches,
}
use starkloupe_server.Abi.{Enum}

pub data EDataType : Type 0 where
  primitive : EDataType
  array : EDataType
  struct : Text → EDataType
  tuple : List Text → EDataType
  user_enum : Text → EDataType

-- The names of `EPrimitiveType`.
abbrev pub primitive_types : List Text
primitive_types =
    codes "u8"
    ∷ codes "u16"
    ∷ codes "u32"
    ∷ codes "u64"
    ∷ codes "u128"
    ∷ codes "usize"
    ∷ codes "i8"
    ∷ codes "i16"
    ∷ codes "i32"
    ∷ codes "i64"
    ∷ codes "i128"
    ∷ codes "bool"
    ∷ codes "felt"
    ∷ codes "felt252"
    ∷ codes "ContractAddress"
    ∷ codes "EthAddress"
    ∷ codes "ClassHash"
    ∷ codes "bytes31"
    ∷ codes "Panic"
    ∷ []

-- `EPrimitiveType::from_str(s).is_some()`
unfoldable pub is_primitive : Text → Bool
is_primitive s = contains (first_or s (rsplit_path s)) primitive_types

abbrev pub or_else : Option Text → Option Text → Option Text
or_else none b = b
or_else (some a) b = some a

abbrev pub strip_end : Text → Option Text → Option Text
strip_end p none = none
strip_end p (some s) = strip_suffix p s

-- The element type between `Array<` or `Span<` and `>`
abbrev pub generic_element : Text → Option Text
generic_element s =
    strip_end (codes ">")
      (or_else (strip_prefix (codes "Array<") s) (strip_prefix (codes "Span<") s))

-- What stands between `[` and `]`
abbrev pub bracketed : Text → Option Text
bracketed s = strip_end (codes "]") (strip_prefix (codes "[") s)

abbrev pub has_length : Option Text → Bool
has_length none = false
has_length (some s) = is_some (split_once b';' s)

abbrev pub close_tuple : Option Text → Option Text
close_tuple none = none
close_tuple (some s) = or_else (strip_suffix (codes ">") s) (strip_suffix (codes ")") s)

abbrev pub unwrap_or : Text → Option Text → Text
unwrap_or d none = d
unwrap_or d (some s) = s

abbrev pub is_space_or_quote : ℕ → Bool
is_space_or_quote c = is_whitespace c || nat_beq c b'"'

unfoldable pub extract_inner_types : Text → List Text
extract_inner_types s = map (trim_matches is_space_or_quote) (
    split b',' (
      unwrap_or s
        (close_tuple (or_else (strip_prefix (codes "Tuple<") s) (strip_prefix (codes "(") s)))))

abbrev pub names_enum : Text → List Enum → Bool
names_enum s [] = false
names_enum s (e ∷ es) = text_beq e.name s || names_enum s es

unfoldable pub from_str : Text → List Enum → EDataType
unfolding is_primitive extract_inner_types
from_str s enums =
    if is_primitive s
    then primitive
    else if is_some (generic_element s) || has_length (bracketed s)
    then array
    else if starts_with (codes "Tuple") s || starts_with (codes "(") s && ends_with (codes ")") s
    then tuple (extract_inner_types s)
    else if names_enum s enums
    then user_enum s
    else struct s
