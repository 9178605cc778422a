-- ===== src/Encoder/TypeNames.antt =====
-- crates/server/src/calldata_encoder.rs: how the encoder takes type names apart.
use mathlib.Core.List.{reverse}
use starkloupe_server.Common.{
  ℕ, Text, true, false, ◌&&◌, Option, none, some, List, [], ◌∷◌, nat_beq, text_beq, text_eq,
  if◌then◌else◌,
}
use starkloupe_server.Common.Int.{ℤ, pos, incr, decr, is_zero}
use starkloupe_server.Common.Texts.{split_once, trim}

abbrev pub push_segment : Text → List Text → List Text
push_segment segment types =
    let segment' = trim segment in if text_beq segment' [] then types else segment' ∷ types

-- The loop of `parse_tuple_types`, with the segment that is being read, reversed
unfoldable pub tuple_types_from : ℤ → ℤ → Text → Text → List Text
tuple_types_from paren angle segment [] = push_segment (reverse segment) []
tuple_types_from paren angle segment (c ∷ s) = elim (nat_beq c b'(') [
  | true ↦ tuple_types_from (incr paren) angle (c ∷ segment) s
  | false ↦ elim (nat_beq c b')') [
    | true ↦ tuple_types_from (decr paren) angle (c ∷ segment) s
    | false ↦ elim (nat_beq c b'<') [
      | true ↦ tuple_types_from paren (incr angle) (c ∷ segment) s
      | false ↦ elim (nat_beq c b'>') [
        | true ↦ tuple_types_from paren (decr angle) (c ∷ segment) s
        | false ↦ elim (nat_beq c b',' && (is_zero paren && is_zero angle)) [
          | true ↦ push_segment (reverse segment) (tuple_types_from paren angle [] s)
          | false ↦ tuple_types_from paren angle (c ∷ segment) s
        ]
      ]
    ]
  ]
]

unfoldable pub parse_tuple_types : Text → List Text
unfolding tuple_types_from
parse_tuple_types tuple_inner = tuple_types_from (pos 0) (pos 0) [] tuple_inner

-- The text before the last occurrence of `d`
abbrev pub before_last : ℕ → Text → Option Text
before_last d s = elim (split_once d (reverse s)) [
  | none ↦ none
  | some parts ↦ some (reverse parts.1)
]

abbrev pub nonempty : Option Text → Option Text
nonempty none = none
nonempty (some []) = none
nonempty (some (c ∷ s)) = some (c ∷ s)

-- What stands between the first `<` and the last `>` behind it, if that is not empty
abbrev pub extract_generic_inner : Text → Option Text
extract_generic_inner type_name = elim (split_once b'<' type_name) [
  | none ↦ none
  | some parts ↦ nonempty (before_last b'>' parts.1)
]

-- `split("::")`, with the piece that is being read, reversed
unfoldable pub path_from : Text → Text → List Text
path_from piece [] = reverse piece ∷ []
path_from piece (c ∷ []) = reverse (c ∷ piece) ∷ []
path_from piece (c ∷ d ∷ s) = elim (nat_beq c b':' && nat_beq d b':') [
  | true ↦ reverse piece ∷ path_from [] s
  | false ↦ path_from (c ∷ piece) (d ∷ s)
]

unfoldable pub split_path : Text → List Text
unfolding path_from
split_path s = path_from [] s
