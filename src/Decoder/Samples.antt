-- ===== src/Decoder/Samples.antt =====
-- A call with a struct argument, and the results on decoding at it.
use starkloupe_server.Common.{map, some, ℕ, ◌≡◌, refl, Text, codes, true, none, List, [], ◌∷◌, ◌++◌}
use starkloupe_server.Common.Run.{done, stop, rejected, out_of_fuel, Ends}
use starkloupe_server.Common.Texts.{rsplit_path, split_once, split, trim, trim_matches, parse_usize}
use starkloupe_server.Simplify.{simplify_type_name, extract_last_segment}
use starkloupe_server.Simplify.Total.{simplify_type_name-Ends}
use starkloupe_server.Abi.{Struct}
use starkloupe_server.DataType.{struct, from_str}
use starkloupe_server.Values.{DecodedValue, create_decoded_value_by_type}
use starkloupe_server.Decoder.{decode_calldata, decode_type, is_allocation_safe}
use starkloupe_server.Decoder.Names.{name_of, decode_calldata-names}
use starkloupe_server.Decoder.Extends.{decode_calldata-prefix_free}
use starkloupe_server.Decoder.Depth.{
  all_types, expands_within, decode_calldata-Ends, decode_type-self_member,
}

abbrev point : Struct
point = record {
  name = codes "a::Point";
  members =
      record { name = codes "x"; ty = codes "u8" }
      ∷ record { name = codes "ys"; ty = codes "Array<u8>" }
      ∷ [];
}

abbrev types : List Text
types = codes "a::Point" ∷ codes "bool" ∷ []

abbrev names : List Text
names = codes "p" ∷ codes "flag" ∷ []

-- x = 5, ys = [7, 9], flag = 1
abbrev calldata : List ℕ
calldata = 5 ∷ 2 ∷ 7 ∷ 9 ∷ 1 ∷ []

abbrev node : Struct
node = record {
  name = codes "Node";
  members =
      record { name = codes "next"; ty = codes "Node" }
      ∷ record { name = codes "x"; ty = codes "u8" }
      ∷ [];
}

within : all_types (expands_within (point ∷ []) [] 3) types ≡ true
unfolding expands_within from_str rsplit_path split_once trim trim_matches
within = refl

result : List DecodedValue
unfolding decode_calldata decode_type from_str rsplit_path split_once split trim trim_matches
    parse_usize simplify_type_name extract_last_segment is_allocation_safe
    create_decoded_value_by_type
result = elim (decode_calldata 3 calldata types names (point ∷ []) []) [
  | done vs ↦ vs
  | stop r ↦ []
]

decodes : decode_calldata 3 calldata types names (point ∷ []) [] ≡ done result
unfolding result
decodes = refl

is_struct : from_str (codes "Node") [] ≡ struct (codes "Node")
unfolding from_str rsplit_path split_once trim trim_matches
is_struct = refl

simplify_type_name-Ends_example : Ends (simplify_type_name (codes "a::B<c>"))
simplify_type_name-Ends_example = simplify_type_name-Ends (codes "a::B<c>")

decode_calldata-Ends_example : Ends (decode_calldata 3 calldata types names (point ∷ []) [])
decode_calldata-Ends_example = decode_calldata-Ends 3 calldata types names (point ∷ []) [] within

decode_calldata-prefix_free_example :
    decode_calldata 3 (calldata ++ 1 ∷ 4 ∷ []) types names (point ∷ []) [] ≡ stop rejected
decode_calldata-prefix_free_example =
    decode_calldata-prefix_free 3 calldata 1 (4 ∷ []) types names (point ∷ []) [] decodes

decode_type-self_member_example :
    decode_type 9 (node ∷ []) [] (codes "Node") none (1 ∷ 2 ∷ []) ≡ stop out_of_fuel
decode_type-self_member_example =
    decode_type-self_member 9 (node ∷ []) [] (codes "Node") none (1 ∷ 2 ∷ []) node
      (record { name = codes "x"; ty = codes "u8" } ∷ []) is_struct refl refl

decode_calldata-names_example : map name_of result ≡ some (codes "p") ∷ some (codes "flag") ∷ []
decode_calldata-names_example =
    decode_calldata-names 3 calldata types names (point ∷ []) [] result decodes
