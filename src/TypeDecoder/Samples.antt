-- ===== src/TypeDecoder/Samples.antt =====
-- Tests of crates/data-decoder/src/type_decoder.rs and the theorems at concrete ABIs.
use starkloupe_server.Common.{Text, text_eq, codes, some, [], ◌∷◌, ◌≡◌, refl, arith}
use starkloupe_server.Common.Maps.{Map, get}
use starkloupe_server.Common.Texts.{print_decimal, trim, rsplit_path, split_once}
use starkloupe_server.Common.Run.{Meets, done, stop, panicked, Ends}
use starkloupe_server.Abi.{Struct, Enum}
use starkloupe_server.Simplify.{simplify_type_name, extract_last_segment}
use starkloupe_server.TypeDecoder.{
  member, absent, given, end, entry, TypeDecoder, get_complete_type_info, is_primitive_type,
  is_multi_limb_integer_struct, expand_struct, expand_members, expand_member, expand_new,
  expand_builtin,
}
use starkloupe_server.TypeDecoder.Bounds.{GoodInfo, get_complete_type_info-Bounded}
use starkloupe_server.TypeDecoder.Expand.{
  expand_structs_recursively, expand_enums_recursively, plain,
}
use starkloupe_server.TypeDecoder.Unvisited.{expand_recursively-Ends}
use starkloupe_server.TypeDecoder.Decode.{enhance_type_recursively}

-- A list node, which refers to itself, and a felt.
abbrev node : Struct
node = record {
  name = codes "Node";
  members =
      record { name = codes "next"; ty = codes "a::Node" }
      ∷ record { name = codes "v"; ty = codes "felt252" }
      ∷ [];
}

abbrev structs : Map Text Struct
structs = (codes "Node", node) ∷ []

abbrev enums : Map Text Enum
enums = (codes "Empty", record { name = codes "Empty"; variants = [] }) ∷ []

abbrev decoder : TypeDecoder
decoder = record { struct_map = structs; enum_map = enums }

print_decimal_example : print_decimal 120 ≡ codes "120"
unfolding print_decimal
print_decimal_example = refl

enhance_nested :
    enhance_type_recursively 9 (codes "core::array::Span::<a::Option::<b::Node>>")
    ≡ done (codes "Span<Option<Node>>")
unfolding enhance_type_recursively rsplit_path split_once trim extract_last_segment
    simplify_type_name
enhance_nested = refl

-- The member that refers to its own type is marked.
expand_node :
    get_complete_type_info 7 decoder 0 (codes "Node") []
    ≡ done (
      (
        given (
            entry
              (member (codes "next") (codes "a::Node") absent absent (some (codes "Node")))
              (entry (plain (codes "v", codes "felt252")) end)),
        absent,
      ),
      codes "Node" ∷ [],
    )
unfolding get_complete_type_info expand_new expand_struct expand_members expand_member
    is_primitive_type is_multi_limb_integer_struct simplify_type_name extract_last_segment
    rsplit_path split_once trim get
expand_node = refl

-- The slice between the brackets panics when the closing one comes first.
expand_reversed : get_complete_type_info 7 decoder 0 (codes "a>b<") [] ≡ stop panicked
unfolding get_complete_type_info expand_new expand_builtin is_primitive_type split_once get
expand_reversed = refl

get_complete_type_info-Bounded_example :
    Meets (GoodInfo 5) (get_complete_type_info 7 decoder 1 (codes "Node") (codes "Empty" ∷ []))
unfolding is_primitive_type
get_complete_type_info-Bounded_example =
    get_complete_type_info-Bounded 7 decoder 1 (codes "Node") (codes "Empty" ∷ []) (omega arith)
      (omega arith) (refl, refl, tt)

expand_recursively-Ends_example :
    Ends (expand_structs_recursively 1 structs enums)
    × Ends (expand_enums_recursively 1 enums structs)
expand_recursively-Ends_example = expand_recursively-Ends structs enums
