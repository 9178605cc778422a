-- ===== src/EventDecoder/Samples.antt =====
-- Tests of crates/data-decoder/src/event_decoder.rs and its theorem at a concrete event.
use starkloupe_server.Common.{ℕ, zero, suc, codes, Option, none, some, [], ◌∷◌, ◌≡◌, refl, arith}
use starkloupe_server.Common.Texts.{rsplit_path, split_once, trim}
use starkloupe_server.Common.Run.{done, stop, panicked, Meets}
use starkloupe_server.Values.{
  decoded, single, array, struct, nil, cons, end, field, create_decoded_value_by_type,
}
use starkloupe_server.Simplify.{simplify_type_name, extract_last_segment}
use starkloupe_server.EventDecoder.{
  TypeId, type_arg, other_arg, TypeDeclaration, EventData, decode_event_datas,
  skip_builtin_type_declaration, struct_values, array_elements, decode_generic,
}
use starkloupe_server.EventDecoder.Index.{Between, ArgsBelow, decode_event_datas-Between}

-- Type 0 is a felt, type 1 an array of felts, type 2 a struct of both.
abbrev type_id : ℕ → TypeId
type_id n = record { id = n; debug_name = none }

abbrev declaration : ℕ → Option TypeDeclaration
declaration zero = some (record {
  debug_name = some (codes "felt252");
  generic_id = codes "felt252";
  generic_args = [];
})
declaration (suc zero) = some (record {
  debug_name = some (codes "Array<felt252>");
  generic_id = codes "Array";
  generic_args = type_arg (type_id 0) ∷ [];
})
declaration (suc (suc zero)) = some (record {
  debug_name = some (codes "a::S");
  generic_id = codes "Struct";
  generic_args = other_arg ∷ type_arg (type_id 1) ∷ type_arg (type_id 0) ∷ [];
})
declaration (suc (suc (suc n))) = none

abbrev event : EventData
event = record {
  declaration = λ t. declaration (TypeId.id t);
  values = 2 ∷ 7 ∷ 8 ∷ 9 ∷ [];
  capacity = 100;
}

decode_struct_event :
    decode_event_datas 9 event (type_id 2) 0
    ≡ done (
      some (
          decoded none (codes "S") (
            struct (
              field 1
                (decoded none
                  (codes "Array<felt252>")
                  (array (cons (single 7) (cons (single 8) nil))))
                (field 2 (decoded none (codes "felt252") (single 9)) end)))),
      4,
    )
unfolding decode_event_datas decode_generic struct_values array_elements
    skip_builtin_type_declaration create_decoded_value_by_type simplify_type_name
    extract_last_segment rsplit_path split_once trim
decode_struct_event = refl

-- A length past the capacity panics.
decode_long_array :
    decode_event_datas 9 (record event { values = 101 ∷ [] }) (type_id 1) 0 ≡ stop panicked
unfolding decode_event_datas decode_generic skip_builtin_type_declaration simplify_type_name
    extract_last_segment rsplit_path split_once trim
decode_long_array = refl

-- The arguments of a type have smaller numbers.
declaration-ArgsBelow : (n : ℕ) → ArgsBelow TypeId.id n (declaration n)
declaration-ArgsBelow zero = tt
declaration-ArgsBelow (suc zero) = (omega arith, tt)
declaration-ArgsBelow (suc (suc zero)) = (tt, (omega arith, (omega arith, tt)))
declaration-ArgsBelow (suc (suc (suc n))) = tt

decode_event_datas-Between_example :
    Meets (Between TypeId.id 0 4) (decode_event_datas 3 event (type_id 2) 0)
decode_event_datas-Between_example =
    decode_event_datas-Between TypeId.id 3 event (type_id 2) 0
      (λ a. declaration-ArgsBelow (TypeId.id a)) (omega arith) (omega arith)
