-- ===== src/Encoder/Samples.antt =====
-- Concrete typed values, and the results on their encoding.
use starkloupe_server.Common.{suc, ◌-◌, ◌≡◌, refl, arith, All, codes, none, [], ◌∷◌, ◌++◌}
use starkloupe_server.Common.Run.{done}
use starkloupe_server.Common.Texts.{format_hex, hex_digits}
use starkloupe_server.Values.{single, create_decoded_value_by_type, signed_types, stark_prime}
use starkloupe_server.Values.Wide.{u256_struct, u512_struct, limb}
use starkloupe_server.Encoder.{encode_decoded_value}
use starkloupe_server.Encoder.TypeNames.{parse_tuple_types}
use starkloupe_server.Encoder.Tuple.{IsElement, closed_from, parse_tuple_types-join}
use starkloupe_server.Common.{Text, List}
use starkloupe_server.Common.Texts.{join, trim, trim_matches}
use starkloupe_server.Encoder.Typed.{encode-create_single, encode-create_wide, encode-create_signed}

encode-create_single_example :
    encode_decoded_value [] (create_decoded_value_by_type none (codes "u8") (single 255))
    ≡ done (format_hex 255 ∷ [])
encode-create_single_example =
    encode-create_single [] none (codes "u8") 255 refl (λ e. absurd (ground arith))

encode-create_wide_example :
    (encode_decoded_value [] (
        create_decoded_value_by_type none
          (codes "u256")
          (u256_struct (limb none (codes "u128") 5) (limb none (codes "u128") 8)))
      ≡ done (format_hex 5 ∷ format_hex 8 ∷ []))
    × (encode_decoded_value [] (
          create_decoded_value_by_type none (codes "u512") (
            u512_struct
              (limb none (codes "u128") 5)
              (limb none (codes "u128") 6)
              (limb none (codes "u128") 7)
              (limb none (codes "u128") 8)))
        ≡ done (format_hex 5 ∷ format_hex 6 ∷ format_hex 7 ∷ format_hex 8 ∷ []))
encode-create_wide_example =
    encode-create_wide [] none none none none none (codes "u128") (codes "u128") (codes "u128")
      (codes "u128") 5 6 7 8 (omega arith) (omega arith) (omega arith)

encode-create_signed_example :
    All
      (λ ty.
        encode_decoded_value [] (create_decoded_value_by_type none ty (single 5))
        ≡ done (
            (codes "0x-" ++ hex_digits (suc (suc (stark_prime - 6))) (suc (stark_prime - 6)) [])
            ∷ []))
      signed_types
encode-create_signed_example = encode-create_signed [] none 5 (stark_prime - 6) (omega arith)

abbrev element_types : List Text
element_types = codes "u8" ∷ codes "(u8, Array<u16>)" ∷ []

elements : All IsElement element_types
unfolding closed_from trim trim_matches
elements = ((refl, refl, refl), ((refl, refl, refl), tt))

parse_tuple_types-join_example : parse_tuple_types (join (codes ", ") element_types) ≡ element_types
parse_tuple_types-join_example = parse_tuple_types-join element_types elements
