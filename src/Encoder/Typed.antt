-- ===== src/Encoder/Typed.antt =====
-- The encoding of a value after `create_decoded_value_by_type` has given it a type.
use starkloupe_server.Common.{
  ℕ, zero, suc, ◌+◌, ◌^◌, ◌<◌, ◌≡◌, ◌∙◌, ap, refl, arith, All-map_weaken, All, not, nat_beq, Text,
  Bool-cases, inl, inr, true, false, Option, [], ◌∷◌, ◌++◌, codes, contains, text_beq, text_beq_iff,
  text_eq,
}
use starkloupe_server.Common.Int.{negsuc}
use starkloupe_server.Common.Maps.{Map}
use starkloupe_server.Common.Run.{done}
use starkloupe_server.Common.Texts.{format_hex, hex_digits}
use starkloupe_server.Abi.{Enum}
use starkloupe_server.Values.{
  big_int, decoded, single, create_decoded_value_by_type, signed_types, unsigned_types, stark_prime,
  limbs, split_into_limbs, map_hex, single_by_type,
}
use starkloupe_server.Values.Wide.{
  create_decoded_value_by_type-signed, split-join_u256, split-join_u512, u256_struct, u512_struct,
  limb,
}
use starkloupe_server.Encoder.{encode_bool, encode_value, encode_decoded_value}

hex_bool : (felt : ℕ) → felt < 2 → encode_bool (not (nat_beq felt 0)) ≡ format_hex felt
unfolding format_hex hex_digits
hex_bool zero h = refl
hex_bool (suc zero) h = refl
hex_bool (suc (suc n)) h = absurd (omega arith)

not_wide :
    (ty t : Text)
    → contains t unsigned_types ≡ false
    → contains ty unsigned_types ≡ true
    → text_beq ty t ≡ false
not_wide ty t h u = ground (arith, text_beq_iff ty t)

split-narrow :
    (ty : Text) (n : ℕ)
    → contains ty unsigned_types ≡ true
    → split_into_limbs n ty ≡ format_hex n ∷ []
unfolding split_into_limbs limbs
split-narrow ty n u =
    rw (not_wide ty (codes "u256") refl u, not_wide ty (codes "u512") refl u, limbs) refl

-- A single felt that is given a type which is no signed integer, and which is 0 or 1 where the type
-- is `bool`, is encoded as that felt.
pub encode-create_single :
    (enums : Map Text Enum) (name : Option Text) (ty : Text) (felt : ℕ)
    → contains ty signed_types ≡ false
    → (ty ≡ codes "bool" → felt < 2)
    → encode_decoded_value enums (create_decoded_value_by_type name ty (single felt))
      ≡ done (format_hex felt ∷ [])
unfolding encode_value create_decoded_value_by_type
encode-create_single enums name ty felt unsigned small =
    elim (Bool-cases (text_beq ty (codes "bool"))) [
      | inl e ↦
          rw (e, single_by_type)
            (ap (λ t. done (t ∷ [])) (hex_bool felt (small ((text_beq_iff ty (codes "bool")).0 e))))
      | inr ne ↦ elim (Bool-cases (contains ty unsigned_types)) [
        | inl u ↦ rw (ne, u, single_by_type) (ap (λ t. done t) (split-narrow ty felt u))
        | inr nu ↦ rw (ne, nu, unsigned, single_by_type) refl
      ]
    ]

-- A `u256` struct or a `u512` struct of limbs is encoded, once the decoder has joined it to one
-- number, as its limbs in order, where all but the last are below 2^128.
pub encode-create_wide :
    (enums : Map Text Enum) (name n0 n1 n2 n3 : Option Text) (t0 t1 t2 t3 : Text) (l0 l1 l2 l3 : ℕ)
    → l0 < 2 ^ 128
    → l1 < 2 ^ 128
    → l2 < 2 ^ 128
    → (encode_decoded_value enums (
          create_decoded_value_by_type name
            (codes "u256")
            (u256_struct (limb n0 t0 l0) (limb n1 t1 l3)))
        ≡ done (format_hex l0 ∷ format_hex l3 ∷ []))
      × (encode_decoded_value enums (
            create_decoded_value_by_type name
              (codes "u512")
              (u512_struct (limb n0 t0 l0) (limb n1 t1 l1) (limb n2 t2 l2) (limb n3 t3 l3)))
          ≡ done (format_hex l0 ∷ format_hex l1 ∷ format_hex l2 ∷ format_hex l3 ∷ []))
unfolding encode_value split_into_limbs
encode-create_wide enums name n0 n1 n2 n3 t0 t1 t2 t3 l0 l1 l2 l3 h0 h1 h2 =
    let (v, e, s) = split-join_u256 name n0 n1 t0 t1 l0 l3 h0 in
    let (w, e', s') = split-join_u512 name n0 n1 n2 n3 t0 t1 t2 t3 l0 l1 l2 l3 h0 h1 h2 in
    (
      ap (encode_decoded_value enums) e ∙ ap (λ ls. done (map_hex ls)) s,
      ap (encode_decoded_value enums) e' ∙ ap (λ ls. done (map_hex ls)) s',
    )

-- For every signed type, a felt below the Stark prime that the decoder has given the type is
-- encoded with a sign between the prefix `0x` and the digits, so not as the felt.
pub encode-create_signed :
    (enums : Map Text Enum) (name : Option Text) (felt k : ℕ)
    → felt + suc k ≡ stark_prime
    → All
        (λ ty.
          encode_decoded_value enums (create_decoded_value_by_type name ty (single felt))
          ≡ done ((codes "0x-" ++ hex_digits (suc (suc k)) (suc k) []) ∷ []))
        signed_types
unfolding encode_value
encode-create_signed enums name felt k h =
    All-map_weaken
      (λ ty.
        create_decoded_value_by_type name ty (single felt) ≡ decoded name ty (big_int (negsuc k)))
      (λ ty.
        encode_decoded_value enums (create_decoded_value_by_type name ty (single felt))
        ≡ done ((codes "0x-" ++ hex_digits (suc (suc k)) (suc k) []) ∷ []))
      (λ ty e. ap (encode_decoded_value enums) e) signed_types
      (create_decoded_value_by_type-signed name felt k h)
