-- ===== src/Values/Samples.antt =====
-- Concrete limbs and signed felts, and the results at them.
use starkloupe_server.Common.{ℕ, ◌≡◌, arith, codes, none, [], ◌∷◌}
use starkloupe_server.Values.{decoded, big_uint, create_decoded_value_by_type, limbs}
use starkloupe_server.Values.Wide.{u256_struct, u512_struct, limb, split-join_u256, split-join_u512}

split-join_u256_example :
    (v : ℕ) × (create_decoded_value_by_type none
        (codes "u256")
        (u256_struct (limb none (codes "u128") 5) (limb none (codes "u128") 6))
      ≡ decoded none (codes "u256") (big_uint v))
    × (limbs v (codes "u256") ≡ 5 ∷ 6 ∷ [])
split-join_u256_example =
    split-join_u256 none none none (codes "u128") (codes "u128") 5 6 (omega arith)

split-join_u512_example :
    (v : ℕ) × (create_decoded_value_by_type none (codes "u512") (
        u512_struct
          (limb none (codes "u128") 5)
          (limb none (codes "u128") 6)
          (limb none (codes "u128") 7)
          (limb none (codes "u128") 8))
      ≡ decoded none (codes "u512") (big_uint v))
    × (limbs v (codes "u512") ≡ 5 ∷ 6 ∷ 7 ∷ 8 ∷ [])
split-join_u512_example =
    split-join_u512 none none none none none (codes "u128") (codes "u128") (codes "u128")
      (codes "u128") 5 6 7 8 (omega arith) (omega arith) (omega arith)
