-- ===== src/Values/Wide.antt =====
-- The limbs of a wide integer and the integer joined from them: masks are remainders, and a shift
-- with a disjoint or is a sum.
use Prim.Native.Nat.{bit_and, bit_or, digits, bit_and-bitwise, bit_or-bitwise}
use native.Mathlib.Nat.{
  pow-suc, zero-mod, mod-lt, mod-add-div, add-mul-mod_self_left, mod-eq_of_lt, mul_right_comm,
  mul_assoc,
}
use starkloupe_server.Common.{
  ℕ, zero, suc, ◌+◌, ◌-◌, ◌*◌, ◌/◌, ◌%◌, ◌^◌, ◌≤◌, ◌<◌, ◌≡◌, ◌∙◌, All, Option, Text, ap, sym, refl,
  arith, min, max, codes, [], ◌∷◌,
}
use starkloupe_server.Common.Int.{negsuc, sub_ℕ}
use starkloupe_server.Values.{
  limbs, join_u256, join_u512, DecodedValue, decoded, DecodedValueType, struct, single, big_uint,
  big_int, signed_types, stark_prime, end, field, create_decoded_value_by_type,
}

pow_pos : (k : ℕ) → 1 ≤ 2 ^ k
pow_pos zero = omega arith
pow_pos (suc k) = omega (arith, pow_pos k, pow-suc 2 k)

-- One binary digit of a remainder
mod_digit : (a p : ℕ) → 1 ≤ p → a % (p * 2) ≡ (a / 2) % p * 2 + a % 2
mod_digit a p h =
    let s = (a / 2) % p * 2 + a % 2 in
    let lt : s < p * 2 = omega (arith, mod-lt (a / 2) {m = p} h) in
    let split : a ≡ s + p * 2 * (a / 2 / p) =
      omega (arith, mod-add-div (a / 2) p, mul_right_comm p 2 (a / 2 / p)) in
    ap (λ n. n % (p * 2)) split ∙ add-mul-mod_self_left s (p * 2) (a / 2 / p) ∙ mod-eq_of_lt lt

and_zero : (n a : ℕ) → digits (λ b. zero) min n a 0 ≡ 0
and_zero zero a = refl
and_zero (suc n) zero = refl
and_zero (suc n) (suc a) = omega (arith, and_zero n (suc a / 2))

and_mask : (k n a : ℕ) → a ≤ n → digits (λ b. zero) min n a (2 ^ k - 1) ≡ a % 2 ^ k
and_mask zero n a h = omega (arith, and_zero n a)
and_mask (suc k) zero a h = omega (arith, zero-mod (2 ^ suc k))
and_mask (suc k) (suc n) zero h = omega (arith, zero-mod (2 ^ suc k))
and_mask (suc k) (suc n) (suc a) h =
    let half : (2 ^ suc k - 1) / 2 ≡ 2 ^ k - 1 = omega (arith, pow-suc 2 k, pow_pos k) in
    let digit : (2 ^ suc k - 1) % 2 ≡ 1 = omega (arith, pow-suc 2 k, pow_pos k) in
    omega (
      arith,
      digit,
      ap (λ b. digits (λ b. zero) min n (suc a / 2) b) half,
      ap (λ q. suc a % q) (pow-suc 2 k),
      mod_digit (suc a) (2 ^ k) (pow_pos k),
      and_mask k n (suc a / 2) (omega arith),
    )

or_zero : (n a : ℕ) → a ≤ n → digits (λ b. b) max n a 0 ≡ a
or_zero zero a h = omega arith
or_zero (suc n) zero h = refl
or_zero (suc n) (suc a) h = omega (arith, or_zero n (suc a / 2) (omega arith))

or_disjoint :
    (k n a h l : ℕ) → a ≡ h * 2 ^ k → l < 2 ^ k → a ≤ n → digits (λ b. b) max n a l ≡ a + l
or_disjoint zero n a h zero e lt le = omega (arith, or_zero n a le)
or_disjoint zero n a h (suc l) e lt le = omega arith
or_disjoint (suc k) zero a h l e lt le = omega arith
or_disjoint (suc k) (suc n) zero h l e lt le = omega arith
or_disjoint (suc k) (suc n) (suc a) h l e lt le =
    let half : suc a ≡ h * 2 ^ k * 2 =
      e ∙ ap (λ q. h * q) (pow-suc 2 k) ∙ sym (mul_assoc h (2 ^ k) 2) in
    omega (
      arith,
      pow-suc 2 k,
      or_disjoint k n (suc a / 2) h (l / 2) (omega arith) (omega (arith, pow-suc 2 k))
          (omega arith),
    )

pub bit_and-mask : (k a : ℕ) → bit_and a (2 ^ k - 1) ≡ a % 2 ^ k
bit_and-mask k a = bit_and-bitwise a (2 ^ k - 1) ∙ and_mask k a a (omega arith)

pub bit_or-shifted : (k h l : ℕ) → l < 2 ^ k → bit_or (h * 2 ^ k) l ≡ h * 2 ^ k + l
bit_or-shifted k h l lt =
    bit_or-bitwise (h * 2 ^ k) l ∙ or_disjoint k (h * 2 ^ k) (h * 2 ^ k) h l refl lt (omega arith)

abbrev limb_size : ℕ
limb_size = 2 ^ 128

join_u256-sum : (low high : ℕ) → low < limb_size → join_u256 low high ≡ high * limb_size + low
join_u256-sum low high h = bit_or-shifted 128 high low h

join_u512-sum :
    (l0 l1 l2 l3 : ℕ)
    → l0 < limb_size
    → l1 < limb_size
    → l2 < limb_size
    → join_u512 l0 l1 l2 l3 ≡ l3 * 2 ^ 384 + l2 * 2 ^ 256 + l1 * limb_size + l0
join_u512-sum l0 l1 l2 l3 h0 h1 h2 =
    let x = bit_or-shifted 384 l3 (l2 * 2 ^ 256) (omega arith) in
    let y = bit_or-shifted 256 (l3 * limb_size + l2) (l1 * 2 ^ 128) (omega arith) in
    let z = bit_or-shifted 128 ((l3 * limb_size + l2) * limb_size + l1) l0 h0 in
    let p : l3 * 2 ^ 384 + l2 * 2 ^ 256 ≡ (l3 * limb_size + l2) * 2 ^ 256 = omega arith in
    let q : (l3 * limb_size + l2) * 2 ^ 256 + l1 * 2 ^ 128
        ≡ ((l3 * limb_size + l2) * limb_size + l1) * 2 ^ 128 =
      omega arith in
    ap (λ t. bit_or (bit_or t (l1 * 2 ^ 128)) l0) (x ∙ p)
    ∙ ap (λ t. bit_or t l0) (y ∙ q)
    ∙ z
    ∙ omega arith

limbs-u256 : (v : ℕ) → limbs v (codes "u256") ≡ v % limb_size ∷ v / limb_size ∷ []
unfolding limbs
limbs-u256 v = ap (λ t. t ∷ v / limb_size ∷ []) (bit_and-mask 128 v)

limbs-u512 :
    (v : ℕ)
    → limbs v (codes "u512")
      ≡ v % limb_size ∷ v / limb_size % limb_size ∷ v / 2 ^ 256 % limb_size ∷ v / 2 ^ 384 ∷ []
unfolding limbs
limbs-u512 v =
    rw (bit_and-mask 128 v, bit_and-mask 128 (v / limb_size), bit_and-mask 128 (v / 2 ^ 256)) refl

-- A struct of `u256` or `u512` whose members are decoded numbers
abbrev pub u256_struct : DecodedValue → DecodedValue → DecodedValueType
u256_struct low high = struct (field 0 low (field 1 high end))

abbrev pub u512_struct :
    DecodedValue → DecodedValue → DecodedValue → DecodedValue → DecodedValueType
u512_struct l0 l1 l2 l3 = struct (field 0 l0 (field 1 l1 (field 2 l2 (field 3 l3 end))))

abbrev pub limb : Option Text → Text → ℕ → DecodedValue
limb name ty n = decoded name ty (big_uint n)

-- For `low` below 2^128, the `u256` struct whose members hold `low` and `high` becomes one number,
-- and splitting that number into limbs gives `low` and `high` back.
pub split-join_u256 :
    (name n0 n1 : Option Text) (t0 t1 : Text) (low high : ℕ)
    → low < 2 ^ 128
    → (v : ℕ) × (create_decoded_value_by_type name
          (codes "u256")
          (u256_struct (limb n0 t0 low) (limb n1 t1 high))
        ≡ decoded name (codes "u256") (big_uint v))
      × (limbs v (codes "u256") ≡ low ∷ high ∷ [])
unfolding create_decoded_value_by_type
split-join_u256 name n0 n1 t0 t1 low high h =
    let v = high * limb_size + low in
    let l : v % limb_size ≡ low = omega arith in
    let u : v / limb_size ≡ high = omega arith in
    (
      v,
      ap (λ t. decoded name (codes "u256") (big_uint t)) (join_u256-sum low high h),
      limbs-u256 v ∙ rw (l, u) refl,
    )

-- For `l0`, `l1` and `l2` below 2^128, the `u512` struct whose members hold `l0` to `l3` becomes one
-- number, and splitting that number into limbs gives `l0` to `l3` back.
pub split-join_u512 :
    (name n0 n1 n2 n3 : Option Text) (t0 t1 t2 t3 : Text) (l0 l1 l2 l3 : ℕ)
    → l0 < 2 ^ 128
    → l1 < 2 ^ 128
    → l2 < 2 ^ 128
    → (v : ℕ) × (create_decoded_value_by_type name
          (codes "u512")
          (u512_struct (limb n0 t0 l0) (limb n1 t1 l1) (limb n2 t2 l2) (limb n3 t3 l3))
        ≡ decoded name (codes "u512") (big_uint v))
      × (limbs v (codes "u512") ≡ l0 ∷ l1 ∷ l2 ∷ l3 ∷ [])
unfolding create_decoded_value_by_type
split-join_u512 name n0 n1 n2 n3 t0 t1 t2 t3 l0 l1 l2 l3 h0 h1 h2 =
    let v = l3 * 2 ^ 384 + l2 * 2 ^ 256 + l1 * limb_size + l0 in
    let e0 : v % limb_size ≡ l0 = omega arith in
    let e1 : v / limb_size % limb_size ≡ l1 = omega arith in
    let e2 : v / 2 ^ 256 % limb_size ≡ l2 = omega arith in
    let e3 : v / 2 ^ 384 ≡ l3 = omega arith in
    (
      v,
      ap (λ t. decoded name (codes "u512") (big_uint t)) (join_u512-sum l0 l1 l2 l3 h0 h1 h2),
      limbs-u512 v ∙ rw (e0, e1, e2, e3) refl,
    )

sub_ℕ-below : (a b k : ℕ) → a + suc k ≡ b → sub_ℕ a b ≡ negsuc k
sub_ℕ-below a b k h = ground arith

-- For every signed type, a felt below the Stark prime becomes a negative integer: the felt `x`
-- becomes `x - P`, also where `x` is small.
pub create_decoded_value_by_type-signed :
    (name : Option Text) (felt k : ℕ)
    → felt + suc k ≡ stark_prime
    → All
        (λ ty.
          create_decoded_value_by_type name ty (single felt) ≡ decoded name ty (big_int (negsuc k)))
        signed_types
unfolding create_decoded_value_by_type
create_decoded_value_by_type-signed name felt k h =
    let e = sub_ℕ-below felt stark_prime k h in
    let f = λ (ty : Text). ap (λ n. decoded name ty (big_int n)) e in
    (
      f (codes "i128"),
      (f (codes "i64"), (f (codes "i32"), (f (codes "i16"), (f (codes "i8"), tt)))),
    )
