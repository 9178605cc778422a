-- ===== src/Shared/Version.antt =====
-- crates/walnut-shared/src/lib.rs: a version that is printed and parsed again.
use mathlib.Core.List.{reverse, append-nil}
use starkloupe_server.Common.{
  ℕ, zero, suc, ◌+◌, ◌*◌, ◌/◌, ◌%◌, ◌^◌, ◌≤◌, ◌<◌, Text, text_beq, codes, true, false, some, [],
  ◌∷◌, ◌++◌, ◌≡◌, refl, sym, ap, ◌∙◌, inl, inr, arith, All, ltb, leb, nat_beq, Bool-cases,
}
use starkloupe_server.Common.Texts.{
  split_from, split, decimal, drop_plus, decimal_digits, print_decimal, trim_start_matches,
  reverse-segment,
}
use starkloupe_server.Shared.{
  parse_u32, parse_parts, parse_version_string_to_tuple, tuple_to_version_string,
}

abbrev IsDigit : ℕ → Type 0
IsDigit c = (48 ≤ c) × (c ≤ 57)

decimal-digit :
    (k d : ℕ) (tail : Text) → d < 10 → decimal k ((48 + d) ∷ tail) ≡ decimal (k * 10 + d) tail
decimal-digit k d tail h =
    let above : leb 48 (48 + d) ≡ true = ground arith in
    let below : leb (48 + d) 57 ≡ true = ground arith in
    rw (above, below) (ap (λ i. decimal i tail) (omega arith))

-- With the digits that `decimal` reads it gets the number back.
decimal-decimal_digits :
    (fuel n : ℕ) (tail : Text) → n < fuel → decimal 0 (decimal_digits fuel n tail) ≡ decimal n tail
unfolding decimal_digits
decimal-decimal_digits zero n tail h = absurd (omega arith)
decimal-decimal_digits (suc fuel) n tail h = elim (Bool-cases (ltb n 10)) [
  | inl e ↦
      rw (e, decimal_digits)
        (decimal-digit 0 n tail (ground arith) ∙ ap (λ i. decimal i tail) (omega arith))
  | inr e ↦
      rw (e, decimal_digits)
        (decimal-decimal_digits fuel (n / 10) ((48 + n % 10) ∷ tail) (ground arith)
          ∙ decimal-digit (n / 10) (n % 10) tail (omega arith)
          ∙ ap (λ i. decimal i tail) (omega arith))
]

decimal_digits-IsDigit :
    (fuel n : ℕ) (tail : Text) → All IsDigit tail → All IsDigit (decimal_digits fuel n tail)
unfolding decimal_digits
decimal_digits-IsDigit zero n tail h = h
decimal_digits-IsDigit (suc fuel) n tail h = elim (Bool-cases (ltb n 10)) [
  | inl e ↦ rw (e, decimal_digits) ((omega arith, ground arith), h)
  | inr e ↦
      rw (e, decimal_digits)
        (decimal_digits-IsDigit fuel (n / 10) ((48 + n % 10) ∷ tail)
          ((omega arith, omega arith), h))
]

-- Digits, a first one among them.
abbrev IsNumber : Text → Type 0
IsNumber [] = ⊥
IsNumber (c ∷ s) = IsDigit c × All IsDigit s

decimal_digits-IsNumber :
    (fuel n : ℕ) (tail : Text) → n < fuel → All IsDigit tail → IsNumber (decimal_digits fuel n tail)
unfolding decimal_digits
decimal_digits-IsNumber zero n tail h d = absurd (omega arith)
decimal_digits-IsNumber (suc fuel) n tail h d = elim (Bool-cases (ltb n 10)) [
  | inl e ↦ rw (e, decimal_digits) ((omega arith, ground arith), d)
  | inr e ↦
      rw (e, decimal_digits)
        (decimal_digits-IsNumber fuel (n / 10) ((48 + n % 10) ∷ tail) (ground arith)
          ((omega arith, omega arith), d))
]

split_from-digits :
    (piece s rest : Text)
    → All IsDigit s
    → split_from b'.' piece (s ++ b'.' ∷ rest) ≡ (reverse piece ++ s) ∷ split_from b'.' [] rest
unfolding split_from
split_from-digits piece [] rest h =
    ap (λ p. p ∷ split_from b'.' [] rest) (sym (append-nil (reverse piece)))
split_from-digits piece (c ∷ s) rest h =
    let e : nat_beq c b'.' ≡ false = ground arith in
    rw (e, split_from)
      (split_from-digits (c ∷ piece) s rest (h.1)
        ∙ ap (λ p. p ∷ split_from b'.' [] rest) (reverse-segment c piece s))

split_from-last :
    (piece s : Text) → All IsDigit s → split_from b'.' piece s ≡ (reverse piece ++ s) ∷ []
unfolding split_from
split_from-last piece [] h = ap (λ p. p ∷ []) (sym (append-nil (reverse piece)))
split_from-last piece (c ∷ s) h =
    let e : nat_beq c b'.' ≡ false = ground arith in
    rw (e, split_from)
      (split_from-last (c ∷ piece) s (h.1) ∙ ap (λ p. p ∷ []) (reverse-segment c piece s))

print_decimal-IsNumber : (n : ℕ) → IsNumber (print_decimal n)
unfolding print_decimal
print_decimal-IsNumber n = decimal_digits-IsNumber (suc n) n [] (omega arith) tt

IsNumber-digits : (s : Text) → IsNumber s → All IsDigit s
IsNumber-digits [] h = absurd h
IsNumber-digits (c ∷ s) h = h

decimal-print_decimal : (n : ℕ) → decimal 0 (print_decimal n) ≡ some n
unfolding print_decimal
decimal-print_decimal n = decimal-decimal_digits (suc n) n [] (omega arith)

drop_plus-number : (s : Text) → IsNumber s → drop_plus s ≡ s
drop_plus-number [] h = refl
drop_plus-number (c ∷ s) h = let e : nat_beq c b'+' ≡ false = ground arith in rw e

nonempty-number : (s : Text) → IsNumber s → text_beq s [] ≡ false
nonempty-number [] h = absurd h
nonempty-number (c ∷ s) h = refl

trim_v-number :
    (s rest : Text) → IsNumber s → trim_start_matches (λ c. nat_beq c b'v') (s ++ rest) ≡ s ++ rest
trim_v-number [] rest h = absurd h
trim_v-number (c ∷ s) rest h = let e : nat_beq c b'v' ≡ false = ground arith in rw e

parse_u32-print_decimal : (n : ℕ) → n < 2 ^ 32 → parse_u32 (print_decimal n) ≡ some n
unfolding parse_u32
parse_u32-print_decimal n h =
    let number = print_decimal-IsNumber n in
    let value : decimal 0 (print_decimal n) ≡ some n = decimal-print_decimal n in
    let small : ltb n (2 ^ 32) ≡ true = ground arith in
    rw (
      drop_plus-number (print_decimal n) number,
      nonempty-number (print_decimal n) number,
      value,
      small,
      parse_u32,
    )

split-version :
    (a b c : Text)
    → All IsDigit a
    → All IsDigit b
    → All IsDigit c
    → split b'.' (a ++ (codes "." ++ (b ++ (codes "." ++ c)))) ≡ a ∷ b ∷ c ∷ []
unfolding split
split-version a b c ha hb hc =
    split_from-digits [] a (b ++ b'.' ∷ c) ha
    ∙ ap (λ t. a ∷ t) (split_from-digits [] b c hb ∙ ap (λ t. b ∷ t) (split_from-last [] c hc))

-- A version of three `u32` numbers that `tuple_to_version_string` prints is parsed to the same three
-- numbers by `parse_version_string_to_tuple`.
pub parse_version-print :
    (a b c : ℕ)
    → a < 2 ^ 32
    → b < 2 ^ 32
    → c < 2 ^ 32
    → parse_version_string_to_tuple (tuple_to_version_string (a, b, c)) ≡ some (a, b, c)
unfolding parse_version_string_to_tuple tuple_to_version_string
parse_version-print a b c ha hb hc =
    let na = print_decimal-IsNumber a in
    let nb = print_decimal-IsNumber b in
    let nc = print_decimal-IsNumber c in
    ap (λ s. parse_parts (split b'.' s)) (trim_v-number (print_decimal a) _ na)
    ∙ ap parse_parts (
        split-version (print_decimal a) (print_decimal b) (print_decimal c) (IsNumber-digits _ na)
          (IsNumber-digits _ nb) (IsNumber-digits _ nc))
    ∙ rw (parse_u32-print_decimal a ha, parse_u32-print_decimal b hb, parse_u32-print_decimal c hc)
