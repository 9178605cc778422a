-- ===== src/Simplify/Total.antt =====
-- The recursion of `simplify_type_name` is bounded by the length of the type name.
use mathlib.Core.List.{reverse, reverse_aux}
use starkloupe_server.Common.{
  ℕ, zero, suc, ◌+◌, ◌≤◌, ◌<◌, ◌≡◌, Text, ◌&&◌, some, List, [], ◌∷◌, length, nat_beq, text_beq,
  codes, if◌then◌else◌, arith, Bool-cases, Option-cases, inl, inr,
}
use starkloupe_server.Common.Texts.{strip_prefix, strip_suffix, split_once}
use starkloupe_server.Common.Run.{Run, done, >>=-eq-done, Ends, >>=-Ends, done-Ends}
use starkloupe_server.Simplify.{
  drop_last, fixed_array_parts, fixed_array_name, strip_both, inner_content, split_types, assemble,
  simplify_single, simplify, simplify_type_name,
}

length-reverse_aux {ℓ} :
    {A : Type ℓ} (xs ys : List A) → length (reverse_aux xs ys) ≡ length xs + length ys
length-reverse_aux [] ys = omega arith
length-reverse_aux (x ∷ xs) ys = omega (arith, length-reverse_aux xs (x ∷ ys))

pub length-reverse {ℓ} : {A : Type ℓ} (xs : List A) → length (reverse xs) ≡ length xs
length-reverse xs = omega (arith, length-reverse_aux xs [])

strip_prefix_le : (p s : Text) {r : Text} → strip_prefix p s ≡ some r → length r ≤ length s
strip_prefix_le [] s h = ground arith
strip_prefix_le (p ∷ ps) [] h = cc
strip_prefix_le (p ∷ ps) (c ∷ s) {r} h = ground (arith, strip_prefix_le ps s {r = r})

strip_suffix_le : (p s : Text) {r : Text} → strip_suffix p s ≡ some r → length r ≤ length s
strip_suffix_le p s {r} h = elim (Option-cases (strip_prefix (reverse p) (reverse s))) [
  | inl e ↦ absurd (ground arith)
  | inr (t, e) ↦
      ground (arith, strip_prefix_le (reverse p) (reverse s) e, length-reverse s, length-reverse t)
]

strip_both_le : (p q s : Text) {r : Text} → strip_both p q s ≡ some r → length r ≤ length s
strip_both_le p q s {r} h = elim (Option-cases (strip_prefix p s)) [
  | inl e ↦ absurd (ground arith)
  | inr (t, e) ↦ ground (arith, strip_prefix_le p s e, strip_suffix_le q t {r = r})
]

length-inner_content : (s : Text) → length (inner_content s) ≤ length s
length-inner_content s = elim (Option-cases (strip_both (codes "Tuple<") (codes ">") s)) [
  | inr (r, e) ↦ rw e (strip_both_le (codes "Tuple<") (codes ">") s e)
  | inl e ↦ elim (Option-cases (strip_both (codes "(") (codes ")") s)) [
    | inr (r, e') ↦ rw (e, e') (strip_both_le (codes "(") (codes ")") s e')
    | inl e' ↦ rw (e, e') (omega arith)
  ]
]

split_once_lt : (d : ℕ) (s : Text) {a b : Text} → split_once d s ≡ some (a, b) → length b < length s
unfolding split_once
split_once_lt d [] h = cc
split_once_lt d (c ∷ s) h = elim (Option-cases (split_once d s)) [
  | inl e ↦ ground arith
  | inr ((a', b'), e) ↦ ground (arith, split_once_lt d s e)
]

drop_last_le : (s : Text) {r : Text} → drop_last s ≡ done r → length r ≤ length s
drop_last_le [] h = cc
drop_last_le (c ∷ []) h = ground arith
drop_last_le (c ∷ d ∷ s) {r} h =
    let (rest, e, f) = >>=-eq-done (drop_last (d ∷ s)) (λ t. done (c ∷ t)) h in
    ground (arith, drop_last_le (d ∷ s) e)

module _ (single : Text → Run Text) (n : ℕ) where
  split_types-Ends :
      ((t : Text) → length t ≤ n → Ends (single t))
      → (opened closed : ℕ) (current s : Text) → length current + length s ≤ n
      → Ends (split_types single opened closed current s)
  unfolding split_types
  split_types-Ends ends opened closed current [] h = elim (Bool-cases (text_beq current [])) [
    | inl blank ↦ rw (blank, split_types) (done-Ends [])
    | inr part ↦
        rw (part, split_types)
          (>>=-Ends (single (reverse current)) (λ t. done (t ∷ []))
            (ends (reverse current) (omega (arith, length-reverse current)))
            (λ t _. done-Ends (t ∷ [])))
  ]
  split_types-Ends ends opened closed current (c ∷ s) h =
      elim (Bool-cases (nat_beq c b',' && nat_beq opened closed)) [
        | inl comma ↦
            rw (comma, split_types)
              (>>=-Ends (single (reverse current)) _
                (ends (reverse current) (omega (arith, length-reverse current)))
                (λ t _.
                  >>=-Ends (split_types single opened closed [] s) (λ ts. done (t ∷ ts))
                    (split_types-Ends ends opened closed [] s (omega arith))
                    (λ ts _. done-Ends (t ∷ ts))))
        | inr other ↦
            rw (other, split_types)
              (split_types-Ends ends (if nat_beq c b'<' then suc opened else opened)
                (if nat_beq c b'>' then suc closed else closed) (c ∷ current) s (omega arith))
      ]

drop_last-Ends : (s : Text) → Ends (drop_last s)
drop_last-Ends [] e = cc
drop_last-Ends (c ∷ []) e = cc
drop_last-Ends (c ∷ d ∷ s) e =
    >>=-Ends (drop_last (d ∷ s)) (λ r. done (c ∷ r)) (drop_last-Ends (d ∷ s))
      (λ r _. done-Ends (c ∷ r)) e

simplify_single-Ends :
    (f : Text → Run Text) (n : ℕ)
    → ((t : Text) → length t < n → Ends (f t))
    → (t : Text) → length t ≤ n
    → Ends (simplify_single f t)
simplify_single-Ends f n ends t h = elim (Option-cases (split_once b'<' t)) [
  | inl e ↦ rw (e, simplify_single) (done-Ends _)
  | inr ((main_type, rest), e) ↦
      rw (e, simplify_single)
        (>>=-Ends (drop_last rest) _ (drop_last-Ends rest) (λ inner d.
          >>=-Ends (f inner) _
            (ends inner (omega (arith, split_once_lt b'<' t e, drop_last_le rest d)))
            (λ r _. done-Ends _)))
]

fixed_array_name-Ends : (parts : Text × Text) → Ends (fixed_array_name parts)
fixed_array_name-Ends (element, rest) =
    >>=-Ends (drop_last rest) _ (drop_last-Ends rest) (λ number _. done-Ends _)

simplify-Ends : (fuel : ℕ) (s : Text) → length s < fuel → Ends (simplify fuel s)
unfolding simplify
simplify-Ends zero s h = absurd (omega arith)
simplify-Ends (suc fuel) s h = elim (Option-cases (fixed_array_parts s)) [
  | inr (parts, e) ↦ rw (e, simplify) (fixed_array_name-Ends parts)
  | inl e ↦
      rw (e, simplify)
        (>>=-Ends (split_types (simplify_single (simplify fuel)) 0 0 [] (inner_content s)) _
          (split_types-Ends (simplify_single (simplify fuel)) (length s)
            (simplify_single-Ends (simplify fuel) (length s)
              (λ t lt. simplify-Ends fuel t (omega arith)))
            0 0 [] (inner_content s) (omega (arith, length-inner_content s)))
          (λ parts _. done-Ends (assemble parts)))
]

-- `simplify_type_name` ends on every type name: the length of the name bounds the nesting of its
-- recursion, so it returns a name or panics.
pub simplify_type_name-Ends : (s : Text) → Ends (simplify_type_name s)
unfolding simplify_type_name
simplify_type_name-Ends s = simplify-Ends (suc (length s)) s (omega arith)
