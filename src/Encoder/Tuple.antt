-- ===== src/Encoder/Tuple.antt =====
-- `parse_tuple_types` on the text between the parentheses of a printed tuple type.
use mathlib.Core.List.{reverse, append-nil}
use starkloupe_server.Common.Texts.{reverse-segment}
use starkloupe_server.Common.{
  ℕ, zero, ◌≡◌, ◌⊎◌, ◌≢◌, refl, sym, ap, ◌∙◌, arith, inl, inr, Bool-cases, Text, Bool, true, false,
  ◌&&◌, List, [], ◌∷◌, ◌++◌, All, nat_beq, text_beq, codes, if◌then◌else◌,
}
use starkloupe_server.Common.Int.{ℤ, pos, incr, decr, is_zero}
use starkloupe_server.Common.Texts.{trim, trim_matches, join}
use starkloupe_server.Encoder.TypeNames.{push_segment, tuple_types_from, parse_tuple_types}

-- From the given depths, no comma stands outside brackets and the text ends outside brackets.
unfoldable pub closed_from : ℤ → ℤ → Text → Bool
closed_from paren angle [] = is_zero paren && is_zero angle
closed_from paren angle (c ∷ s) = elim (nat_beq c b'(') [
  | true ↦ closed_from (incr paren) angle s
  | false ↦ elim (nat_beq c b')') [
    | true ↦ closed_from (decr paren) angle s
    | false ↦ elim (nat_beq c b'<') [
      | true ↦ closed_from paren (incr angle) s
      | false ↦ elim (nat_beq c b'>') [
        | true ↦ closed_from paren (decr angle) s
        | false ↦ elim (nat_beq c b',' && (is_zero paren && is_zero angle)) [
          | true ↦ false
          | false ↦ closed_from paren angle s
        ]
      ]
    ]
  ]
]

-- The name of an element type: closed, not empty, and without white space at its ends
abbrev pub IsElement : Text → Type 0
IsElement t = (closed_from (pos 0) (pos 0) t ≡ true) × (trim t ≡ t) × (text_beq t [] ≡ false)

false≢true : false ≢ true
false≢true h = cc

-- A character of a closed text moves the depths, and the loop keeps it in the segment.
abbrev Moves : ℕ → ℤ → ℤ → ℤ → ℤ → Type 0
Moves c paren angle paren' angle' =
    ((t : Text) → closed_from paren angle (c ∷ t) ≡ closed_from paren' angle' t)
    × ((segment s : Text)
        → tuple_types_from paren angle segment (c ∷ s)
          ≡ tuple_types_from paren' angle' (c ∷ segment) s)

character :
    (c : ℕ) (paren angle : ℤ)
    → ((paren' : ℤ) × (angle' : ℤ) × Moves c paren angle paren' angle')
      ⊎ ((t : Text) → closed_from paren angle (c ∷ t) ≡ false)
unfolding closed_from tuple_types_from
character c p a = elim (Bool-cases (nat_beq c b'(')) [
  | inl e ↦
      inl (incr p, a, (λ t. rw (e, closed_from) refl, λ segment s. rw (e, tuple_types_from) refl))
  | inr e₁ ↦ elim (Bool-cases (nat_beq c b')')) [
    | inl e ↦ inl (
      decr p,
      a,
      (λ t. rw (e₁, e, closed_from) refl, λ segment s. rw (e₁, e, tuple_types_from) refl),
    )
    | inr e₂ ↦ elim (Bool-cases (nat_beq c b'<')) [
      | inl e ↦ inl (
        p,
        incr a,
        (λ t. rw (e₁, e₂, e, closed_from) refl, λ segment s. rw (e₁, e₂, e, tuple_types_from) refl),
      )
      | inr e₃ ↦ elim (Bool-cases (nat_beq c b'>')) [
        | inl e ↦ inl (
          p,
          decr a,
          (
            λ t. rw (e₁, e₂, e₃, e, closed_from) refl,
            λ segment s. rw (e₁, e₂, e₃, e, tuple_types_from) refl,
          ),
        )
        | inr e₄ ↦ elim (Bool-cases (nat_beq c b',' && (is_zero p && is_zero a))) [
          | inl e ↦ inr (λ t. rw (e₁, e₂, e₃, e₄, e, closed_from) refl)
          | inr e ↦ inl (
            p,
            a,
            (
              λ t. rw (e₁, e₂, e₃, e₄, e, closed_from) refl,
              λ segment s. rw (e₁, e₂, e₃, e₄, e, tuple_types_from) refl,
            ),
          )
        ]
      ]
    ]
  ]
]

scan_comma :
    (paren angle : ℤ) (segment t rest : Text)
    → closed_from paren angle t ≡ true
    → tuple_types_from paren angle segment (t ++ b',' ∷ rest)
      ≡ push_segment (reverse segment ++ t) (tuple_types_from (pos 0) (pos 0) [] rest)
unfolding closed_from tuple_types_from
scan_comma (pos zero) (pos zero) segment [] rest h =
    ap (λ s. push_segment s (tuple_types_from (pos 0) (pos 0) [] rest))
      (sym (append-nil (reverse segment)))
scan_comma paren angle segment [] rest h = absurd (ground arith)
scan_comma paren angle segment (c ∷ t) rest h = elim (character c paren angle) [
  | inr bad ↦ absurd (false≢true (sym (bad t) ∙ h))
  | inl (p, a, (k, l)) ↦
      l segment (t ++ b',' ∷ rest)
      ∙ scan_comma p a (c ∷ segment) t rest (sym (k t) ∙ h)
      ∙ ap (λ s. push_segment s (tuple_types_from (pos 0) (pos 0) [] rest))
          (reverse-segment c segment t)
]

scan_end :
    (paren angle : ℤ) (segment t : Text)
    → closed_from paren angle t ≡ true
    → tuple_types_from paren angle segment t ≡ push_segment (reverse segment ++ t) []
unfolding closed_from tuple_types_from
scan_end paren angle segment [] h = ap (λ s. push_segment s []) (sym (append-nil (reverse segment)))
scan_end paren angle segment (c ∷ t) h = elim (character c paren angle) [
  | inr bad ↦ absurd (false≢true (sym (bad t) ∙ h))
  | inl (p, a, (k, l)) ↦
      l segment t
      ∙ scan_end p a (c ∷ segment) t (sym (k t) ∙ h)
      ∙ ap (λ s. push_segment s []) (reverse-segment c segment t)
]

push_trimmed :
    (u t : Text) (types : List Text)
    → trim u ≡ t
    → text_beq t [] ≡ false
    → push_segment u types ≡ t ∷ types
push_trimmed u t types e n = ap (λ s. if text_beq s [] then types else s ∷ types) e ∙ rw n refl

-- The segment of the first type, which may stand behind a space, and then the other types
parse_from_first :
    (u t : Text) (ts : List Text)
    → closed_from (pos 0) (pos 0) u ≡ true
    → trim u ≡ t
    → text_beq t [] ≡ false
    → All IsElement ts
    → tuple_types_from (pos 0) (pos 0) [] (join (codes ", ") (u ∷ ts)) ≡ t ∷ ts
unfolding closed_from trim trim_matches
parse_from_first u t [] cl e n h = scan_end (pos 0) (pos 0) [] u cl ∙ push_trimmed u t [] e n
parse_from_first u t (v ∷ vs) cl e n ((vcl, ve, vn), h) =
    scan_comma (pos 0) (pos 0) [] u (b' ' ∷ join (codes ", ") (v ∷ vs)) cl
    ∙ ap (λ s. push_segment u (tuple_types_from (pos 0) (pos 0) [] s)) (spaced v vs)
    ∙ ap (push_segment u) (parse_from_first (b' ' ∷ v) v vs vcl ve vn h)
    ∙ push_trimmed u t (v ∷ vs) e n
  where
    spaced :
        (v : Text) (vs : List Text)
        → b' ' ∷ join (codes ", ") (v ∷ vs) ≡ join (codes ", ") ((b' ' ∷ v) ∷ vs)
    spaced v [] = refl
    spaced v (w ∷ ws) = refl

-- For types whose names are not empty, have no white space at their ends, and close every bracket
-- before they end and before every comma that is outside, parsing the names joined by `, ` gives
-- the names back.
pub parse_tuple_types-join :
    (ts : List Text) → All IsElement ts → parse_tuple_types (join (codes ", ") ts) ≡ ts
unfolding parse_tuple_types trim trim_matches
parse_tuple_types-join [] h = refl
parse_tuple_types-join (t ∷ ts) ((cl, e, n), h) = parse_from_first t t ts cl e n h
