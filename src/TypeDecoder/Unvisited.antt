-- ===== src/TypeDecoder/Unvisited.antt =====
-- crates/data-decoder/src/type_decoder.rs: the expansion of the struct and enum maps ends, since
-- every nested call visits another name of the map.
use starkloupe_server.Common.{
  ℕ, zero, suc, ◌+◌, Text, text_eq, ◌==◌, ==_iff, contains, true, false, Option, none, some, List,
  [], ◌∷◌, ◌≡◌, refl, inl, inr, ◌≤◌, ◌<◌, arith, if◌then◌else◌, Bool-cases, Option-cases, length,
  subst, sym, All, All-map_weaken, ==_refl,
}
use starkloupe_server.Common.Maps.{Map, get}
use starkloupe_server.Common.Run.{
  Meets, done-Meets, >>=-Meets, Ends-Meets, Run, Ends, done-Ends, >>=-Ends,
}
use starkloupe_server.Abi.{Struct, Enum}
use starkloupe_server.Simplify.{simplify_type_name}
use starkloupe_server.Simplify.Total.{simplify_type_name-Ends}
use starkloupe_server.TypeDecoder.{Member, Members, Visited, struct_fields, enum_fields}
use starkloupe_server.TypeDecoder.Expand.{
  ExpandState, ExpandNested, with_members, with_variants, nested_or_circular, variants_or_plain,
  expand_struct_member, expand_enum_variant, expand_fields, visit, record_expanded,
  expand_struct_recursively, expand_enum_recursively, expand_names, keys,
  expand_structs_recursively, expand_enums_recursively,
}

-- The entries of the map whose names have not been visited.
unfoldable pub left_to_visit {ℓ} : {V : Type ℓ} → Map Text V → Visited → ℕ
left_to_visit [] visited = 0
left_to_visit ((k, v) ∷ m) visited = (if contains k visited then 0 else 1) + left_to_visit m visited

left_to_visit_le {ℓ} :
    {V : Type ℓ} (m : Map Text V) (name : Text) (v : Visited)
    → left_to_visit m (name ∷ v) ≤ left_to_visit m v
unfolding left_to_visit
left_to_visit_le [] name v = omega arith
left_to_visit_le ((k, x) ∷ m) name v = ground (arith, left_to_visit_le m name v)

-- Visiting a new name of the map leaves fewer.
left_to_visit_lt {ℓ} :
    {V : Type ℓ} (m : Map Text V) (name : Text) (v : Visited) (x : V)
    → get name m ≡ some x
    → contains name v ≡ false
    → left_to_visit m (name ∷ v) < left_to_visit m v
unfolding left_to_visit get
left_to_visit_lt [] name v x g h = absurd cc
left_to_visit_lt ((k, y) ∷ m) name v x g h = elim (Bool-cases (k == name)) [
  | inl e ↦
      let same : k ≡ name = (==_iff k name).0 e in
      let new : contains k v ≡ false = subst (λ t. contains t v ≡ false) (sym same) h in
      let found : (name == k) ≡ true = (==_iff name k).1 (sym same) in
      ground (arith, left_to_visit_le m name v)
  | inr e ↦
      let g' : get name m ≡ some x = subst (λ b. (if b then some y else get name m) ≡ some x) e g in
      ground (arith, left_to_visit_lt m name v x g' h)
]

left_to_visit-length {ℓ} :
    {V : Type ℓ} (m : Map Text V) (v : Visited) → left_to_visit m v ≤ length m
unfolding left_to_visit
left_to_visit-length [] v = omega arith
left_to_visit-length ((k, x) ∷ m) v = ground (arith, left_to_visit-length m v)

-- The names left to visit are at most `n`.
abbrev Left {ℓ κ} : {V : Type ℓ} {A : Type κ} → Map Text V → ℕ → A × ExpandState → Type 0
Left m n (a, state) = left_to_visit m (state.1) ≤ n

-- A nested call on a name of the map that has not been visited ends, and leaves no more names.
module _ {ℓ} {V : Type ℓ} (m : Map Text V) (n : ℕ) where
  abbrev Expands : ExpandNested → Type ℓ
  Expands expand =
      (name : Text) (state : ExpandState) (x : V)
      → get name m ≡ some x
      → contains name (state.1) ≡ false
      → left_to_visit m (state.1) ≤ n
      → Meets (Left m n) (expand name state)

  -- One member or variant, or a list of them, leaves no more names.
  abbrev ExpandsMember : (Text → Text → ExpandState → Run (Member × ExpandState)) → Type 0
  ExpandsMember expand =
      (name ty : Text) (state : ExpandState)
      → left_to_visit m (state.1) ≤ n
      → Meets (Left m n) (expand name ty state)

  expand_fields-Meets :
      (expand : Text → Text → ExpandState → Run (Member × ExpandState))
      → ExpandsMember expand
      → (fields : List (Text × Text)) (state : ExpandState) → left_to_visit m (state.1) ≤ n
      → Meets (Left m n) (expand_fields expand fields state)
  unfolding expand_fields
  expand_fields-Meets expand good [] state h = done-Meets (Left m n) _ h
  expand_fields-Meets expand good ((name, ty) ∷ rest) state h =
      >>=-Meets (λ a. Unit) (Left m n) (simplify_type_name ty) _
        (Ends-Meets _ (simplify_type_name-Ends ty))
        (λ t _.
          >>=-Meets (Left m n) (Left m n) (expand name t state) _ (good name t state h) (λ first g.
            >>=-Meets (Left m n) (Left m n) (expand_fields expand rest (first.1)) _
              (expand_fields-Meets expand good rest (first.1) g)
              (λ others k. done-Meets (Left m n) _ k)))

  nested_or_circular-Meets :
      (attach : Text → Text → Members × ExpandState → Member × ExpandState)
      → ((name ty : Text) (r : Members × ExpandState) → (attach name ty r).1 ≡ r.1)
      → (expand : ExpandNested) → Expands expand
      → (name ty : Text) (state : ExpandState) (x : V) → get ty m ≡ some x
      → left_to_visit m (state.1) ≤ n
      → Meets (Left m n) (nested_or_circular (contains ty (state.1)) attach expand name ty state)
  nested_or_circular-Meets attach keeps expand good name ty state x g h =
      elim (Bool-cases (contains ty (state.1))) [
        | inl e ↦ rw (e, nested_or_circular) (done-Meets (Left m n) _ h)
        | inr e ↦
            rw (e, nested_or_circular)
              (>>=-Meets (Left m n) (Left m n) (expand ty state) _ (good ty state x g e h)
                (λ nested k.
                  done-Meets (Left m n) (attach name ty nested)
                    (subst (λ s. left_to_visit m (s.1) ≤ n) (sym (keeps name ty nested)) k)))
      ]

Left-visit :
    {V : Type 0} (m : Map Text V) (n : ℕ) (name : Text) (state : ExpandState) (x : V)
    → get name m ≡ some x
    → contains name (state.1) ≡ false
    → left_to_visit m (state.1) ≤ suc n
    → left_to_visit m ((visit name state).1) ≤ n
Left-visit m n name (expanded, visited) x g e h =
    omega (arith, left_to_visit_lt m name visited x g e)

record_expanded-Left :
    {V : Type 0} (m : Map Text V) (n : ℕ) (name : Text) (r : Members × ExpandState)
    → Left m n r
    → Left m n (record_expanded name r)
record_expanded-Left m n name (ms, (expanded, visited)) h = h

Left-suc :
    {V : Type 0} {A : Type 0} (m : Map Text V) (n : ℕ) (r : Run (A × ExpandState))
    → Meets (Left m n) r
    → Meets (Left m (suc n)) r
Left-suc m n r (ends, holds) = (ends, λ a e. let k = holds a e in omega (arith, k))

with_members_keeps : (name ty : Text) (r : Members × ExpandState) → (with_members name ty r).1 ≡ r.1
with_members_keeps name ty (ms, state) = refl

with_variants_keeps :
    (name ty : Text) (r : Members × ExpandState) → (with_variants name ty r).1 ≡ r.1
with_variants_keeps name ty (ms, state) = refl

variants_or_plain_keeps :
    (o : Option Enum) (name ty : Text) (state : ExpandState)
    → (variants_or_plain o name ty state).1 ≡ state
variants_or_plain_keeps none name ty state = refl
variants_or_plain_keeps (some e) name ty state = refl

module _ (structs : Map Text Struct) (enums : Map Text Enum) where
  expand_struct_member-Meets :
      (n : ℕ) (expand : ExpandNested)
      → Expands structs n expand
      → ExpandsMember structs n (expand_struct_member structs enums expand)
  unfolding expand_struct_member
  expand_struct_member-Meets n expand good name ty state h = elim (Option-cases (get ty structs)) [
    | inr (s, e) ↦
        rw (e, expand_struct_member)
          (nested_or_circular-Meets structs n with_members with_members_keeps expand good name ty
            state s e h)
    | inl e ↦
        rw (e, expand_struct_member)
          (done-Meets (Left structs n) (variants_or_plain (get ty enums) name ty state) (
            subst (λ s. left_to_visit structs (s.1) ≤ n)
              (sym (variants_or_plain_keeps (get ty enums) name ty state)) h))
  ]

  -- The expansion of a struct that has not been visited ends, with as much fuel as there are structs
  -- left to visit, and visits some of them.
  expand_struct_recursively-Meets :
      (n : ℕ) → Expands structs n (expand_struct_recursively n structs enums)
  unfolding expand_struct_recursively
  expand_struct_recursively-Meets zero name state x g e h =
      absurd (omega (arith, left_to_visit_lt structs name (state.1) x g e))
  expand_struct_recursively-Meets (suc n) name state x g e h =
      elim (Option-cases (get name (state.0))) [
        | inr (cached, c) ↦
            rw (c, expand_struct_recursively) (done-Meets (Left structs (suc n)) (cached, state) h)
        | inl c ↦
            rw (c, g, expand_struct_recursively)
              (Left-suc structs n _ (
                >>=-Meets (Left structs n) (Left structs n) (expand_fields _ (struct_fields x) _) _
                  (expand_fields-Meets structs n _
                    (expand_struct_member-Meets n (expand_struct_recursively n structs enums)
                      (expand_struct_recursively-Meets n))
                    (struct_fields x) (visit name state) (Left-visit structs n name state x g e h))
                  (λ ms k.
                    done-Meets (Left structs n) _ (record_expanded-Left structs n name ms k))))
      ]

  expand_enum_variant-Meets :
      (n : ℕ) (owner : Text) (expand : ExpandNested)
      → Expands enums n expand
      → ExpandsMember enums n (expand_enum_variant structs enums owner expand)
  unfolding expand_enum_variant
  expand_enum_variant-Meets n owner expand good name ty state h =
      elim (Option-cases (get ty structs)) [
        | inr (s, e) ↦ rw (e, expand_enum_variant) (done-Meets (Left enums n) _ h)
        | inl e ↦ elim (Option-cases (get ty enums)) [
          | inl e' ↦ rw (e, e', expand_enum_variant) (done-Meets (Left enums n) _ h)
          | inr (en, e') ↦ elim (Bool-cases (ty == owner)) [
            | inl b ↦ rw (e, e', b, expand_enum_variant) (done-Meets (Left enums n) _ h)
            | inr b ↦
                rw (e, e', b, expand_enum_variant)
                  (nested_or_circular-Meets enums n with_variants with_variants_keeps expand good
                    name ty state en e' h)
          ]
        ]
      ]

  expand_enum_recursively-Meets :
      (n : ℕ) → Expands enums n (expand_enum_recursively n enums structs)
  unfolding expand_enum_recursively
  expand_enum_recursively-Meets zero name state x g e h =
      absurd (omega (arith, left_to_visit_lt enums name (state.1) x g e))
  expand_enum_recursively-Meets (suc n) name state x g e h =
      elim (Option-cases (get name (state.0))) [
        | inr (cached, c) ↦
            rw (c, expand_enum_recursively) (done-Meets (Left enums (suc n)) (cached, state) h)
        | inl c ↦
            rw (c, g, expand_enum_recursively)
              (Left-suc enums n _ (
                >>=-Meets (Left enums n) (Left enums n) (expand_fields _ (enum_fields x) _) _
                  (expand_fields-Meets enums n _
                    (expand_enum_variant-Meets n name (expand_enum_recursively n enums structs)
                      (expand_enum_recursively-Meets n))
                    (enum_fields x) (visit name state) (Left-visit enums n name state x g e h))
                  (λ ms k. done-Meets (Left enums n) _ (record_expanded-Left enums n name ms k))))
      ]

-- Every name that the loop goes over is one of the map.
get-keys : {V : Type 0} (m : Map Text V) → All (λ name. (x : V) × (get name m ≡ some x)) (keys m)
unfolding get
get-keys [] = tt
get-keys {V = V} ((k, v) ∷ m) = (
  (v, rw (==_refl k)),
  All-map_weaken (λ name. (x : V) × (get name m ≡ some x))
      (λ name. (x : V) × (get name ((k, v) ∷ m) ≡ some x))
      (λ name found. elim (Bool-cases (k == name)) [
        | inl e ↦ (v, rw e)
        | inr e ↦ (found.0, rw e (found.1))
      ])
      (keys m) (get-keys m),
)

expand_names-Ends :
    {V : Type 0} (m : Map Text V) (n : ℕ) (expand : ExpandNested)
    → Expands m n expand
    → (names : List Text) → All (λ name. (x : V) × (get name m ≡ some x)) names
    → (state : ExpandState) → left_to_visit m (state.1) ≤ n
    → Ends (expand_names expand names state)
unfolding expand_names
expand_names-Ends m n expand good [] h state le = done-Ends state
expand_names-Ends m n expand good (name ∷ rest) h state le =
    elim (Bool-cases (contains name (state.1))) [
      | inl e ↦ rw (e, expand_names) (expand_names-Ends m n expand good rest (h.1) state le)
      | inr e ↦
          let found = good name state (h.0.0) (h.0.1) e le in
          rw (e, expand_names)
            (>>=-Ends (expand name state) _ (found.0)
              (λ r k. expand_names-Ends m n expand good rest (h.1) (r.1) (found.1 r k)))
    ]

-- `expand_structs_recursively` and `expand_enums_recursively` end on all maps, be their types
-- circular, on as much fuel as the map has entries: they return or panic.
pub expand_recursively-Ends :
    (structs : Map Text Struct) (enums : Map Text Enum)
    → Ends (expand_structs_recursively (length structs) structs enums)
      × Ends (expand_enums_recursively (length enums) enums structs)
unfolding expand_structs_recursively expand_enums_recursively
expand_recursively-Ends structs enums = (
  >>=-Ends (expand_names _ (keys structs) ([], [])) _
      (expand_names-Ends structs (length structs) _
        (expand_struct_recursively-Meets structs enums (length structs)) (keys structs)
        (get-keys structs) ([], []) (left_to_visit-length structs []))
      (λ s _. done-Ends (s.0)),
  >>=-Ends (expand_names _ (keys enums) ([], [])) _
      (expand_names-Ends enums (length enums) _
        (expand_enum_recursively-Meets structs enums (length enums)) (keys enums) (get-keys enums)
        ([], []) (left_to_visit-length enums []))
      (λ s _. done-Ends (s.0)),
)
