-- ===== src/Simplify.antt =====
-- crates/walnut-shared/src/utils.rs: `simplify_type_name` and its helpers. A slice that ends before it
-- starts panics. The recursion runs on fuel, one more than the length of the name.
pub mod Total
use mathlib.Core.List.{reverse}
use starkloupe_server.Common.{
  ℕ, zero, suc, Text, Bool, true, false, not, ◌&&◌, ◌||◌, Option, none, some, List, [], ◌∷◌, ◌++◌,
  length, nat_beq, text_beq, codes, ◌≡◌, refl, if◌then◌else◌,
}
use starkloupe_server.Common.Texts.{
  strip_prefix, strip_suffix, starts_with, ends_with, has_substring, split_once, split, rsplit_path,
  first_or, trim, join,
}
use starkloupe_server.Common.Run.{Run, done, stop, panicked, out_of_fuel, ◌>>=◌}

-- The first piece that is not empty, or `d`.
abbrev pub first_nonempty : Text → List Text → Text
first_nonempty d [] = d
first_nonempty d ([] ∷ ts) = first_nonempty d ts
first_nonempty d ((c ∷ t) ∷ ts) = c ∷ t

unfoldable pub extract_last_segment : Text → Text
extract_last_segment t = first_nonempty t (rsplit_path t)

-- `&s[..s.len() - 1]`, which panics on the empty text
abbrev pub drop_last : Text → Run Text
drop_last [] = stop panicked
drop_last (c ∷ []) = done []
drop_last (c ∷ d ∷ s) = do rest ← drop_last (d ∷ s); done (c ∷ rest)

abbrev pub is_state_type : Text → Bool
is_state_type seg =
    not (text_beq seg (codes "()"))
    && (has_substring (codes "ContractState") seg || has_substring (codes "ComponentState") seg)

abbrev pub kept_segments : List Text → List Text
kept_segments [] = []
kept_segments (seg ∷ rest) =
    let seg' = trim seg in
    let kept = kept_segments rest in
    if text_beq seg' [] then kept else if is_state_type seg' then kept else seg' ∷ kept

-- The text between `(` and `)`. The text `(` is not a tuple: it does not end in `)`.
abbrev pub tuple_inner : Text → Option Text
tuple_inner s = elim (strip_prefix (codes "(") s) [
  | none ↦ none
  | some r ↦ strip_suffix (codes ")") r
]

unfoldable pub remove_unwanted_types : Text → Text
remove_unwanted_types s = elim (tuple_inner s) [
  | some inner ↦ codes "(" ++ (join (codes ", ") (kept_segments (split b',' inner)) ++ codes ")")
  | none ↦ join (codes ", ") (kept_segments (split b',' s))
]

-- The two parts of `[T; N]`: `inner` is the text behind `[`, so the second part keeps the `]`.
abbrev pub fixed_array_parts : Text → Option (Text × Text)
fixed_array_parts s = elim (strip_prefix (codes "[") s) [
  | none ↦ none
  | some inner ↦ elim (strip_suffix (codes "]") s) [ none ↦ none | some _ ↦ split_once b';' inner ]
]

abbrev pub fixed_array_name : Text × Text → Run Text
fixed_array_name (element, rest) =
    let element' = trim element in
    do
      number ← drop_last rest
      done (
          codes "["
          ++ (first_or element' (rsplit_path element')
              ++ (codes ";" ++ (trim number ++ codes "]"))))

abbrev pub or_else : Option Text → Option Text → Option Text
or_else none b = b
or_else (some a) b = some a

abbrev pub strip_both : Text → Text → Text → Option Text
strip_both p q s = elim (strip_prefix p s) [ none ↦ none | some r ↦ strip_suffix q r ]

-- The content of a tuple type, or the type itself.
abbrev pub inner_content : Text → Text
inner_content s =
    elim (or_else (strip_both (codes "Tuple<") (codes ">") s)
      (strip_both (codes "(") (codes ")") s)) [ some r ↦ r | none ↦ s ]

-- The loop over the characters: `current` is in reverse, and the bracket depth is 0 when as many
-- `<` as `>` have been read. Every complete part goes through `simplify_single_type`.
unfoldable pub split_types : (Text → Run Text) → ℕ → ℕ → Text → Text → Run (List Text)
split_types single opened closed current [] =
    if text_beq current [] then done [] else (do part ← single (reverse current); done (part ∷ []))
split_types single opened closed current (c ∷ s) = elim (nat_beq c b',' && nat_beq opened closed) [
  | true ↦ do
    part ← single (reverse current)
    parts ← split_types single opened closed [] s
    done (part ∷ parts)
  | false ↦
      split_types single (if nat_beq c b'<' then suc opened else opened)
        (if nat_beq c b'>' then suc closed else closed) (c ∷ current) s
]

abbrev pub assemble : List Text → Text
assemble [] = []
assemble (t ∷ []) = t
assemble (t ∷ u ∷ ts) = codes "(" ++ (join (codes ", ") (t ∷ u ∷ ts) ++ codes ")")

-- `format_generic_type`, given the simplified inner type
abbrev pub format_generic : Text → Text → Text
format_generic main_type inner =
    let name = extract_last_segment main_type in
    if has_substring (codes "PanicResult") name
    then remove_unwanted_types inner
    else name ++ (codes "<" ++ (inner ++ codes ">"))

-- `simplify_single_type`, given `simplify_type_name` for the type between `<` and the last byte
abbrev pub simplify_single : (Text → Run Text) → Text → Run Text
simplify_single simplify t = elim (split_once b'<' t) [
  | none ↦ done (extract_last_segment t)
  | some (main_type, rest) ↦ do
    inner ← drop_last rest
    simplified ← simplify inner
    done (format_generic main_type simplified)
]

unfoldable pub simplify : ℕ → Text → Run Text
unfolding split_types
simplify zero s = stop out_of_fuel
simplify (suc fuel) s = elim (fixed_array_parts s) [
  | some parts ↦ fixed_array_name parts
  | none ↦ do
    parts ← split_types (simplify_single (simplify fuel)) 0 0 [] (inner_content s)
    done (assemble parts)
]

unfoldable pub simplify_type_name : Text → Run Text
unfolding simplify
simplify_type_name s = simplify (suc (length s)) s

simplify_path : simplify_type_name (codes "core::integer::u256") ≡ done (codes "u256")
unfolding simplify_type_name extract_last_segment rsplit_path split_once
simplify_path = refl

simplify_nested :
    simplify_type_name (codes "core::array::Array::<(core::felt252, a::B)>")
    ≡ done (codes "Array<(felt252, B)>")
unfolding simplify_type_name extract_last_segment rsplit_path split_once
simplify_nested = refl

simplify_fixed : simplify_type_name (codes "[core::felt252; 3]") ≡ done (codes "[felt252;3]")
unfolding simplify_type_name extract_last_segment rsplit_path split_once trim
simplify_fixed = refl

simplify_unclosed : simplify_type_name (codes "a<") ≡ stop panicked
unfolding simplify_type_name extract_last_segment rsplit_path split_once trim
simplify_unclosed = refl
