-- ===== src/TypeDecoder.antt =====
-- crates/data-decoder/src/type_decoder.rs: the type information of an ABI's entrypoints, with every
-- nested struct and enum expanded. The set of visited names is a list. `StructMember` and
-- `EnumVariant` have the same fields here, and are one type. The recursion runs on fuel.
pub mod Nesting
pub mod Bounds
pub mod Expand
pub mod Unvisited
pub mod Decode
pub mod Samples
use mathlib.Core.List.{reverse}
use starkloupe_server.Common.{
  ℕ, zero, suc, ◌+◌, Text, text_eq, text_beq, codes, contains, Bool, true, false, ◌&&◌, ◌||◌,
  Option, none, some, List, [], ◌∷◌, ◌++◌, ltb, nat_beq, if◌then◌else◌, length, map,
}
use starkloupe_server.Common.Maps.{Map, get}
use starkloupe_server.Common.Texts.{
  split, split_once, trim, join, starts_with, ends_with, print_decimal,
}
use starkloupe_server.Common.Run.{Run, done, stop, panicked, out_of_fuel, ◌>>=◌}
use starkloupe_server.Abi.{StructMember, Struct, EnumVariant, Enum}
use starkloupe_server.Simplify.{simplify_type_name, strip_both}

mutual
  pub data Member : Type 0 where
    -- name, ty, struct_members, enum_variants, circular_reference_to
    member : Text → Text → Nested → Nested → Option Text → Member

  -- `Option` of a list of members
  pub data Nested : Type 0 where
    absent : Nested
    given : Members → Nested

  pub data Members : Type 0 where
    end : Members
    entry : Member → Members → Members

-- `CompleteTypeInfo`: members and variants
abbrev pub TypeInfo : Type 0
TypeInfo = Nested × Nested

abbrev pub Visited : Type 0
Visited = List Text

-- The result of an expansion, and the names visited by then.
abbrev pub Expansion : Type 0
Expansion = Run (TypeInfo × Visited)

pub record TypeDecoder : Type 0 where
  pub struct_map : Map Text Struct
  pub enum_map : Map Text Enum

abbrev pub no_info : TypeInfo
no_info = (absent, absent)

abbrev pub max_expansion_depth : ℕ
max_expansion_depth = 5

abbrev pub primitive_type_names : List Text
primitive_type_names =
    codes "felt252"
    ∷ codes "felt"
    ∷ codes "u8"
    ∷ codes "u16"
    ∷ codes "u32"
    ∷ codes "u64"
    ∷ codes "u128"
    ∷ codes "u256"
    ∷ codes "u512"
    ∷ codes "usize"
    ∷ codes "i8"
    ∷ codes "i16"
    ∷ codes "i32"
    ∷ codes "i64"
    ∷ codes "i128"
    ∷ codes "bool"
    ∷ codes "ContractAddress"
    ∷ codes "EthAddress"
    ∷ codes "ClassHash"
    ∷ codes "bytes31"
    ∷ codes "Panic"
    ∷ []

unfoldable pub is_primitive_type : Text → Bool
is_primitive_type ty = contains ty primitive_type_names

abbrev pub all_limbs : List Text → List StructMember → Bool
all_limbs names [] = true
all_limbs names (m ∷ ms) =
    (text_beq (StructMember.ty m) (codes "u128") && contains (StructMember.name m) names)
    && all_limbs names ms

unfoldable pub is_multi_limb_integer_struct : Struct → Bool
is_multi_limb_integer_struct s =
    nat_beq (length (Struct.members s)) 2
      && all_limbs (codes "low" ∷ codes "high" ∷ []) (Struct.members s)
    || nat_beq (length (Struct.members s)) 4
      && all_limbs (codes "limb0" ∷ codes "limb1" ∷ codes "limb2" ∷ codes "limb3" ∷ [])
          (Struct.members s)

abbrev pub push_nonblank : Text → List Text → List Text
push_nonblank [] parts = parts
push_nonblank (c ∷ t) parts = (c ∷ t) ∷ parts

-- The bracket depth is 0 when as many `<` as `>` have been read; `current` is in reverse.
unfoldable pub split_params : ℕ → ℕ → Text → Text → List Text
split_params opened closed current [] = push_nonblank (trim (reverse current)) []
split_params opened closed current (c ∷ s) = elim (nat_beq c b',' && nat_beq opened closed) [
  | true ↦ push_nonblank (trim (reverse current)) (split_params opened closed [] s)
  | false ↦
      split_params (if nat_beq c b'<' then suc opened else opened)
        (if nat_beq c b'>' then suc closed else closed) (c ∷ current) s
]

unfoldable pub split_generic_params : Text → List Text
unfolding split_params
split_generic_params s = split_params 0 0 [] s

abbrev pub prepend : ℕ → Option Text → Option Text
prepend c none = none
prepend c (some t) = some (c ∷ t)

-- The text before the last `c`.
abbrev pub up_to_last : ℕ → Text → Option Text
up_to_last c [] = none
up_to_last c (d ∷ s) = elim (up_to_last c s) [
  | some t ↦ some (d ∷ t)
  | none ↦ if nat_beq d c then some [] else none
]

abbrev pub up_to_bracket : Text → Option Text → Run (Text × Text)
up_to_bracket name none = stop panicked
up_to_bracket name (some content) = done (name, content)

-- The name and the parameters of a generic type: the slice between the first `<` and the last `>`
-- panics when the last `>` is before the first `<`.
abbrev pub generic_parts : Text → Option (Run (Text × Text))
generic_parts s = elim (up_to_last b'>' s) [
  | none ↦ none
  | some _ ↦ elim (split_once b'<' s) [
    | none ↦ none
    | some (name, rest) ↦ some (up_to_bracket name (up_to_last b'>' rest))
  ]
]

-- `get_complete_type_info` at the next depth, for a type and the names visited so far
abbrev pub Recurse : Type 0
Recurse = Text → Visited → Expansion

abbrev pub with_info : Text → Text → TypeInfo × Visited → Member × Visited
with_info name ty ((members, variants), visited) = (member name ty members variants none, visited)

-- The member or variant of a name and a type: a reference without recursion when its type has been
-- visited or the next depth is past the limit.
abbrev pub expand_unless : Bool → Recurse → Text → Text → Text → Visited → Run (Member × Visited)
expand_unless true recurse name ty member_type visited =
    done (member name ty absent absent (some member_type), visited)
expand_unless false recurse name ty member_type visited = do
  found ← recurse member_type visited
  done (with_info name ty found)

unfoldable pub expand_member : Recurse → ℕ → Text → Text → Visited → Run (Member × Visited)
expand_member recurse depth name ty visited = do
  member_type ← simplify_type_name ty
  expand_unless (contains member_type visited || ltb max_expansion_depth (suc depth)) recurse name
      ty member_type visited

-- The members or variants, as pairs of a name and a type, in order.
unfoldable pub expand_members : Recurse → ℕ → List (Text × Text) → Visited → Run (Members × Visited)
unfolding expand_member
expand_members recurse depth [] visited = done (end, visited)
expand_members recurse depth ((name, ty) ∷ rest) visited = do
  first ← expand_member recurse depth name ty visited
  others ← expand_members recurse depth rest (first.1)
  done (entry (first.0) (others.0), others.1)

abbrev pub struct_fields : Struct → List (Text × Text)
struct_fields s = map (λ m. (StructMember.name m, StructMember.ty m)) (Struct.members s)

abbrev pub enum_fields : Enum → List (Text × Text)
enum_fields e = map (λ v. (EnumVariant.name v, EnumVariant.ty v)) (Enum.variants e)

-- The inner type, simplified, at the next depth.
abbrev pub expand_inner : Recurse → Text → Visited → Expansion
expand_inner recurse inner visited = do
  simplified ← simplify_type_name inner
  recurse simplified visited

abbrev pub has_structure : TypeInfo → Bool
has_structure (absent, absent) = false
has_structure (absent, given ms) = true
has_structure (given ms, variants) = true

-- The one member `element` of a span whose inner type has structure.
abbrev pub element_info : Text → TypeInfo → TypeInfo
element_info inner info =
    if has_structure info
    then (given (entry (member (codes "element") inner (info.0) (info.1) none) end), absent)
    else no_info

abbrev pub as_element : Text → TypeInfo × Visited → TypeInfo × Visited
as_element inner (info, visited) = (element_info inner info, visited)

abbrev pub tuple_name : ℕ → Text
tuple_name i = codes "tuple_" ++ print_decimal i

-- The components of a tuple from the index on; they are not checked for being visited.
unfoldable pub expand_components : Recurse → ℕ → List Text → Visited → Run (Members × Visited)
expand_components recurse i [] visited = done (end, visited)
expand_components recurse i (component ∷ rest) visited = do
  found ← expand_inner recurse (trim component) visited
  others ← expand_components recurse (suc i) rest (found.1)
  done (entry ((with_info (tuple_name i) (trim component) found).0) (others.0), others.1)

-- The first generic parameter that has structure.
abbrev pub unless_found : (Visited → Expansion) → TypeInfo × Visited → Expansion
unless_found continue (info, visited) = elim (has_structure info) [
  | true ↦ done (info, visited)
  | false ↦ continue visited
]

unfoldable pub first_structured : Recurse → List Text → Visited → Expansion
first_structured recurse [] visited = done (no_info, visited)
first_structured recurse (param ∷ rest) visited = do
  found ← expand_inner recurse param visited
  unless_found (first_structured recurse rest) found

abbrev pub as_members : Members × Visited → TypeInfo × Visited
as_members (members, visited) = ((given members, absent), visited)

abbrev pub as_variants : Members × Visited → TypeInfo × Visited
as_variants (variants, visited) = ((absent, given variants), visited)

abbrev pub span_inner : Text → Option Text
span_inner = strip_both (codes "Span<") (codes ">")

-- A type of the struct map: a span gives the structure of its inner type.
unfoldable pub expand_struct : Recurse → ℕ → Text → Struct → Visited → Expansion
expand_struct recurse depth ty s visited = elim (span_inner ty) [
  | some inner ↦ expand_inner recurse inner visited
  | none ↦ elim (is_multi_limb_integer_struct s) [
    | true ↦ done (no_info, visited)
    | false ↦ do
      members ← expand_members recurse depth (struct_fields s) visited
      done (as_members members)
  ]
]

unfoldable pub expand_enum : Recurse → ℕ → Enum → Visited → Expansion
expand_enum recurse depth e visited = do
  variants ← expand_members recurse depth (enum_fields e) visited
  done (as_variants variants)

abbrev pub expand_span : Recurse → Text → Visited → Expansion
expand_span recurse inner visited = do
  found ← expand_inner recurse inner visited
  done (as_element inner found)

abbrev pub expand_tuple : Recurse → Text → Visited → Expansion
expand_tuple recurse inner visited = do
  members ← expand_components recurse 0 (split b',' inner) visited
  done (as_members members)

abbrev pub expand_generic : Recurse → Option (Run (Text × Text)) → Visited → Expansion
expand_generic recurse none visited = done (no_info, visited)
expand_generic recurse (some parts) visited = do
  found ← parts
  first_structured recurse (split_generic_params (found.1)) visited

-- A type of neither map.
unfoldable pub expand_builtin : Recurse → Text → Visited → Expansion
expand_builtin recurse ty visited = elim (strip_both (codes "Array<") (codes ">") ty) [
  | some inner ↦ expand_inner recurse inner visited
  | none ↦ elim (span_inner ty) [
    | some inner ↦ expand_span recurse inner visited
    | none ↦ elim (strip_both (codes "Option<") (codes ">") ty) [
      | some inner ↦ expand_inner recurse inner visited
      | none ↦ elim (strip_both (codes "(") (codes ")") ty) [
        | some inner ↦ expand_tuple recurse inner visited
        | none ↦ expand_generic recurse (generic_parts ty) visited
      ]
    ]
  ]
]

-- The lookups, behind the guards and the insertion into the visited names.
unfoldable pub expand_new : TypeDecoder → Recurse → ℕ → Text → Visited → Expansion
expand_new decoder recurse depth ty visited = elim (get ty (TypeDecoder.struct_map decoder)) [
  | some s ↦ expand_struct recurse depth ty s visited
  | none ↦ elim (get ty (TypeDecoder.enum_map decoder)) [
    | some e ↦ expand_enum recurse depth e visited
    | none ↦ expand_builtin recurse ty visited
  ]
]

-- The guards: a primitive type, the depth limit, a visited name.
abbrev pub is_expanded : ℕ → Text → Visited → Bool
is_expanded depth ty visited =
    is_primitive_type ty || (ltb max_expansion_depth depth || contains ty visited)

unfoldable pub get_complete_type_info : ℕ → TypeDecoder → ℕ → Text → Visited → Expansion
unfolding expand_new
get_complete_type_info zero decoder depth ty visited = stop out_of_fuel
get_complete_type_info (suc fuel) decoder depth ty visited = elim (is_expanded depth ty visited) [
  | true ↦ done (no_info, visited)
  | false ↦
      expand_new decoder (get_complete_type_info fuel decoder (suc depth)) depth ty (ty ∷ visited)
]
