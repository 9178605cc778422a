-- ===== src/TypeDecoder/Expand.antt =====
-- crates/data-decoder/src/type_decoder.rs: the expansion of the struct and enum maps of an ABI. The
-- recursion runs on fuel, and the state is the map of expanded types and the visited names.
use starkloupe_server.Common.{
  ℕ, zero, suc, Text, text_eq, ◌==◌, contains, Bool, true, false, not, ◌&&◌, Option, none, some,
  List, [], ◌∷◌, map,
}
use starkloupe_server.Common.Maps.{Map, get, insert}
use starkloupe_server.Common.Texts.{is_some}
use starkloupe_server.Common.Run.{Run, done, stop, out_of_fuel, ◌>>=◌}
use starkloupe_server.Abi.{Struct, Enum}
use starkloupe_server.Simplify.{simplify_type_name}
use starkloupe_server.TypeDecoder.{
  Member, member, absent, given, Members, end, entry, Visited, struct_fields, enum_fields,
}

-- The expanded types by name: an entry holds the members of a struct, or the variants of an enum.
abbrev pub Expanded : Type 0
Expanded = Map Text Members

abbrev pub ExpandState : Type 0
ExpandState = Expanded × Visited

-- A member or variant without expansion.
abbrev pub plain : Text × Text → Member
plain (name, ty) = member name ty absent absent none

abbrev pub plain_members : List (Text × Text) → Members
plain_members [] = end
plain_members (f ∷ fs) = entry (plain f) (plain_members fs)

abbrev pub ExpandNested : Type 0
ExpandNested = Text → ExpandState → Run (Members × ExpandState)

abbrev pub with_members : Text → Text → Members × ExpandState → Member × ExpandState
with_members name ty (ms, state) = (member name ty (given ms) absent none, state)

abbrev pub with_variants : Text → Text → Members × ExpandState → Member × ExpandState
with_variants name ty (vs, state) = (member name ty absent (given vs) none, state)

-- A circular reference when the nested type has been visited, or else its expansion.
abbrev pub nested_or_circular :
    Bool
    → (Text → Text → Members × ExpandState → Member × ExpandState)
    → ExpandNested
    → Text
    → Text
    → ExpandState
    → Run (Member × ExpandState)
nested_or_circular true attach expand name ty state =
    done (member name ty absent absent (some ty), state)
nested_or_circular false attach expand name ty state = do
  nested ← expand ty state
  done (attach name ty nested)

abbrev pub variants_or_plain : Option Enum → Text → Text → ExpandState → Member × ExpandState
variants_or_plain none name ty state = (plain (name, ty), state)
variants_or_plain (some e) name ty state =
    (member name ty absent (given (plain_members (enum_fields e))) none, state)

-- A member of a struct, given its simplified type: a struct is expanded, an enum is not.
unfoldable pub expand_struct_member :
    Map Text Struct
    → Map Text Enum
    → ExpandNested
    → Text
    → Text
    → ExpandState
    → Run (Member × ExpandState)
expand_struct_member structs enums expand name ty state = elim (get ty structs) [
  | some _ ↦ nested_or_circular (contains ty (state.1)) with_members expand name ty state
  | none ↦ done (variants_or_plain (get ty enums) name ty state)
]

-- A variant of the enum `owner`, given its simplified type: an enum other than the owner is
-- expanded, a struct is not.
unfoldable pub expand_enum_variant :
    Map Text Struct
    → Map Text Enum
    → Text
    → ExpandNested
    → Text
    → Text
    → ExpandState
    → Run (Member × ExpandState)
expand_enum_variant structs enums owner expand name ty state = elim (get ty structs) [
  | some s ↦ done (member name ty (given (plain_members (struct_fields s))) absent none, state)
  | none ↦ elim (is_some (get ty enums) && not (ty == owner)) [
    | true ↦ nested_or_circular (contains ty (state.1)) with_variants expand name ty state
    | false ↦ done (plain (name, ty), state)
  ]
]

-- The members in order, each with the state the former left.
unfoldable pub expand_fields :
    (Text → Text → ExpandState → Run (Member × ExpandState))
    → List (Text × Text)
    → ExpandState
    → Run (Members × ExpandState)
expand_fields expand [] state = done (end, state)
expand_fields expand ((name, ty) ∷ rest) state = do
  simplified ← simplify_type_name ty
  first ← expand name simplified state
  others ← expand_fields expand rest (first.1)
  done (entry (first.0) (others.0), others.1)

abbrev pub visit : Text → ExpandState → ExpandState
visit name (expanded, visited) = (expanded, name ∷ visited)

abbrev pub record_expanded : Text → Members × ExpandState → Members × ExpandState
record_expanded name (ms, (expanded, visited)) = (ms, (insert name ms expanded, visited))

unfoldable pub expand_struct_recursively :
    ℕ → Map Text Struct → Map Text Enum → Text → ExpandState → Run (Members × ExpandState)
unfolding expand_fields expand_struct_member
expand_struct_recursively zero structs enums name state = stop out_of_fuel
expand_struct_recursively (suc fuel) structs enums name state = elim (get name (state.0)) [
  | some cached ↦ done (cached, state)
  | none ↦ elim (get name structs) [
    | none ↦ done (end, visit name state)
    | some s ↦ do
      members ←
          expand_fields
            (expand_struct_member structs enums (expand_struct_recursively fuel structs enums))
            (struct_fields s) (visit name state)
      done (record_expanded name members)
  ]
]

unfoldable pub expand_enum_recursively :
    ℕ → Map Text Enum → Map Text Struct → Text → ExpandState → Run (Members × ExpandState)
unfolding expand_fields expand_enum_variant
expand_enum_recursively zero enums structs name state = stop out_of_fuel
expand_enum_recursively (suc fuel) enums structs name state = elim (get name (state.0)) [
  | some cached ↦ done (cached, state)
  | none ↦ elim (get name enums) [
    | none ↦ done (end, visit name state)
    | some e ↦ do
      variants ←
          expand_fields
            (expand_enum_variant structs enums name (expand_enum_recursively fuel enums structs))
            (enum_fields e) (visit name state)
      done (record_expanded name variants)
  ]
]

-- The loop over the names of a map: a visited name is passed over.
unfoldable pub expand_names : ExpandNested → List Text → ExpandState → Run ExpandState
expand_names expand [] state = done state
expand_names expand (name ∷ rest) state = elim (contains name (state.1)) [
  | true ↦ expand_names expand rest state
  | false ↦ do found ← expand name state; expand_names expand rest (found.1)
]

abbrev pub keys {ℓ} : {V : Type ℓ} → Map Text V → List Text
keys m = map (λ e. e.0) m

unfoldable pub expand_structs_recursively : ℕ → Map Text Struct → Map Text Enum → Run Expanded
unfolding expand_names expand_struct_recursively
expand_structs_recursively fuel structs enums = do
  state ← expand_names (expand_struct_recursively fuel structs enums) (keys structs) ([], [])
  done (state.0)

unfoldable pub expand_enums_recursively : ℕ → Map Text Enum → Map Text Struct → Run Expanded
unfolding expand_names expand_enum_recursively
expand_enums_recursively fuel enums structs = do
  state ← expand_names (expand_enum_recursively fuel enums structs) (keys enums) ([], [])
  done (state.0)
