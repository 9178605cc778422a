-- ===== src/TypeDecoder/Decode.antt =====
-- crates/data-decoder/src/type_decoder.rs: `decode_functions`, and the types of inputs and outputs
-- with every nested type simplified. `selector_from_name` is a parameter. The fuel bounds the nesting
-- of types and the depth of the type information.
use starkloupe_server.Common.{ℕ, zero, suc, Text, codes, Option, none, some, List, [], ◌∷◌, ◌++◌}
use starkloupe_server.Common.Texts.{split, trim, join}
use starkloupe_server.Common.Run.{Run, done, stop, out_of_fuel, ◌>>=◌}
use starkloupe_server.Abi.{StructMember, Function}
use starkloupe_server.Simplify.{simplify_type_name, strip_both}
use starkloupe_server.TypeDecoder.{
  Member, Visited, TypeDecoder, span_inner, generic_parts, split_generic_params, with_info,
  get_complete_type_info,
}

-- The types in order, each enhanced.
abbrev pub enhance_all : (Text → Run Text) → List Text → Run (List Text)
enhance_all enhance [] = done []
enhance_all enhance (t ∷ ts) = do
  first ← enhance t
  others ← enhance_all enhance ts
  done (first ∷ others)

abbrev pub trim_all : List Text → List Text
trim_all [] = []
trim_all (t ∷ ts) = trim t ∷ trim_all ts

abbrev pub enhance_inside : (Text → Run Text) → Text → Text → Run Text
enhance_inside enhance name inner = do
  enhanced ← enhance inner
  done (name ++ (codes "<" ++ (enhanced ++ codes ">")))

abbrev pub split_and_enhance_generic_params : (Text → Run Text) → Text → Run (List Text)
split_and_enhance_generic_params enhance content =
    enhance_all enhance (split_generic_params content)

abbrev pub enhance_generic : (Text → Run Text) → Text → Option (Run (Text × Text)) → Run Text
enhance_generic enhance simplified none = done simplified
enhance_generic enhance simplified (some parts) = do
  found ← parts
  params ← split_and_enhance_generic_params enhance (found.1)
  done (found.0 ++ (codes "<" ++ (join (codes ", ") params ++ codes ">")))

-- `enhance_type_recursively` of the simplified type, given itself for the nested types
unfoldable pub enhance_simplified : (Text → Run Text) → Text → Run Text
enhance_simplified enhance ty = elim (strip_both (codes "Array<") (codes ">") ty) [
  | some inner ↦ enhance_inside enhance (codes "Array") inner
  | none ↦ elim (span_inner ty) [
    | some inner ↦ enhance_inside enhance (codes "Span") inner
    | none ↦ elim (strip_both (codes "Option<") (codes ">") ty) [
      | some inner ↦ enhance_inside enhance (codes "Option") inner
      | none ↦ elim (strip_both (codes "(") (codes ")") ty) [
        | some inner ↦ do
          components ← enhance_all enhance (trim_all (split b',' inner))
          done (codes "(" ++ (join (codes ", ") components ++ codes ")"))
        | none ↦ enhance_generic enhance ty (generic_parts ty)
      ]
    ]
  ]
]

unfoldable pub enhance_type_recursively : ℕ → Text → Run Text
unfolding enhance_simplified
enhance_type_recursively zero ty = stop out_of_fuel
enhance_type_recursively (suc fuel) ty = do
  simplified ← simplify_type_name ty
  enhance_simplified (enhance_type_recursively fuel) simplified

-- An input or output, with the names visited by the ones before it.
unfoldable pub decode_parameter : ℕ → TypeDecoder → Text → Text → Visited → Run (Member × Visited)
unfolding enhance_type_recursively get_complete_type_info
decode_parameter fuel decoder name ty visited = do
  enhanced ← enhance_type_recursively fuel ty
  simplified ← simplify_type_name enhanced
  found ← get_complete_type_info 7 decoder 0 simplified visited
  done (with_info name enhanced found)

unfoldable pub decode_inputs :
    ℕ → TypeDecoder → List StructMember → Visited → Run (List Member × Visited)
unfolding decode_parameter
decode_inputs fuel decoder [] visited = done ([], visited)
decode_inputs fuel decoder (input ∷ rest) visited = do
  first ← decode_parameter fuel decoder (StructMember.name input) (StructMember.ty input) visited
  others ← decode_inputs fuel decoder rest (first.1)
  done (first.0 ∷ others.0, others.1)

-- Outputs have no names: theirs are empty here.
unfoldable pub decode_outputs : ℕ → TypeDecoder → List Text → Visited → Run (List Member × Visited)
unfolding decode_parameter
decode_outputs fuel decoder [] visited = done ([], visited)
decode_outputs fuel decoder (ty ∷ rest) visited = do
  first ← decode_parameter fuel decoder [] ty visited
  others ← decode_outputs fuel decoder rest (first.1)
  done (first.0 ∷ others.0, others.1)

pub record DecodedFunction : Type 0 where
  pub selector : Text
  pub name : Text
  pub inputs : List Member
  pub outputs : List Member

module _ (selector_from_name : Text → Text) where
  -- The visited names are shared by the inputs and the outputs of one function.
  unfoldable pub decode_function : ℕ → TypeDecoder → Function → Run DecodedFunction
  unfolding decode_inputs decode_outputs
  decode_function fuel decoder f = do
    inputs ← decode_inputs fuel decoder (Function.inputs f) []
    outputs ← decode_outputs fuel decoder (Function.outputs f) (inputs.1)
    done (record {
      selector = selector_from_name (Function.name f);
      name = Function.name f;
      inputs = inputs.0;
      outputs = outputs.0;
    })

  unfoldable pub decode_functions : ℕ → TypeDecoder → List Function → Run (List DecodedFunction)
  unfolding decode_function
  decode_functions fuel decoder [] = done []
  decode_functions fuel decoder (f ∷ rest) = do
    first ← decode_function fuel decoder f
    others ← decode_functions fuel decoder rest
    done (first ∷ others)
