-- ===== src/Abi.antt =====
-- crates/walnut-shared/src/abi.rs: the struct and enum definitions of an ABI, and their collection
-- from the items of an ABI. The expanded members, variants and reference marks that the type
-- decoder fills in stand in TypeDecoder.
use starkloupe_server.Common.{Text, List, [], ◌∷◌, ◌++◌}

pub record StructMember : Type 0 where
  pub name : Text
  pub ty : Text

pub record Struct : Type 0 where
  pub name : Text
  pub members : List StructMember

pub record EnumVariant : Type 0 where
  pub name : Text
  pub ty : Text

pub record Enum : Type 0 where
  pub name : Text
  pub variants : List EnumVariant

-- Inputs carry their name and type.
pub record Function : Type 0 where
  pub name : Text
  pub inputs : List StructMember
  pub outputs : List Text

-- A list of `Item`s: an item, or an interface with its own items, and what follows.
pub data Items : Type 0 where
  end : Items
  function_item : Function → Items → Items
  struct_item : Struct → Items → Items
  enum_item : Enum → Items → Items
  interface_item : Text → Items → Items → Items
  -- constructors, L1 handlers, events and impls
  other_item : Items → Items

unfoldable pub get_functions : Items → List Function
get_functions end = []
get_functions (function_item f rest) = f ∷ get_functions rest
get_functions (interface_item name items rest) = get_functions items ++ get_functions rest
get_functions (struct_item s rest) = get_functions rest
get_functions (enum_item e rest) = get_functions rest
get_functions (other_item rest) = get_functions rest

unfoldable pub get_structs : Items → List Struct
get_structs end = []
get_structs (struct_item s rest) = s ∷ get_structs rest
get_structs (interface_item name items rest) = get_structs items ++ get_structs rest
get_structs (function_item f rest) = get_structs rest
get_structs (enum_item e rest) = get_structs rest
get_structs (other_item rest) = get_structs rest

unfoldable pub get_enums : Items → List Enum
get_enums end = []
get_enums (enum_item e rest) = e ∷ get_enums rest
get_enums (interface_item name items rest) = get_enums items ++ get_enums rest
get_enums (function_item f rest) = get_enums rest
get_enums (struct_item s rest) = get_enums rest
get_enums (other_item rest) = get_enums rest
