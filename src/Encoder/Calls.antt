-- ===== src/Encoder/Calls.antt =====
-- crates/server/src/calldata_encoder.rs: the calldata of a transaction with several calls. The results
-- of the fetches of the ABIs are arguments: `none` for a fetch that fails.
use starkloupe_server.Common.{
  Text, Option, none, some, List, [], ◌∷◌, ◌++◌, length, text_beq, text_eq, if◌then◌else◌,
}
use starkloupe_server.Common.Maps.{Map}
use starkloupe_server.Common.Texts.{format_hex}
use starkloupe_server.Common.Run.{Run, done, ◌>>=◌, lift}
use starkloupe_server.Abi.{Enum, Function}
use starkloupe_server.Values.{DecodedValue}
use starkloupe_server.Encoder.{or_empty, encode_decoded_value, encode_parameters_with_abi}

-- `ContractCall` of crates/server/src/handlers/simulate.rs, with decoded parameters
pub record ContractCall : Type 0 where
  pub contract_address : Text
  pub function_selector : Text
  pub function_name : Option Text
  pub parameters : List DecodedValue

-- `ContractAbiData`
pub record ContractAbiData : Type 0 where
  pub functions : List Function
  pub enums : Map Text Enum

abbrev pub find_function : Text → List Function → Option Function
find_function name [] = none
find_function name (f ∷ fs) = if text_beq f.name name then some f else find_function name fs

-- The parameters in the order in which the source's `HashMap` yields them
unfoldable pub encode_parameters_basic : List DecodedValue → Map Text Enum → Run (List Text)
encode_parameters_basic [] enums = done []
encode_parameters_basic (param ∷ params) enums = do
  calldata ← encode_decoded_value enums param
  rest ← encode_parameters_basic params enums
  done (calldata ++ rest)

-- The order in which a `HashMap` with the given values at 0, 1, … yields them is `order`.
unfoldable pub encode_call :
    (List DecodedValue → List DecodedValue)
    → ContractCall
    → Option ContractAbiData
    → Run (List Text)
encode_call order call none = encode_parameters_basic (order call.parameters) []
encode_call order call (some abi) = do
  function ← lift (find_function (or_empty call.function_name) abi.functions)
  encode_parameters_with_abi call.parameters 0 function.inputs abi.enums

-- `for (call, abi_result) in decoded_calls.iter().zip(abi_results)`
unfoldable pub encode_calls :
    (List DecodedValue → List DecodedValue)
    → List (ContractCall × Option ContractAbiData)
    → Run (List Text)
encode_calls order [] = done []
encode_calls order ((call, abi) ∷ calls) = do
  calldata ← encode_call order call abi
  rest ← encode_calls order calls
  done (
      call.contract_address
      ∷ call.function_selector
      ∷ format_hex (length calldata)
      ∷ (calldata ++ rest))

unfoldable pub encode_decoded_calldata :
    (List DecodedValue → List DecodedValue)
    → List (ContractCall × Option ContractAbiData)
    → Run (List Text)
encode_decoded_calldata order calls = do
  rest ← encode_calls order calls
  done (format_hex (length calls) ∷ rest)
