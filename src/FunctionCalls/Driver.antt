-- ===== src/FunctionCalls/Driver.antt =====
-- crates/simulate/src/simulate.rs: the deepest panic and the deepest failed call put together, classes
-- that Voyager verified, and function calls that are hidden.
use starkloupe_server.Common.{
  ℕ, nat_eq, Bool, true, false, ◌&&◌, ◌||◌, Option, none, some, List, [], ◌∷◌, leb, not, contains,
  if◌then◌else◌,
}
use starkloupe_server.Common.Maps.{get, modify}
use starkloupe_server.Common.Texts.{is_some}
use starkloupe_server.Trace.{FunctionCallsMap}
use starkloupe_server.Calls.{ContractCall, ContractCallsMap}

abbrev pub level_of : Option ContractCall → Option ℕ
level_of none = none
level_of (some c) = some c.contract_calls_nesting_level

abbrev pub mark_panic : Bool → ℕ → FunctionCallsMap → FunctionCallsMap
mark_panic flag id functions =
    modify id (λ c. record c { is_deepest_panic_result = flag }) functions

abbrev pub level_at : Option ℕ → ContractCallsMap → Option ℕ
level_at none calls = none
level_at (some id) calls = level_of (get id calls)

-- `match (current_nested, prev_nested)`
abbrev pub merge_levels :
    Option ℕ → Option ℕ → ℕ → ℕ → Option ℕ → FunctionCallsMap → Option ℕ × FunctionCallsMap
merge_levels (some curr) (some prev) function contract failed functions =
    if leb prev curr
    then (some contract, mark_panic true function functions)
    else (failed, mark_panic false function functions)
merge_levels (some curr) none function contract failed functions = (some contract, functions)
merge_levels none prev function contract failed functions =
    (failed, mark_panic false function functions)

-- Set the deepest function call that panics: the new `deepest_failed_contract_call_id` and the calls.
unfoldable pub merge_deepest_panic :
    Option ℕ → Option ℕ → ContractCallsMap → FunctionCallsMap → Option ℕ × FunctionCallsMap
merge_deepest_panic none failed calls functions = (failed, functions)
merge_deepest_panic (some function) failed calls functions = elim (get function functions) [
  | none ↦ (failed, functions)
  | some c ↦
      merge_levels (level_of (get c.contract_call_id calls)) (level_at failed calls) function
        c.contract_call_id failed functions
]

-- The classes that Voyager verified
unfoldable pub mark_voyager_verified : (ℕ → Bool) → ContractCallsMap → ContractCallsMap
mark_voyager_verified verified [] = []
mark_voyager_verified verified ((id, call) ∷ calls) = elim call.class_hash [
  | none ↦ (id, call) ∷ mark_voyager_verified verified calls
  | some hash ↦
      (id, if verified hash then record call { call_debugger_data_available = true } else call)
      ∷ mark_voyager_verified verified calls
]

-- `function_calls_map.0.values().any(|fc| fc.children_call_ids.contains(&child_id))`
abbrev pub is_linked : FunctionCallsMap → ℕ → Bool
is_linked [] child = false
is_linked ((id, c) ∷ functions) child =
    contains child c.children_call_ids || is_linked functions child

unfoldable pub hide_if_unlinked : FunctionCallsMap → List ℕ → Option ℕ → Option ℕ
hide_if_unlinked functions [] function_call_id = function_call_id
hide_if_unlinked functions (child ∷ children) function_call_id =
    hide_if_unlinked functions children (
      if is_some function_call_id && not (is_linked functions child)
      then none
      else function_call_id)

unfoldable pub hide_call : FunctionCallsMap → ContractCall → ContractCall
unfolding hide_if_unlinked
hide_call functions call = if call.is_hidden then call else record call {
  function_call_id = hide_if_unlinked functions call.children_call_ids call.function_call_id;
}

unfoldable pub filter_and_hide_unlinked_function_calls :
    FunctionCallsMap → ContractCallsMap → ContractCallsMap
unfolding hide_call
filter_and_hide_unlinked_function_calls functions [] = []
filter_and_hide_unlinked_function_calls functions ((id, call) ∷ calls) =
    (id, hide_call functions call) ∷ filter_and_hide_unlinked_function_calls functions calls
