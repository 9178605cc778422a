-- ===== src/Calls/Builder.antt =====
-- `ContractCallsMapBuilder` (contract_calls_map.rs). A `get_mut(..).unwrap()` on a missing key is
-- `none`; call ids and nesting levels are `u32` in the source, plain numbers here.
use starkloupe_server.Common.{
  ℕ, ◌+◌, Bool, true, not, Option, none, some, [], ◌∷◌, ◌++◌, ltb, nat_beq, if◌then◌else◌, nat_eq,
}
use starkloupe_server.Common.Maps.{get, insert, modify}
use starkloupe_server.Calls.{
  CallTrace, CallTraceNodes, nil, entry_point_call, deploy_without_constructor, ContractCall,
  ContractCallsMap, from_cheatnet_state_calltrace, FlameChartNodes, leaf, push_flame,
  strk_fee_token_address,
}

pub record ContractCallsMapBuilder : Type 0 where
  pub contract_calls_map : ContractCallsMap
  pub next_call_id : ℕ
  pub deepest_failed_contract_call_id : Option ℕ
  pub deepest_failed_nesting_level : ℕ

abbrev pub Builder : Type 0
Builder = ContractCallsMapBuilder

-- The test that hides calls of the fee token.
abbrev pub is_strk_fee_token_address : CallTrace → Bool
is_strk_fee_token_address t = nat_beq t.entry_point.storage_address strk_fee_token_address

-- The `ContractCall` that `process_call` makes for a trace.
abbrev pub new_call : CallTrace → ℕ → ℕ → ℕ → ContractCall
new_call t id parent level =
    from_cheatnet_state_calltrace t id parent (level + 1) (is_strk_fee_token_address t)

-- The update of the deepest failed call; the level is not written again after the first failure.
unfoldable pub record_failure : Bool → ℕ → ℕ → Builder → Builder
record_failure failed id level b =
    if failed
    then (elim b.deepest_failed_contract_call_id [
      | some _ ↦
          if ltb b.deepest_failed_nesting_level level
          then record b { deepest_failed_contract_call_id = some id }
          else b
      | none ↦ record b {
        deepest_failed_contract_call_id = some id;
        deepest_failed_nesting_level = level;
      }
    ])
    else b

abbrev pub push_child : ℕ → ContractCall → ContractCall
push_child id c = record c { children_call_ids = c.children_call_ids ++ id ∷ [] }

-- The write to the parent's `children_call_ids`.
unfoldable pub add_child : ℕ → ℕ → ContractCallsMap → Option ContractCallsMap
add_child parent id m =
    if not (nat_beq parent 0)
    then (elim (get parent m) [ none ↦ none | some _ ↦ some (modify parent (push_child id) m) ])
    else some m

-- `process_call` up to the traversal of the nested calls.
unfoldable pub register_call : CallTrace → ℕ → ℕ → Builder → Option Builder
unfolding record_failure add_child from_cheatnet_state_calltrace
register_call t parent level b =
    let id = b.next_call_id in
    let call = new_call t id parent level in
    let b' = record_failure call.is_failed id (level + 1) b in
    elim (add_child parent id (insert id call b'.contract_calls_map)) [
      | none ↦ none
      | some m ↦ some (record b' { next_call_id = id + 1; contract_calls_map = m })
    ]

-- After the traversal of the nested calls of a call that is not hidden: its flame chart node, with
-- the nodes that the traversal pushed, goes on the caller's chart.
unfoldable pub close_flame :
    ℕ
    → ℕ
    → FlameChartNodes
    → Option (Builder × FlameChartNodes)
    → Option (Builder × FlameChartNodes)
close_flame id gas chart none = none
close_flame id gas chart (some (b, children)) = some (b, push_flame chart id gas children)

-- `traverse_cheatnet_state_calltrace` and `process_call`: the loop over the nodes of one level.
-- A hidden call has no node of its own; its nested calls use the caller's chart.
unfoldable pub traverse :
    ℕ → CallTraceNodes → FlameChartNodes → ℕ → Builder → Option (Builder × FlameChartNodes)
traverse parent nil chart level b = some (b, chart)
traverse parent (deploy_without_constructor rest) chart level b = traverse parent rest chart level b
traverse parent (entry_point_call t inner rest) chart level b =
    elim (register_call t parent level b) [
      | none ↦ none
      | some b₁ ↦
          let id = b.next_call_id in
          let nested =
            (if is_strk_fee_token_address t
              then traverse id inner chart (level + 1) b₁
              else close_flame id t.gas_consumed chart (traverse id inner leaf (level + 1) b₁)) in
          elim nested [ none ↦ none | some (b₂, chart') ↦ traverse parent rest chart' level b₂ ]
    ]

-- The builder before the traversal: call 1 is the hidden root.
unfoldable pub start : CallTrace → Builder
start t = record {
  contract_calls_map = insert 1 (from_cheatnet_state_calltrace t 1 0 0 true) [];
  next_call_id = 2;
  deepest_failed_contract_call_id = none;
  deepest_failed_nesting_level = 0;
}

unfoldable pub new_from_cheatnet_state :
    CallTrace → CallTraceNodes → FlameChartNodes → Option (Builder × FlameChartNodes)
unfolding traverse start
new_from_cheatnet_state t nested chart = traverse 1 nested chart 0 (start t)
