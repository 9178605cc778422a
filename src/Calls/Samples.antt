-- ===== src/Calls/Samples.antt =====
-- A trace with a fee transfer and failures at three levels, and the results at it.
use starkloupe_server.Common.{ℕ, ◌≡◌, refl, codes, none, some, [], nat_eq}
use starkloupe_server.Common.Maps.{get, insert, modify}
use starkloupe_server.Calls.{
  CallTrace, TraceDataCallResult, success, failure, CallTraceNodes, nil, entry_point_call, leaf,
  flame, FlameChartNodes, strk_fee_token_address,
}
use starkloupe_server.Calls.Builder.{
  Builder, new_from_cheatnet_state, register_call, traverse, close_flame,
}
use starkloupe_server.Calls.Built.{numbered}
use starkloupe_server.Calls.Tree.{
  IsTree, new_from_cheatnet_state-IsTree, contract_calls_map-numbered, deepest_failed-reported,
  flamechart-chart_of,
}

abbrev trace : TraceDataCallResult → ℕ → ℕ → CallTrace
trace result address gas = record {
  entry_point = record {
    class_hash = some 7;
    code_address = some address;
    storage_address = address;
    entry_point_selector = 1;
    calldata = [];
  };
  result = result;
  gas_consumed = gas;
  vm_trace = none;
  vm_memory = none;
}

abbrev fails : TraceDataCallResult
fails = failure (codes "ENTRYPOINT_FAILED")

-- Call 2 fails at level 1, 3 at level 2, 4 at level 3; call 5 is the fee transfer; 6 fails at
-- level 2.
abbrev nested : CallTraceNodes
nested =
    entry_point_call (trace fails 20 10)
      (entry_point_call (trace fails 30 20) (entry_point_call (trace fails 40 30) nil nil) nil)
      (entry_point_call (trace (success []) strk_fee_token_address 5)
        (entry_point_call (trace fails 50 40) nil nil) nil)

abbrev root : CallTrace
root = trace (success []) 1 100

result : Builder × FlameChartNodes
unfolding new_from_cheatnet_state register_call traverse close_flame insert modify get
result = elim (new_from_cheatnet_state root nested leaf) [
  | some s ↦ s
  | none ↦ (
    record {
      contract_calls_map = [];
      next_call_id = 0;
      deepest_failed_contract_call_id = none;
      deepest_failed_nesting_level = 0;
    },
    leaf,
  )
]

returns : new_from_cheatnet_state root nested leaf ≡ some (result.0, result.1)
unfolding result
returns = refl

new_from_cheatnet_state-IsTree_example :
    (b : Builder) × (chart' : FlameChartNodes) × (new_from_cheatnet_state root nested leaf
      ≡ some (b, chart'))
    × IsTree nested b
new_from_cheatnet_state-IsTree_example = new_from_cheatnet_state-IsTree root nested leaf

contract_calls_map-numbered_example : get 4 result.0.contract_calls_map ≡ numbered root nested 4
contract_calls_map-numbered_example =
    contract_calls_map-numbered root nested leaf result.0 result.1 returns 4

-- The deepest failure is call 4, at level 3; the code reports call 6, at level 2.
deepest_failed-reported_example : result.0.deepest_failed_contract_call_id ≡ some 6
deepest_failed-reported_example = deepest_failed-reported root nested leaf result.0 result.1 returns

flamechart-chart_of_example :
    result.1 ≡ flame 2 10 (flame 3 20 (flame 4 30 leaf leaf) leaf) (flame 6 40 leaf leaf)
flamechart-chart_of_example = flamechart-chart_of root nested leaf result.0 result.1 returns
