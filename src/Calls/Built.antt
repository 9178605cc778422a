-- ===== src/Calls/Built.antt =====
-- `new_from_cheatnet_state` as a whole, in terms of the recorded trace.
use starkloupe_server.Common.{
  ℕ, ◌+◌, ◌≡◌, refl, ◌∙◌, true, Option, none, some, ltb, nat_beq, if◌then◌else◌, arith, nat_eq, ap,
}
use starkloupe_server.Common.Maps.{get, insert}
use starkloupe_server.Calls.{
  CallTrace, CallTraceNodes, ContractCall, from_cheatnet_state_calltrace, FlameChartNodes,
}
use starkloupe_server.Calls.Builder.{Builder, start, new_from_cheatnet_state}
use starkloupe_server.Calls.Spec.{size, child_ids, call_at}
use starkloupe_server.Calls.Register.{IsReady}
use starkloupe_server.Calls.Total.{traverse_total}
use starkloupe_server.Calls.Flame.{append_flames, chart_of, failures, reported}
use starkloupe_server.Calls.Deepest.{note_all-none}

-- The root call, number 1, with its children.
abbrev pub root_call : CallTrace → CallTraceNodes → ContractCall
root_call t nested = record (from_cheatnet_state_calltrace t 1 0 0 true) {
  children_call_ids = child_ids 2 nested;
}

-- The map of a trace by its numbering: no call 0, the root, then the nested calls.
abbrev pub numbered : CallTrace → CallTraceNodes → ℕ → Option ContractCall
numbered t nested k =
    if nat_beq 1 k
    then some (root_call t nested)
    else if ltb k 2
    then none
    else call_at 2 1 0 nested k

start-IsReady : (t : CallTrace) → IsReady 1 (start t)
unfolding start get insert
start-IsReady t = record {
  positive = omega arith;
  below = omega arith;
  present = (from_cheatnet_state_calltrace t 1 0 0 true, refl);
  fresh = λ k h. ground arith;
}

get-start :
    (t : CallTrace) (k : ℕ)
    → get k (start t).contract_calls_map
      ≡ (if nat_beq 1 k then some (from_cheatnet_state_calltrace t 1 0 0 true) else none)
unfolding start get insert
get-start t k = refl

-- What the builder returns, in terms of the recorded trace alone.
pub record Built (t : CallTrace) (nested : CallTraceNodes) (chart : FlameChartNodes) (b : Builder)
    (chart' : FlameChartNodes) : Type 0 where
  pub next : b.next_call_id ≡ 2 + size nested
  pub calls : (k : ℕ) → get k b.contract_calls_map ≡ numbered t nested k
  pub deepest : b.deepest_failed_contract_call_id ≡ reported (failures 2 0 nested)
  pub flames : chart' ≡ append_flames chart (chart_of 2 nested)

pub new_from_cheatnet_state-Built :
    (t : CallTrace) (nested : CallTraceNodes) (chart : FlameChartNodes)
    → (b : Builder) × (chart' : FlameChartNodes) × (new_from_cheatnet_state t nested chart
        ≡ some (b, chart'))
      × Built t nested chart b chart'
unfolding new_from_cheatnet_state from_cheatnet_state_calltrace
new_from_cheatnet_state-Built t nested chart =
    let (b, chart', e, tr, s) = traverse_total nested 1 0 chart (start t) (start-IsReady t) in
    (
      b,
      chart',
      e,
      record {
        next = tr.next;
        calls = λ k. ground (arith, tr.calls k, get-start t k);
        deepest = ap (λ d. d.0) s.deepest ∙ note_all-none (failures 2 0 nested);
        flames = s.flames;
      },
    )
