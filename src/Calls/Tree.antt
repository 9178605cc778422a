-- ===== src/Calls/Tree.antt =====
-- The results on the contract call builder.
use starkloupe_server.Common.{ℕ, ◌+◌, ◌<◌, ◌≡◌, refl, sym, ◌∙◌, subst, some_inj, some, nat_eq}
use starkloupe_server.Common.Maps.{get}
use starkloupe_server.Calls.{
  CallTrace, CallTraceNodes, ContractCall, FlameChartNodes, from_cheatnet_state_calltrace,
}
use starkloupe_server.Calls.Builder.{Builder, new_from_cheatnet_state}
use starkloupe_server.Calls.Spec.{size}
use starkloupe_server.Calls.Flame.{append_flames, chart_of, failures, reported}
use starkloupe_server.Calls.Built.{numbered, root_call, Built, new_from_cheatnet_state-Built}
use starkloupe_server.Calls.Links.{IsParent, numbered-bounds, numbered-IsParent}

-- The map that the builder returns: its counter, and that its calls form a tree with root 1.
pub record IsTree (nested : CallTraceNodes) (b : Builder) : Type 0 where
  pub next : b.next_call_id ≡ 2 + size nested
  pub bounds :
      (k : ℕ) (c : ContractCall)
      → get k b.contract_calls_map ≡ some c
      → (c.call_id ≡ k) × (0 < k) × (c.parent_call_id < k)
  pub root :
      (r : ContractCall) × (get 1 b.contract_calls_map ≡ some r)
      × (r.contract_calls_nesting_level ≡ 0)
  pub parents :
      (k : ℕ) (c : ContractCall)
      → get k b.contract_calls_map ≡ some c
      → 1 < k
      → (p : ContractCall) × (get c.parent_call_id b.contract_calls_map ≡ some p) × IsParent p k c

-- The builder returns for every recorded trace (no `unwrap` fails), and its map is a tree of the
-- trace's calls: the counter is 2 more than the number of nested calls; each call is stored under
-- its own id, which is positive and above its parent's; call 1 is at nesting level 0; every other
-- call is among the children of its parent, which is in the map one nesting level above.
pub new_from_cheatnet_state-IsTree :
    (t : CallTrace) (nested : CallTraceNodes) (chart : FlameChartNodes)
    → (b : Builder) × (chart' : FlameChartNodes) × (new_from_cheatnet_state t nested chart
        ≡ some (b, chart'))
      × IsTree nested b
unfolding from_cheatnet_state_calltrace
new_from_cheatnet_state-IsTree t nested chart =
    let (b, chart', e, built) = new_from_cheatnet_state-Built t nested chart in
    (
      b,
      chart',
      e,
      record {
        next = built.next;
        bounds = λ k c h. numbered-bounds t nested k c (sym (built.calls k) ∙ h);
        root = (root_call t nested, built.calls 1, refl);
        parents = λ k c h after.
            let (p, at, par) = numbered-IsParent t nested k c after (sym (built.calls k) ∙ h) in
            (p, built.calls c.parent_call_id ∙ at, par);
      },
    )

module _ (t : CallTrace) (nested : CallTraceNodes) (chart : FlameChartNodes) (b : Builder)
    (chart' : FlameChartNodes)
    (returns : new_from_cheatnet_state t nested chart ≡ some (b, chart')) where
  built : Built t nested chart b chart'
  built =
      let (b₀, c₀, e, r) = new_from_cheatnet_state-Built t nested chart in
      subst (λ (s : Builder × FlameChartNodes). Built t nested chart s.0 s.1)
        (some_inj (sym e ∙ returns)) r

  -- If the builder returns `b`, the call under each id `k` is the one that the preorder numbering
  -- of the trace gives: the root under 1, the nested calls from 2 on with the ids of their direct
  -- children, and nothing under 0 or past the last call.
  pub contract_calls_map-numbered : (k : ℕ) → get k b.contract_calls_map ≡ numbered t nested k
  contract_calls_map-numbered = built.calls

  -- If the builder returns `b`, its deepest failed call is absent if and only if no nested call
  -- failed; otherwise it is the last failed call that is nested deeper than the first failed one,
  -- and the first failed one if there is no such call.
  pub deepest_failed-reported : b.deepest_failed_contract_call_id ≡ reported (failures 2 0 nested)
  deepest_failed-reported = built.deepest

  -- If the builder returns a flame chart, it is the chart it was given, followed by one node for
  -- each call that is not hidden, in the order and nesting of the trace; the nodes of calls inside
  -- a hidden call stand in that call's place.
  pub flamechart-chart_of : chart' ≡ append_flames chart (chart_of 2 nested)
  flamechart-chart_of = built.flames
