-- ===== src/Calls/Lookup.antt =====
-- The map after the calls of one level, from the map after the nested calls.
use starkloupe_server.Common.{ℕ, ◌+◌, ◌≤◌, ◌≡◌, refl, none, [], ◌∷◌, ◌++◌, arith, nat_eq}
use starkloupe_server.Common.Maps.{get}
use starkloupe_server.Calls.{
  CallTrace, CallTraceNodes, nil, entry_point_call, deploy_without_constructor, ContractCall,
  from_cheatnet_state_calltrace,
}
use starkloupe_server.Calls.Builder.{Builder, new_call}
use starkloupe_server.Calls.Spec.{size, child_ids, call_at}
use starkloupe_server.Calls.Register.{IsReady, Traversed, append_children-append, Registered}

-- Outside its ids a forest has no call.
call_at-none :
    (nodes : CallTraceNodes) (n parent level k : ℕ)
    → n + size nodes ≤ k
    → call_at n parent level nodes k ≡ none
call_at-none nil n parent level k h = refl
call_at-none (deploy_without_constructor rest) n parent level k h =
    call_at-none rest n parent level k h
call_at-none (entry_point_call t inner rest) n parent level k h =
    ground (arith, call_at-none rest (n + 1 + size inner) parent level k)

-- The call that `add_child` has written to.
abbrev with_child : ℕ → ContractCall → ContractCall
with_child id c = record c { children_call_ids = c.children_call_ids ++ id ∷ [] }

module _ (t : CallTrace) (inner : CallTraceNodes) (parent level : ℕ) {b b₁ : Builder}
    (r : IsReady parent b) (reg : Registered t parent level b b₁) where
  pub IsReady-inner : IsReady b.next_call_id b₁
  IsReady-inner = record {
    positive = omega (arith, r.below);
    below = omega (arith, reg.next);
    present =
        (new_call t b.next_call_id parent level, ground (arith, r.below, reg.calls b.next_call_id));
    fresh = λ k h. ground (arith, reg.next, r.below, reg.calls k, r.fresh k);
  }

module _ (t : CallTrace) (inner : CallTraceNodes) (parent level : ℕ) {b b₁ b₂ : Builder}
    (r : IsReady parent b) (reg : Registered t parent level b b₁)
    (tr : Traversed b.next_call_id (level + 1) inner b₁ b₂) where
  pub IsReady-rest : IsReady parent b₂
  IsReady-rest = record {
    positive = r.positive;
    below = omega (arith, r.below, reg.next, tr.next);
    present = (
      with_child b.next_call_id r.present.0,
      ground (arith, reg.next, r.below, r.present.1, tr.calls parent, reg.calls parent),
    );
    fresh = λ k h. ground (
      arith,
      reg.next,
      tr.next,
      r.below,
      tr.calls k,
      call_at-none inner b₁.next_call_id b.next_call_id (level + 1) k,
    );
  }

  pub Traversed-call :
      (rest : CallTraceNodes) {b₃ : Builder}
      → Traversed parent level rest b₂ b₃
      → Traversed parent level (entry_point_call t inner rest) b b₃
  unfolding from_cheatnet_state_calltrace
  Traversed-call rest tr' = record {
    next = omega (arith, reg.next, tr.next, tr'.next);
    calls = λ k. ground (
      arith,
      r.below,
      reg.next,
      tr.next,
      reg.calls k,
      tr.calls k,
      tr'.calls k,
      append_children-append (b.next_call_id ∷ []) (child_ids b₂.next_call_id rest)
          (get k b.contract_calls_map),
    );
  }
