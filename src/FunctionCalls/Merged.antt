-- ===== src/FunctionCalls/Merged.antt =====
-- The deepest panic and the deepest failed contract call, put together.
use starkloupe_server.Common.{
  ℕ, ◌≤◌, ◌≡◌, refl, ◌∙◌, inl, inr, Bool, true, false, some, leb, Bool-cases, arith, nat_eq,
  nat_beq, none, subst, ◌↔◌, nat_beq_iff, if◌then◌else◌,
}
use starkloupe_server.Common.Maps.{get, get-modify}
use starkloupe_server.Trace.{FunctionCall, FunctionCallsMap}
use starkloupe_server.Calls.{ContractCall, ContractCallsMap}
use starkloupe_server.FunctionCalls.Driver.{mark_panic, merge_deepest_panic}

get-mark_panic :
    (flag : Bool) (id j : ℕ) (functions : FunctionCallsMap) (c : FunctionCall)
    → get id functions ≡ some c
    → get j (mark_panic flag id functions) ≡ (
        if nat_beq id j
        then some (record c { is_deepest_panic_result = flag })
        else get j functions)
get-mark_panic flag id j functions c at = elim (Bool-cases (nat_beq id j)) [
  | inl e ↦
      get-modify id j (λ d. record d { is_deepest_panic_result = flag }) functions
      ∙ rw (e, subst (λ k. get k functions ≡ some c) ((nat_beq_iff id j).0 e) at) refl
  | inr e ↦ get-modify id j (λ d. record d { is_deepest_panic_result = flag }) functions ∙ rw e refl
]

module _ (f failed : ℕ) (functions : FunctionCallsMap) (calls : ContractCallsMap) (c : FunctionCall)
    (owner other : ContractCall) (found : get f functions ≡ some c)
    (owned : get c.contract_call_id calls ≡ some owner)
    (known : get failed calls ≡ some other) where
  -- If the function call of the deepest panic, its contract call and the deepest failed contract call
  -- are in the maps, the function call is marked as the deepest panic exactly if its contract call is at
  -- least as deep as the failed one, and no other function call changes. The contract call that is
  -- reported is the one of the function call if that is marked, else the failed one, and is at least as
  -- deep as both. Without a failed contract call, the one of the function call is reported, and no
  -- function call changes.
  pub merge_deepest_panic-deepest :
      ((k : ℕ) × (r : ContractCall) × (c' : FunctionCall) × ((merge_deepest_panic
            (some f)
            (some failed)
            calls
            functions).0
          ≡ some k)
        × (get k calls ≡ some r)
        × (owner.contract_calls_nesting_level ≤ r.contract_calls_nesting_level)
        × (other.contract_calls_nesting_level ≤ r.contract_calls_nesting_level)
        × ((j : ℕ)
            → get j (merge_deepest_panic (some f) (some failed) calls functions).1
              ≡ (if nat_beq f j then some c' else get j functions))
        × ((c'.is_deepest_panic_result ≡ true)
            ↔ (other.contract_calls_nesting_level ≤ owner.contract_calls_nesting_level))
        × (k ≡ (if c'.is_deepest_panic_result then c.contract_call_id else failed)))
      × (merge_deepest_panic (some f) none calls functions ≡ (some c.contract_call_id, functions))
  unfolding merge_deepest_panic
  merge_deepest_panic-deepest =
      let deeper = leb other.contract_calls_nesting_level owner.contract_calls_nesting_level in
      (
        elim (Bool-cases deeper) [
          | inl e ↦ (
            c.contract_call_id,
            owner,
            record c { is_deepest_panic_result = true },
            rw (merge_deepest_panic, found, owned, known, e) refl,
            owned,
            omega arith,
            ground arith,
            λ j.
                rw (merge_deepest_panic, found, owned, known, e)
                  (get-mark_panic true f j functions c found),
            ground arith,
            refl,
          )
          | inr e ↦ (
            failed,
            other,
            record c { is_deepest_panic_result = false },
            rw (merge_deepest_panic, found, owned, known, e) refl,
            known,
            ground arith,
            omega arith,
            λ j.
                rw (merge_deepest_panic, found, owned, known, e)
                  (get-mark_panic false f j functions c found),
            ground arith,
            refl,
          )
        ],
        rw (merge_deepest_panic, found, owned) refl,
      )
