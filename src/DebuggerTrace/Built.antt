-- ===== src/DebuggerTrace/Built.antt =====
-- The results on the merged debugger trace.
use starkloupe_server.Common.{
  ℕ, ◌+◌, ◌≤◌, ◌≡◌, refl, sym, subst, ◌∙◌, ap, ◌⊎◌, inl, inr, Option, none, some, List, [], ◌∷◌,
  nat_eq, nat_beq, nat_beq_iff, Bool-cases, some_inj, All, All-map_weaken,
}
use starkloupe_server.Common.Maps.{Map, get, modify, get-modify_in}
use starkloupe_server.Common.Run.{done, Yields}
use starkloupe_server.Trace.{FunctionCall, FunctionCallsMap, DebuggerTraceEntry}
use starkloupe_server.Calls.{ContractCall, ContractCallsMap}
use starkloupe_server.DebuggerTrace.{
  DebuggerTraceBuilder, set_contract_steps, fill_step, fill_call, fill_function_steps,
  build_debugger_trace,
}
use starkloupe_server.DebuggerTrace.Merged.{IsIn, Shows, IsMergeable, AreOwned, merge-Keeps}

cons-IsIn : {V : Type 0} (j k : ℕ) (v : V) (m : Map ℕ V) → IsIn j m → IsIn j ((k, v) ∷ m)
unfolding get
cons-IsIn j k v m (w, at) = elim (Bool-cases (nat_beq k j)) [
  | inl e ↦ (v, rw (get, e) refl)
  | inr e ↦ (w, rw (get, e) at)
]

-- What holds of the keys that are found holds of the keys of all entries.
All-keys :
    {V : Type 0} (P : ℕ → Type 0) (m : Map ℕ V) → ((k : ℕ) → IsIn k m → P k) → All (λ (k, v). P k) m
unfolding get
All-keys P [] h = tt
All-keys P ((k, v) ∷ m) h = (
  h k (v, rw (get, (nat_beq_iff k k).1 refl) refl),
  All-keys P m (λ j known. h j (cons-IsIn j k v m known)),
)

set_contract_steps-Yields :
    (steps : Map ℕ ℕ) (calls : ContractCallsMap)
    → All (λ (k, i). IsIn k calls) steps
    → Yields (λ calls'. (k : ℕ) → IsIn k calls → IsIn k calls') (set_contract_steps steps calls)
unfolding set_contract_steps
set_contract_steps-Yields [] calls h = (calls, refl, λ k known. known)
set_contract_steps-Yields ((id, index) ∷ steps) calls h =
    let f : ContractCall → ContractCall =
      λ c. record c { debugger_trace_step_index = some index } in
    let carry : (k : ℕ) → IsIn k calls → IsIn k (modify id f calls) =
      λ k known. get-modify_in id k f calls known.1 in
    let (calls', eq, grows) = set_contract_steps-Yields steps (modify id f calls) (
      All-map_weaken (λ (k, i). IsIn k calls) (λ (k, i). IsIn k (modify id f calls))
        (λ (k, i). carry k) steps h.1) in
    (calls', rw (set_contract_steps, h.0.1) eq, λ k known. grows k (carry k known))

-- A function call of the built map is one of the merged map, or one without an index that takes over
-- that of its contract call.
abbrev pub IsFilled : ContractCallsMap → FunctionCallsMap → FunctionCallsMap → Type 0
IsFilled calls m m' =
    (k i : ℕ) (c' : FunctionCall)
    → get k m' ≡ some c'
    → c'.debugger_trace_step_index ≡ some i
    → ((c : FunctionCall) × (get k m ≡ some c) × (c.debugger_trace_step_index ≡ some i))
      ⊎ ((owner : ContractCall) × (get c'.contract_call_id calls ≡ some owner)
          × (owner.debugger_trace_step_index ≡ some i))

fill_call-Yields :
    (calls : ContractCallsMap) (c : FunctionCall) (known : Option ℕ)
    → c.debugger_trace_step_index ≡ known
    → IsIn c.contract_call_id calls
    → Yields
        (λ c'.
          (i : ℕ)
          → c'.debugger_trace_step_index ≡ some i
          → (c.debugger_trace_step_index ≡ some i)
            ⊎ ((owner : ContractCall) × (get c'.contract_call_id calls ≡ some owner)
                × (owner.debugger_trace_step_index ≡ some i)))
        (fill_call calls c known)
fill_call-Yields calls c (some j) same owned = (c, refl, λ i h. inl h)
fill_call-Yields calls c none same (owner, at) =
    (fill_step none owner c, rw (fill_call, at) refl, λ i h. inr (owner, at, h))

module _ (calls : ContractCallsMap) (id : ℕ) (c c' : FunctionCall) (m m' : FunctionCallsMap) where
  abbrev FromOwner : FunctionCall → ℕ → Type 0
  FromOwner d i =
      (owner : ContractCall) × (get d.contract_call_id calls ≡ some owner)
      × (owner.debugger_trace_step_index ≡ some i)

  IsFilled-cons :
      ((i : ℕ)
        → c'.debugger_trace_step_index ≡ some i
        → (c.debugger_trace_step_index ≡ some i) ⊎ FromOwner c' i)
      → IsFilled calls m m'
      → IsFilled calls ((id, c) ∷ m) ((id, c') ∷ m')
  unfolding get
  IsFilled-cons from rest k i d at step = elim (Bool-cases (nat_beq id k)) [
    | inl e ↦
        let same : c' ≡ d = some_inj (sym (rw (get, e) refl) ∙ at) in
        elim (from i (ap (λ x. x.debugger_trace_step_index) same ∙ step)) [
          | inl own ↦ inl (c, rw (get, e) refl, own)
          | inr owner ↦ inr (subst (λ x. FromOwner x i) same owner)
        ]
    | inr e ↦
        let at' : get k m' ≡ some d = sym (rw (get, e) refl) ∙ at in
        elim (rest k i d at' step) [
          | inl (x, there, own) ↦ inl (x, rw (get, e) there, own)
          | inr owner ↦ inr owner
        ]
  ]

fill-Yields :
    (calls : ContractCallsMap) (m : FunctionCallsMap)
    → All (λ (k, c). IsIn c.contract_call_id calls) m
    → Yields (IsFilled calls m) (fill_function_steps calls m)
unfolding fill_function_steps get
fill-Yields calls [] h = ([], refl, λ k i c' at step. absurd cc)
fill-Yields calls ((id, c) ∷ m) h =
    let (c', eq, from) = fill_call-Yields calls c c.debugger_trace_step_index refl h.0 in
    let (m', eq', rest) = fill-Yields calls m h.1 in
    (
      (id, c') ∷ m',
      rw (fill_function_steps, eq, eq') refl,
      IsFilled-cons calls id c c' m m' from rest,
    )

module _ (functions : FunctionCallsMap) (calls : ContractCallsMap) (bound id fuel : ℕ)
    (mergeable : IsMergeable functions calls bound) (owned : AreOwned functions calls functions)
    (fresh : (k : ℕ) (c : FunctionCall)
      → get k functions ≡ some c
      → c.debugger_trace_step_index ≡ none)
    (known : IsIn id calls) (enough : bound ≤ id + fuel) where
  -- Let the contract calls be numbered below `bound`, each before the calls inside it, let the
  -- execution traces name calls of the maps only, every function call belong to a contract call of the
  -- map and none have a step index. Then for a contract call `id` of the map and fuel of at least
  -- `bound - id`, the builder returns, and a function call that has a step index afterwards either has
  -- the index of an entry of its own in the trace, or the index of its contract call.
  pub build_debugger_trace-done :
      (trace : List DebuggerTraceEntry) × (functions' : FunctionCallsMap)
      × (calls' : ContractCallsMap) × (build_debugger_trace fuel id functions calls
          ≡ done (trace, (functions', calls')))
      × ((k i : ℕ) (c : FunctionCall)
          → get k functions' ≡ some c
          → c.debugger_trace_step_index ≡ some i
          → Shows trace i k
            ⊎ ((owner : ContractCall) × (get c.contract_call_id calls' ≡ some owner)
                × (owner.debugger_trace_step_index ≡ some i)))
  unfolding build_debugger_trace get
  build_debugger_trace-done =
      let start : DebuggerTraceBuilder = record {
        contract_calls_debugger_trace_step_index_map = [];
        trace = [];
        function_calls_map = functions;
      } in
      let (b, eq, kept) =
        merge-Keeps functions calls bound fuel id start mergeable enough known (record {
          shown = λ k i c at step. absurd (absent (sym (fresh k c at) ∙ step));
          kept = λ k h. h;
          entered = λ k i h. absurd (absent h);
          owned = owned;
        }) in
      let steps = b.contract_calls_debugger_trace_step_index_map in
      let (calls', eq', grows) =
        set_contract_steps-Yields steps calls
          (All-keys (λ k. IsIn k calls) steps (λ k (i, at). kept.entered k i at)) in
      let (functions', eq'', filled) = fill-Yields calls' b.function_calls_map (
        All-map_weaken (λ (k, c). IsIn c.contract_call_id calls)
          (λ (k, c). IsIn c.contract_call_id calls') (λ (k, c). grows c.contract_call_id)
          b.function_calls_map kept.owned) in
      (
        b.trace,
        functions',
        calls',
        rw (build_debugger_trace, eq, eq', eq'') refl,
        λ k i c at step. elim (filled k i c at step) [
          | inl (d, at', own) ↦ inl (kept.shown k i d at' own)
          | inr owner ↦ inr owner
        ],
      )
    where
      absent : {A : Type 0} {a : A} → none ≡ some a → ⊥
      absent h = cc
