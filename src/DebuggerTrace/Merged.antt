-- ===== src/DebuggerTrace/Merged.antt =====
-- Merging the traces of a tree of contract calls returns, and each function call's step index points at
-- an entry of that call.
use starkloupe_server.Common.{
  ℕ, zero, suc, ◌+◌, ◌≤◌, ◌<◌, ◌≡◌, refl, sym, subst, ◌∙◌, ap, inl, inr, Option, none, some, List,
  [], ◌∷◌, ◌++◌, nat_eq, nat_beq, nat_beq_iff, if◌then◌else◌, Bool-cases, some_inj, arith, length,
  get_elem?, All, Text,
}
use starkloupe_server.Common.Maps.{Map, get, modify, get-insert, get-modify_inv, get-modify_in}
use starkloupe_server.Common.Run.{Run, Yields}
use starkloupe_server.Trace.{
  FunctionCall, FunctionCallsMap, DebuggerTraceEntry, DebuggerTraceEntryWithLocation, with_location,
  with_contract_call,
}
use starkloupe_server.Calls.{ContractCall, ContractCallsMap}
use starkloupe_server.DebuggerTrace.{
  DebuggerTraceBuilder, set_step, set_first_step, insert_first, visit_step, visit_steps,
  merge_children, push_reason, merge_call, merge_debugger_trace,
}

abbrev pub IsIn : {V : Type 0} → ℕ → Map ℕ V → Type 0
IsIn {V = V} k m = (v : V) × (get k m ≡ some v)

-- The entry at an index of the trace is one of the function call `k`.
abbrev pub Shows : List DebuggerTraceEntry → ℕ → ℕ → Type 0
Shows trace i k =
    (e : DebuggerTraceEntryWithLocation) × (get_elem? trace i ≡ some (with_location e))
    × (e.function_call_id ≡ k)

module _ (functions : FunctionCallsMap) (calls : ContractCallsMap) where
  -- A step of the call `k`: its function call is in the map; a contract call inside is a later one.
  abbrev pub StepIsIn : ℕ → DebuggerTraceEntry → Type 0
  StepIsIn k (with_location e) = IsIn e.function_call_id functions
  StepIsIn k (with_contract_call child reason) = (k < child) × IsIn child calls

  abbrev pub StepsAreIn : ℕ → Option (List DebuggerTraceEntry) → Type 0
  StepsAreIn k none = Unit
  StepsAreIn k (some es) = All (StepIsIn k) es

  -- The contract calls are numbered below `bound`, each before the calls inside it, and the traces name
  -- function calls and contract calls of the maps.
  pub record IsMergeable (bound : ℕ) : Type 0 where
    pub below : (k : ℕ) (c : ContractCall) → get k calls ≡ some c → k < bound
    pub children :
        (k : ℕ) (c : ContractCall)
        → get k calls ≡ some c
        → All (λ j. (k < j) × IsIn j calls) c.children_call_ids
    pub steps :
        (k : ℕ) (c : ContractCall) → get k calls ≡ some c → StepsAreIn k c.call_debugger_data

  -- Every function call belongs to a contract call of the map.
  abbrev pub AreOwned : FunctionCallsMap → Type 0
  AreOwned m = All (λ (k, c). IsIn c.contract_call_id calls) m

  pub record IsIndexed (b : DebuggerTraceBuilder) : Type 0 where
    pub shown :
        (k i : ℕ) (c : FunctionCall)
        → get k b.function_calls_map ≡ some c
        → c.debugger_trace_step_index ≡ some i
        → Shows b.trace i k
    pub kept : (k : ℕ) → IsIn k functions → IsIn k b.function_calls_map
    pub entered :
        (k i : ℕ) → get k b.contract_calls_debugger_trace_step_index_map ≡ some i → IsIn k calls
    pub owned : AreOwned b.function_calls_map

get_elem?-append :
    (xs ys : List DebuggerTraceEntry) (i : ℕ) (x : DebuggerTraceEntry)
    → get_elem? xs i ≡ some x
    → get_elem? (xs ++ ys) i ≡ some x
get_elem?-append [] ys i x h = absurd cc
get_elem?-append (y ∷ xs) ys zero x h = h
get_elem?-append (y ∷ xs) ys (suc i) x h = get_elem?-append xs ys i x h

get_elem?-last :
    (xs : List DebuggerTraceEntry) (x : DebuggerTraceEntry)
    → get_elem? (xs ++ x ∷ []) (length xs) ≡ some x
get_elem?-last [] x = refl
get_elem?-last (y ∷ xs) x = get_elem?-last xs x

Shows-append :
    (trace es : List DebuggerTraceEntry) (i k : ℕ) → Shows trace i k → Shows (trace ++ es) i k
Shows-append trace es i k (e, at, same) =
    (e, get_elem?-append trace es i (with_location e) at, same)

-- The step index after a location of the call is pushed
set_step-Shows :
    (trace : List DebuggerTraceEntry) (e : DebuggerTraceEntryWithLocation) (i : ℕ)
    (known : Option ℕ) (c : FunctionCall)
    → ((j : ℕ) → known ≡ some j → Shows trace j e.function_call_id)
    → c.debugger_trace_step_index ≡ known
    → ((set_step (length trace) known c).debugger_trace_step_index) ≡ some i
    → Shows (trace ++ with_location e ∷ []) i e.function_call_id
set_step-Shows trace e i none c old same h = (
  e,
  ap (get_elem? (trace ++ with_location e ∷ [])) (sym (some_inj h))
      ∙ get_elem?-last trace (with_location e),
  refl,
)
set_step-Shows trace e i (some j) c old same h =
    Shows-append trace (with_location e ∷ []) i e.function_call_id (old i (sym same ∙ h))

module _ (functions : FunctionCallsMap) (calls : ContractCallsMap) where
  pushed-shown :
      (b : DebuggerTraceBuilder) (e : DebuggerTraceEntryWithLocation) (k i : ℕ) (c : FunctionCall)
      → IsIndexed functions calls b
      → get k (modify e.function_call_id (set_first_step (length b.trace)) b.function_calls_map)
        ≡ some c
      → c.debugger_trace_step_index ≡ some i
      → Shows (b.trace ++ with_location e ∷ []) i k
  pushed-shown b e k i c kept at step =
      let id = e.function_call_id in
      let f = set_first_step (length b.trace) in
      let (v, at', from) = get-modify_inv id k f b.function_calls_map at in
      elim from [
        | inr same ↦
            Shows-append b.trace (with_location e ∷ []) i k
              (kept.shown k i v at' (ap (λ x. x.debugger_trace_step_index) (sym same) ∙ step))
        | inl (here, same) ↦
            subst (λ j. Shows (b.trace ++ with_location e ∷ []) i j) here
              (set_step-Shows b.trace e i v.debugger_trace_step_index v
                (λ j h. subst (λ x. Shows b.trace j x) (sym here) (kept.shown k j v at' h)) refl
                (ap (λ x. x.debugger_trace_step_index) (sym same) ∙ step))
      ]

  set_step-owned :
      (index : ℕ) (known : Option ℕ) (c : FunctionCall)
      → IsIn c.contract_call_id calls
      → IsIn ((set_step index known c).contract_call_id) calls
  set_step-owned index none c h = h
  set_step-owned index (some i) c h = h

  modify-AreOwned :
      (id index : ℕ) (m : FunctionCallsMap)
      → AreOwned functions calls m
      → AreOwned functions calls (modify id (set_first_step index) m)
  unfolding modify
  modify-AreOwned id index [] h = tt
  modify-AreOwned id index ((k, c) ∷ m) h = elim (Bool-cases (nat_beq k id)) [
    | inl e ↦ rw (modify, e) (set_step-owned index c.debugger_trace_step_index c h.0, h.1)
    | inr e ↦ rw (modify, e) (h.0, modify-AreOwned id index m h.1)
  ]

  entered-IsIn :
      (id index : ℕ) (known : Option ℕ) (b : DebuggerTraceBuilder) (k i : ℕ)
      → IsIn id calls
      → IsIndexed functions calls b
      → get k (insert_first id index known b.contract_calls_debugger_trace_step_index_map) ≡ some i
      → IsIn k calls
  entered-IsIn id index (some j) b k i here kept h = kept.entered k i h
  entered-IsIn id index none b k i here kept h =
      let steps = b.contract_calls_debugger_trace_step_index_map in
      let at : (if nat_beq id k then some index else get k steps) ≡ some i =
        sym (get-insert id k index steps) ∙ h in
      elim (Bool-cases (nat_beq id k)) [
        | inl e ↦ subst (λ j. IsIn j calls) ((nat_beq_iff id k).0 e) here
        | inr e ↦ kept.entered k i (sym (rw e refl) ∙ at)
      ]

  visit_location-Keeps :
      (id : ℕ) (e : DebuggerTraceEntryWithLocation) (b : DebuggerTraceBuilder)
      (merge : ℕ → DebuggerTraceBuilder → Run DebuggerTraceBuilder)
      → IsIn id calls
      → IsIn e.function_call_id functions
      → IsIndexed functions calls b
      → Yields (IsIndexed functions calls) (visit_step merge id (with_location e) b)
  unfolding visit_step
  visit_location-Keeps id e b merge here known kept =
      let (c, at) = kept.kept e.function_call_id known in
      let steps = b.contract_calls_debugger_trace_step_index_map in
      (
        record {
          contract_calls_debugger_trace_step_index_map =
              insert_first id (length b.trace) (get id steps) steps;
          trace = b.trace ++ with_location e ∷ [];
          function_calls_map =
              modify e.function_call_id (set_first_step (length b.trace)) b.function_calls_map;
        },
        rw (visit_step, at) refl,
        record {
          shown = λ k i c' h step. pushed-shown b e k i c' kept h step;
          kept = λ k h.
              let (c', at') = kept.kept k h in
              get-modify_in e.function_call_id k (set_first_step (length b.trace))
                b.function_calls_map at';
          entered = λ k i h. entered-IsIn id (length b.trace) (get id steps) b k i here kept h;
          owned =
              modify-AreOwned e.function_call_id (length b.trace) b.function_calls_map kept.owned;
        },
      )

  push_reason-IsIndexed :
      (id : ℕ) (reason : Text) (b : DebuggerTraceBuilder)
      → IsIndexed functions calls b
      → IsIndexed functions calls (push_reason id reason b)
  push_reason-IsIndexed id reason b kept = record {
    shown = λ k i c h step.
        Shows-append b.trace (with_contract_call id (some reason) ∷ []) i k
          (kept.shown k i c h step);
    kept = kept.kept;
    entered = kept.entered;
    owned = kept.owned;
  }

  module _ (id : ℕ) (here : IsIn id calls)
      (merge : ℕ → DebuggerTraceBuilder → Run DebuggerTraceBuilder)
      (merges : (j : ℕ) (b : DebuggerTraceBuilder)
        → id < j
        → IsIn j calls
        → IsIndexed functions calls b
        → Yields (IsIndexed functions calls) (merge j b)) where
    visit_steps-Keeps :
        (es : List DebuggerTraceEntry) (b : DebuggerTraceBuilder)
        → All (StepIsIn functions calls id) es
        → IsIndexed functions calls b
        → Yields (IsIndexed functions calls) (visit_steps merge id es b)
    unfolding visit_steps visit_step
    visit_steps-Keeps [] b steps kept = (b, refl, kept)
    visit_steps-Keeps (with_location e ∷ es) b steps kept =
        let (b', eq, k) = visit_location-Keeps id e b merge here steps.0 kept in
        rw (visit_steps, eq) (visit_steps-Keeps es b' steps.1 k)
    visit_steps-Keeps (with_contract_call j reason ∷ es) b steps kept =
        let (b', eq, k) = merges j b steps.0.0 steps.0.1 kept in
        rw (visit_steps, visit_step, eq) (visit_steps-Keeps es b' steps.1 k)

    merge_children-Keeps :
        (children : List ℕ) (b : DebuggerTraceBuilder)
        → All (λ j. (id < j) × IsIn j calls) children
        → IsIndexed functions calls b
        → Yields (IsIndexed functions calls) (merge_children merge children b)
    unfolding merge_children
    merge_children-Keeps [] b in_ kept = (b, refl, kept)
    merge_children-Keeps (j ∷ children) b in_ kept =
        let (b', eq, k) = merges j b in_.0.0 in_.0.1 kept in
        rw (merge_children, eq) (merge_children-Keeps children b' in_.1 k)

    merge_call-Keeps :
        (children : List ℕ) (data_ : Option (List DebuggerTraceEntry)) (b : DebuggerTraceBuilder)
        → All (λ j. (id < j) × IsIn j calls) children
        → StepsAreIn functions calls id data_
        → IsIndexed functions calls b
        → Yields (IsIndexed functions calls) (merge_call merge id children data_ b)
    unfolding merge_call
    merge_call-Keeps children none b in_ steps kept =
        merge_children-Keeps children _ in_ (push_reason-IsIndexed id _ b kept)
    merge_call-Keeps children (some []) b in_ steps kept =
        merge_children-Keeps children _ in_ (push_reason-IsIndexed id _ b kept)
    merge_call-Keeps children (some (e ∷ es)) b in_ steps kept =
        visit_steps-Keeps (e ∷ es) b steps kept

  -- Enough fuel reaches the last call.
  pub merge-Keeps :
      (bound fuel id : ℕ) (b : DebuggerTraceBuilder)
      → IsMergeable functions calls bound
      → bound ≤ id + fuel
      → IsIn id calls
      → IsIndexed functions calls b
      → Yields (IsIndexed functions calls) (merge_debugger_trace fuel calls id b)
  unfolding merge_debugger_trace
  merge-Keeps bound zero id b ok enough (c, at) kept =
      absurd (omega (arith, enough, ok.below id c at))
  merge-Keeps bound (suc fuel) id b ok enough (c, at) kept =
      rw (merge_debugger_trace, at)
        (merge_call-Keeps id (c, at) (merge_debugger_trace fuel calls)
          (λ j b' less known k.
            merge-Keeps bound fuel j b' ok (omega (arith, less, enough)) known k)
          c.children_call_ids c.call_debugger_data b (ok.children id c at) (ok.steps id c at) kept)
