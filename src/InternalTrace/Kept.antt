-- ===== src/InternalTrace/Kept.antt =====
-- What the handlers of calls and returns keep: the forest, and that the ids of the state are known.
use starkloupe_server.Common.{
  ℕ, suc, ◌+◌, ◌≤◌, ◌≡◌, refl, sym, ◌∙◌, ap, ◌≢◌, ◌↔◌, ◌⊎◌, inl, inr, true, some, List, [], ◌∷◌,
  ◌++◌, nat_eq, text_eq, contains, arith, nat_beq_iff, Text, length,
}
use starkloupe_server.Common.Maps.{get, insert, modify, get-insert, get-modify}
use starkloupe_server.Common.Texts.{is_some}
use starkloupe_server.Common.Run.{done}
use starkloupe_server.Trace.{FunctionCall, FunctionCallsMap}
use starkloupe_server.InternalTrace.{CallTraceBuilder, Output, TraceState}
use starkloupe_server.InternalTrace.Calls.{modify_call, push_child}
use starkloupe_server.InternalTrace.Forest.{
  Known, HasParent, IsForest, Grows, MapGrows, MapGrows-same, modify-MapGrows, Known-grown,
  IsForest-grown, IsForest-inserted, get-kept,
}

-- The state of a run whose root has the id `r`, with `left` contract calls still to come.
pub record IsKept (b : CallTraceBuilder) (r left : ℕ) (o : Output) (ts : TraceState) : Type 0 where
  pub forest : IsForest o
  pub current : Known ts.current_call_id o.function_calls_map
  pub loops :
      (name : Text) (id : ℕ) → get name ts.loop_parent_map ≡ some id → Known id o.function_calls_map
  pub panic : (id : ℕ) → ts.deepest_panic_result_call_id ≡ some id → Known id o.function_calls_map
  pub reported :
      (id : ℕ) → ts.deepest_panic_function_call_id ≡ some id → Known id o.function_calls_map
  pub root : Known r o.function_calls_map
  pub root_id : ts.root_function_call_id ≡ r
  pub index : ts.contract_call_index + left ≤ length b.contract_call_children_ids
  pub debug : is_some ts.debugger_execution_trace ≡ b.debug_mode

abbrev pub Keeps : CallTraceBuilder → ℕ → ℕ → Output × TraceState → Type 0
Keeps b r left s = IsKept b r left s.0 s.1

pub modify_call-known :
    (id : ℕ) (f : FunctionCall → FunctionCall) (m : FunctionCallsMap)
    → Known id m
    → modify_call id f m ≡ done (modify id f m)
unfolding modify_call
modify_call-known id f m (c, h) = rw (modify_call, h) refl

pub contains_append :
    (k : ℕ) (xs : List ℕ) (x : ℕ)
    → contains k (xs ++ x ∷ []) ≡ true ↔ (contains k xs ≡ true) ⊎ (x ≡ k)
contains_append k [] x = ground (arith, nat_beq_iff x k)
contains_append k (y ∷ ys) x = ground (arith, contains_append k ys x)

pub push_child-Grows : (id : ℕ) (c : FunctionCall) → Grows c (push_child id c)
push_child-Grows id c = record {
  same_id = refl;
  same_parent = refl;
  children = λ k h. (contains_append k c.children_call_ids id).1 (inl h);
  events = λ k h. h;
}

-- What the invariant reads of the state, in two states.
pub record SameIds (ts ts' : TraceState) : Type 0 where
  pub current : ts'.current_call_id ≡ ts.current_call_id
  pub loops : ts'.loop_parent_map ≡ ts.loop_parent_map
  pub panic : ts'.deepest_panic_result_call_id ≡ ts.deepest_panic_result_call_id
  pub root : ts'.root_function_call_id ≡ ts.root_function_call_id
  pub index : ts'.contract_call_index ≡ ts.contract_call_index
  pub reported : ts'.deepest_panic_function_call_id ≡ ts.deepest_panic_function_call_id
  pub debug : is_some ts'.debugger_execution_trace ≡ is_some ts.debugger_execution_trace

pub IsKept-same :
    (b : CallTraceBuilder) (r left : ℕ) (o : Output) (ts ts' : TraceState)
    → SameIds ts ts'
    → IsKept b r left o ts
    → IsKept b r left o ts'
IsKept-same b r left o ts ts' same kept = record {
  forest = kept.forest;
  current = rw same.current kept.current;
  loops = λ name id h. kept.loops name id (sym (ap (get name) same.loops) ∙ h);
  panic = λ id h. kept.panic id (sym same.panic ∙ h);
  reported = λ id h. kept.reported id (sym same.reported ∙ h);
  root = kept.root;
  root_id = same.root ∙ kept.root_id;
  index = rw same.index kept.index;
  debug = same.debug ∙ kept.debug;
}

-- The state may move to another known call.
pub IsKept-moved :
    (b : CallTraceBuilder) (r left : ℕ) (o : Output) (ts : TraceState) (id : ℕ)
    → Known id o.function_calls_map
    → IsKept b r left o ts
    → IsKept b r left o (record ts { current_call_id = id })
IsKept-moved b r left o ts id known kept = record {
  forest = kept.forest;
  current = known;
  loops = kept.loops;
  panic = kept.panic;
  reported = kept.reported;
  root = kept.root;
  root_id = kept.root_id;
  index = kept.index;
  debug = kept.debug;
}

-- Calls that grow keep the state.
pub IsKept-grown :
    (b : CallTraceBuilder) (r left : ℕ) (o : Output) (ts : TraceState) (m : FunctionCallsMap)
    → MapGrows o.function_calls_map m
    → IsKept b r left o ts
    → IsKept b r left (record o { function_calls_map = m }) ts
IsKept-grown b r left o ts m grows kept =
    let carry = Known-grown o.function_calls_map m grows in
    record {
      forest = IsForest-grown o m grows kept.forest;
      current = carry ts.current_call_id kept.current;
      loops = λ name id h. carry id (kept.loops name id h);
      panic = λ id h. carry id (kept.panic id h);
      reported = λ id h. carry id (kept.reported id h);
      root = carry r kept.root;
      root_id = kept.root_id;
      index = kept.index;
      debug = kept.debug;
    }

-- The insertion of a call and the push of its id to the parent may be swapped.
modify-insert-swap :
    (cur new : ℕ) (v : FunctionCall) (f : FunctionCall → FunctionCall) (m : FunctionCallsMap)
    → cur ≢ new
    → (k : ℕ) → get k (modify cur f (insert new v m)) ≡ get k (insert new v (modify cur f m))
modify-insert-swap cur new v f m other k = ground (
  arith,
  get-modify cur k f (insert new v m),
  get-insert new k v m,
  get-insert new k v (modify cur f m),
  get-modify cur k f m,
  nat_beq_iff cur k,
  nat_beq_iff new k,
)

pushed :
    (o : Output) (cur : ℕ)
    → Known cur o.function_calls_map
    → (p : FunctionCall) × (get cur (modify cur (push_child o.next_call_id) o.function_calls_map)
        ≡ some p)
      × (contains o.next_call_id p.children_call_ids ≡ true)
pushed o cur (c, h) =
    let new = o.next_call_id in
    (
      push_child new c,
      get-modify cur cur (push_child new) o.function_calls_map
          ∙ rw ((nat_beq_iff cur cur).1 refl, h) refl,
      (contains_append new c.children_call_ids new).1 (inr refl),
    )

module _ (b : CallTraceBuilder) (r left : ℕ) (o : Output) (ts : TraceState)
    (kept : IsKept b r left o ts) where
  -- A call under the current one is inserted and becomes the current one.
  pub child-IsKept :
      (v : FunctionCall)
      → v.call_id ≡ o.next_call_id
      → v.parent_call_id ≡ ts.current_call_id
      → IsKept b r left
          (record o {
            function_calls_map =
                modify ts.current_call_id
                  (push_child o.next_call_id)
                  (insert o.next_call_id v o.function_calls_map);
            next_call_id = suc o.next_call_id;
          })
          (record ts { current_call_id = o.next_call_id })
  child-IsKept v id parent =
      let m = o.function_calls_map in
      let new = o.next_call_id in
      let cur = ts.current_call_id in
      let f = push_child new in
      let m₁ = modify cur f m in
      let k₁ =
        IsKept-grown b r left o ts m₁ (modify-MapGrows cur f m (push_child-Grows new)) kept in
      let (c, at) = kept.current in
      let (id', above, below) = kept.forest.calls cur c at in
      let (p, at', lists) = pushed o cur kept.current in
      let swap =
        MapGrows-same (insert new v m₁) (modify cur f (insert new v m))
          (modify-insert-swap cur new v f m (λ e. omega (arith, below, e))) in
      let under : HasParent m₁ new v =
        (p, ap (λ x. get x m₁) parent ∙ at', rw parent below, lists) in
      let forest =
        IsForest-inserted (record o { function_calls_map = m₁ }) v id (inr under) k₁.forest in
      let carry : (k : ℕ) → Known k m₁ → Known k (modify cur f (insert new v m)) = λ k (d, h).
        let (e, a, less) = k₁.forest.calls k d h in
        Known-grown (insert new v m₁) (modify cur f (insert new v m)) swap k
          (d, get-kept new v m₁ k (λ same. omega (arith, less, same)) ∙ h) in
      record {
        forest =
            IsForest-grown
              (record o { function_calls_map = insert new v m₁; next_call_id = suc new })
              (modify cur f (insert new v m)) swap forest;
        current =
            Known-grown (insert new v m₁) (modify cur f (insert new v m)) swap new
              (v, get-insert new new v m₁ ∙ rw ((nat_beq_iff new new).1 refl) refl);
        loops = λ name k h. carry k (k₁.loops name k h);
        panic = λ k h. carry k (k₁.panic k h);
        reported = λ k h. carry k (k₁.reported k h);
        root = carry r k₁.root;
        root_id = kept.root_id;
        index = kept.index;
        debug = kept.debug;
      }
