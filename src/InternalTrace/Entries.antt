-- ===== src/InternalTrace/Entries.antt =====
-- The handlers of one executed instruction return, and keep the state.
use starkloupe_server.Common.{
  ℕ, zero, suc, ◌+◌, ◌<◌, ◌≡◌, refl, sym, subst, ◌∙◌, ap, inl, inr, Bool, true, false, Option, none,
  some, List, [], ◌∷◌, nat_eq, text_eq, arith, nat_beq_iff, Text, if◌then◌else◌, length, get_elem?,
}
use starkloupe_server.Common.Maps.{get, modify, get-modify}
use starkloupe_server.Common.Texts.{is_some}
use starkloupe_server.Common.Run.{Yields}
use starkloupe_server.Trace.{CodeLocation, FunctionCall, DebuggerTraceEntry, with_contract_call}
use starkloupe_server.InternalTrace.{
  CallTraceBuilder, Output, TraceState, RelocatedTraceEntry, ESysCall, contract_call, event_call,
  storage_write, EventSysCall,
}
use starkloupe_server.InternalTrace.Calls.{push_child}
use starkloupe_server.InternalTrace.Debugger.{
  push_onto, push_entry, should_add_entry, located_entry, StepIo, add_locations, locations_of,
  add_indexes, process_debugger_trace,
}
use starkloupe_server.InternalTrace.SystemCalls.{
  push_event, handle_contract_call, record_event, handle_system_calls, new_event_call,
}
use starkloupe_server.InternalTrace.Forest.{HasCaller, Grows, modify-MapGrows, IsForest-event}
use starkloupe_server.InternalTrace.Kept.{
  IsKept, Keeps, SameIds, IsKept-same, modify_call-known, push_child-Grows, IsKept-grown,
  contains_append,
}

push_onto-SameIds :
    (e : DebuggerTraceEntry) (t : Option (List DebuggerTraceEntry)) (ts : TraceState)
    → t ≡ ts.debugger_execution_trace
    → SameIds ts (push_onto e t ts)
push_onto-SameIds e none ts same = record {
  current = refl;
  loops = refl;
  panic = refl;
  root = refl;
  index = refl;
  reported = refl;
  debug = refl;
}
push_onto-SameIds e (some trace) ts same = record {
  current = refl;
  loops = refl;
  panic = refl;
  root = refl;
  index = refl;
  reported = refl;
  debug = ap is_some same;
}

pub push_if-SameIds :
    (c : Bool) (e : DebuggerTraceEntry) (ts : TraceState)
    → SameIds ts (if c then push_entry e ts else ts)
push_if-SameIds true e ts = push_onto-SameIds e ts.debugger_execution_trace ts refl
push_if-SameIds false e ts = record {
  current = refl;
  loops = refl;
  panic = refl;
  root = refl;
  index = refl;
  reported = refl;
  debug = refl;
}

module _ (b : CallTraceBuilder) (r left : ℕ) (o : Output) where
  located-IsKept :
      (ts : TraceState) (l : Option CodeLocation)
      → IsKept b r left o ts
      → IsKept b r left o (record ts { prev_cairo_location = l })
  located-IsKept ts l = IsKept-same b r left o ts _ (record {
    current = refl;
    loops = refl;
    panic = refl;
    root = refl;
    index = refl;
    reported = refl;
    debug = refl;
  })

  all_located-IsKept :
      (ts : TraceState) (ls : List CodeLocation)
      → IsKept b r left o ts
      → IsKept b r left o (record ts { prev_cairo_locations = ls })
  all_located-IsKept ts ls = IsKept-same b r left o ts _ (record {
    current = refl;
    loops = refl;
    panic = refl;
    root = refl;
    index = refl;
    reported = refl;
    debug = refl;
  })

  add_locations-IsKept :
      (entry : RelocatedTraceEntry) (io : StepIo) (index : ℕ) (all : List CodeLocation) (i : ℕ)
      (ls : List CodeLocation) (ts : TraceState)
      → IsKept b r left o ts
      → IsKept b r left o (add_locations b entry io index all i ls ts)
  unfolding add_locations
  add_locations-IsKept entry io index all i [] ts kept = kept
  add_locations-IsKept entry io index all i (l ∷ ls) ts kept =
      let e = located_entry b ts entry io index i in
      let ts' = if should_add_entry ts l all then push_entry e ts else ts in
      add_locations-IsKept entry io index all (suc i) ls
        (record ts' { prev_cairo_location = some l })
        (located-IsKept ts' (some l)
          (IsKept-same b r left o ts ts' (push_if-SameIds (should_add_entry ts l all) e ts) kept))

  add_indexes-IsKept :
      (entry : RelocatedTraceEntry) (io : StepIo) (indexes : List ℕ) (ts : TraceState)
      → IsKept b r left o ts
      → IsKept b r left o (add_indexes b entry io indexes ts)
  unfolding add_indexes
  add_indexes-IsKept entry io [] ts kept = kept
  add_indexes-IsKept entry io (i ∷ indexes) ts kept =
      let ls = locations_of b i in
      let ts' = add_locations b entry io i ls 0 ls ts in
      add_indexes-IsKept entry io indexes (record ts' { prev_cairo_locations = ls })
        (all_located-IsKept ts' ls (add_locations-IsKept entry io i ls 0 ls ts kept))

  process_debugger_trace-IsKept :
      (entry : RelocatedTraceEntry) (io : StepIo) (indexes : Option (List ℕ)) (ts : TraceState)
      → IsKept b r left o ts
      → IsKept b r left o (process_debugger_trace b ts entry indexes io)
  unfolding process_debugger_trace
  process_debugger_trace-IsKept entry io none ts kept = kept
  process_debugger_trace-IsKept entry io (some indexes) ts kept =
      add_indexes-IsKept entry io indexes ts kept

  pub debug_if-IsKept :
      (c : Bool) (entry : RelocatedTraceEntry) (io : StepIo) (indexes : Option (List ℕ))
      (ts : TraceState)
      → IsKept b r left o ts
      → IsKept b r left o (if c then process_debugger_trace b ts entry indexes io else ts)
  debug_if-IsKept true entry io indexes ts kept =
      process_debugger_trace-IsKept entry io indexes ts kept
  debug_if-IsKept false entry io indexes ts kept = kept

-- The contract calls that a system call uses up: one or none.
abbrev pub cost : Option ESysCall → ℕ
cost none = 0
cost (some (contract_call address selector)) = 1
cost (some (event_call event)) = 0
cost (some (storage_write address value)) = 0

get_elem?-below :
    {A : Type 0} (xs : List A) (i : ℕ) → i < length xs → (x : A) × (get_elem? xs i ≡ some x)
get_elem?-below [] i less = absurd (omega (arith, less))
get_elem?-below (x ∷ xs) zero less = (x, refl)
get_elem?-below (x ∷ xs) (suc i) less = get_elem?-below xs i (omega (arith, less))

advance-IsKept :
    (b : CallTraceBuilder) (r left : ℕ) (o : Output) (ts : TraceState)
    → IsKept b r (suc left) o ts
    → IsKept b r left o (record ts { contract_call_index = suc ts.contract_call_index })
advance-IsKept b r left o ts kept = record {
  forest = kept.forest;
  current = kept.current;
  loops = kept.loops;
  panic = kept.panic;
  reported = kept.reported;
  root = kept.root;
  root_id = kept.root_id;
  index = omega (arith, kept.index);
  debug = kept.debug;
}

module _ (b : CallTraceBuilder) (r left : ℕ) (o : Output) (ts : TraceState) where
  handle_contract_call-Keeps :
      IsKept b r (suc left) o ts → Yields (Keeps b r left) (handle_contract_call b o ts)
  unfolding handle_contract_call
  handle_contract_call-Keeps kept =
      let (child, at) =
        get_elem?-below b.contract_call_children_ids ts.contract_call_index
          (omega (arith, kept.index)) in
      let m = modify ts.current_call_id (push_child child) o.function_calls_map in
      let o' : Output = record o { function_calls_map = m } in
      let e = with_contract_call child none in
      let ts' = if b.debug_mode then push_entry e ts else ts in
      (
        (o', record ts' { contract_call_index = suc ts'.contract_call_index }),
        rw
            (
              handle_contract_call,
              at,
              modify_call-known ts.current_call_id (push_child child) o.function_calls_map
                  kept.current,
            )
            refl,
        advance-IsKept b r left o' ts' (
            IsKept-same b r (suc left) o' ts ts' (push_if-SameIds b.debug_mode e ts) (
              IsKept-grown b r (suc left) o ts m
                (modify-MapGrows ts.current_call_id (push_child child) o.function_calls_map
                  (push_child-Grows child))
                kept)),
      )

push_event-Grows : (id : ℕ) (c : FunctionCall) → Grows c (push_event id c)
push_event-Grows id c = record {
  same_id = refl;
  same_parent = refl;
  children = λ k h. (contains_append k c.children_call_ids id).1 (inl h);
  events = λ k h. (contains_append k c.event_call_ids id).1 (inl h);
}

module _ (b : CallTraceBuilder) (r left : ℕ) (o : Output) (ts : TraceState) where
  recount : (n n' : ℕ) → n ≡ n' → IsKept b r n o ts → IsKept b r n' o ts
  recount n n' e kept = subst (λ k. IsKept b r k o ts) e kept

  -- The call that the event names lists it.
  event-HasCaller :
      (c : FunctionCall) (name : Text) (event : EventSysCall)
      → get ts.current_call_id o.function_calls_map ≡ some c
      → c.call_id ≡ ts.current_call_id
      → HasCaller
          (modify ts.current_call_id (push_event o.next_call_id) o.function_calls_map)
          o.next_call_id
          (new_event_call c name event o.next_call_id)
  event-HasCaller c name event at id =
      let new = o.next_call_id in
      let cur = ts.current_call_id in
      let m = modify cur (push_event new) o.function_calls_map in
      (
        push_event new c,
        ap (λ x. get x m) id
            ∙ get-modify cur cur (push_event new) o.function_calls_map
            ∙ rw ((nat_beq_iff cur cur).1 refl, at) refl,
        (contains_append new c.event_call_ids new).1 (inr refl),
        (contains_append new c.children_call_ids new).1 (inr refl),
      )

  record_event-IsKept :
      (event : EventSysCall) (call : Option FunctionCall) (name : Option Text)
      → call ≡ get ts.current_call_id o.function_calls_map
      → IsKept b r left o ts
      → IsKept b r left (record_event o ts event call name) ts
  record_event-IsKept event none name at kept = kept
  record_event-IsKept event (some c) none at kept = kept
  record_event-IsKept event (some c) (some name) at kept =
      let new = o.next_call_id in
      let m = modify ts.current_call_id (push_event new) o.function_calls_map in
      let (id, above, below) = kept.forest.calls ts.current_call_id c (sym at) in
      let k₁ =
        IsKept-grown b r left o ts m
          (modify-MapGrows ts.current_call_id (push_event new) o.function_calls_map
            (push_event-Grows new))
          kept in
      record {
        forest =
            IsForest-event (record o { function_calls_map = m }) (new_event_call c name event new)
              refl (event-HasCaller c name event (sym at) id) k₁.forest;
        current = k₁.current;
        loops = k₁.loops;
        panic = k₁.panic;
        reported = k₁.reported;
        root = k₁.root;
        root_id = k₁.root_id;
        index = k₁.index;
        debug = k₁.debug;
      }

  pub handle_system_calls-Keeps :
      (call : Option ESysCall)
      → IsKept b r (cost call + left) o ts
      → Yields (Keeps b r left) (handle_system_calls b o ts call)
  unfolding handle_system_calls
  handle_system_calls-Keeps none kept = ((o, ts), refl, recount (0 + left) left (omega arith) kept)
  handle_system_calls-Keeps (some (contract_call address selector)) kept =
      handle_contract_call-Keeps b r left o ts (recount (1 + left) (suc left) (omega arith) kept)
  handle_system_calls-Keeps (some (event_call event)) kept = (
    _,
    refl,
    record_event-IsKept event (get ts.current_call_id o.function_calls_map) event.event_name refl
        (recount (0 + left) left (omega arith) kept),
  )
  handle_system_calls-Keeps (some (storage_write address value)) kept =
      ((o, ts), refl, recount (0 + left) left (omega arith) kept)
