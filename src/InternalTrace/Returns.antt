-- ===== src/InternalTrace/Returns.antt =====
-- A run of the call trace builder returns, and keeps the state.
use starkloupe_server.Common.{
  ℕ, suc, ◌≡◌, refl, sym, subst, ◌∙◌, ap, ◌≢◌, inl, inr, Bool, true, false, Option, none, some,
  List, [], ◌∷◌, some_inj, nat_eq, text_eq, arith, Bool-cases, Text, if◌then◌else◌, All, get_elem?,
}
use starkloupe_server.Common.Maps.{get, insert, get-insert_same}
use starkloupe_server.Common.Texts.{is_some}
use starkloupe_server.Common.Run.{Yields}
use starkloupe_server.Trace.{CodeLocation, InternalFnCallIo, DebuggerTraceEntry}
use starkloupe_server.Mappings.{first_of}
use starkloupe_server.InternalTrace.{CallTraceBuilder, Output, TraceState, RelocatedTraceEntry}
use starkloupe_server.InternalTrace.Calls.{
  root_function_call, create_root_function_call, function_at,
}
use starkloupe_server.InternalTrace.Debugger.{sierra_indexes, active_locations}
use starkloupe_server.InternalTrace.Steps.{
  check_root_results, last_entry, root_panic, set_panic_function_call, check_root_panic_result,
  first_entry, first_of_locations, initial_state, build,
}
use starkloupe_server.InternalTrace.Forest.{Known, IsForest, IsForest-inserted}
use starkloupe_server.InternalTrace.Kept.{IsKept, Keeps}
use starkloupe_server.InternalTrace.Handlers.{HasFlag, panics-done}
use starkloupe_server.InternalTrace.Frames.{contract_calls, IsTraceable, process_entries-Keeps}

module _ (b : CallTraceBuilder) (r : ℕ) (traceable : IsTraceable b) where
  check_root_results-Keeps :
      (o : Output) (ts : TraceState) (results : List InternalFnCallIo)
      → All HasFlag results
      → IsKept b r 0 o ts
      → Yields (λ ts'. IsKept b r 0 o ts') (check_root_results ts results)
  unfolding check_root_results
  check_root_results-Keeps o ts [] flags kept = (ts, refl, kept)
  check_root_results-Keeps o ts (result ∷ results) flags kept =
      let (p, at, u) = panics-done b r 0 result flags.0 in
      elim (Bool-cases p) [
        | inl t ↦ (
          record ts { deepest_panic_result_call_id = some ts.root_function_call_id },
          rw (check_root_results, at, t) refl,
          record {
            forest = kept.forest;
            current = kept.current;
            loops = kept.loops;
            panic = λ id h.
                subst (λ k. Known k o.function_calls_map) (sym kept.root_id ∙ some_inj h) kept.root;
            reported = kept.reported;
            root = kept.root;
            root_id = kept.root_id;
            index = kept.index;
            debug = kept.debug;
          },
        )
        | inr f ↦
            rw (check_root_results, at, f) (check_root_results-Keeps o ts results flags.1 kept)
      ]

  last_entry-done :
      (es : List RelocatedTraceEntry)
      → es ≢ []
      → Yields (λ e. (k : ℕ) × (get_elem? es k ≡ some e)) (last_entry es)
  last_entry-done [] executed = absurd (executed refl)
  last_entry-done (e ∷ []) executed = (e, refl, (0, refl))
  last_entry-done (e ∷ f ∷ es) executed =
      let (last, eq, (k, at)) = last_entry-done (f ∷ es) (λ h. cc) in (last, eq, (suc k, at))

  root_panic-Keeps :
      (o : Output) (ts : TraceState) (panic : Option ℕ)
      → IsKept b r 0 o ts
      → Yields (λ ts'. IsKept b r 0 o ts') (root_panic b ts panic)
  unfolding root_panic
  root_panic-Keeps o ts (some id) kept = (ts, refl, kept)
  root_panic-Keeps o ts none kept =
      let (last, at, (k, found)) = last_entry-done b.vm_trace traceable.executed in
      let (io, answered, flags) = (traceable.answers k last found).results in
      let (ts', eq, kept') = check_root_results-Keeps o ts io.0 flags kept in
      (ts', rw (root_panic, at, answered, eq) refl, kept')

  set_panic-Keeps :
      (o : Output) (ts : TraceState) (panic : Option ℕ)
      → panic ≡ ts.deepest_panic_result_call_id
      → IsKept b r 0 o ts
      → Yields (λ ts'. IsKept b r 0 o ts') (set_panic_function_call o ts panic)
  unfolding set_panic_function_call
  set_panic-Keeps o ts none same kept = (ts, refl, kept)
  set_panic-Keeps o ts (some id) same kept =
      let (c, at) = kept.panic id (sym same) in
      let (eq, above, below) = kept.forest.calls id c at in
      (
        record ts { deepest_panic_function_call_id = some c.call_id },
        rw (set_panic_function_call, at) refl,
        record {
          forest = kept.forest;
          current = kept.current;
          loops = kept.loops;
          panic = kept.panic;
          reported = λ k h. subst (λ x. Known x o.function_calls_map) (sym eq ∙ some_inj h) (c, at);
          root = kept.root;
          root_id = kept.root_id;
          index = kept.index;
          debug = kept.debug;
        },
      )

first_entry-done :
    (es : List RelocatedTraceEntry)
    → es ≢ []
    → Yields (λ e. get_elem? es 0 ≡ some e) (first_entry es)
first_entry-done [] executed = absurd (executed refl)
first_entry-done (e ∷ es) executed = (e, refl, refl)

initial_debug :
    (d : Bool) (trace : List DebuggerTraceEntry) → is_some (if d then some trace else none) ≡ d
initial_debug true trace = refl
initial_debug false trace = refl

module _ (b : CallTraceBuilder) (o : Output) (traceable : IsTraceable b) (forest : IsForest o) where
  initial-IsKept :
      (fp : ℕ) (name : Option (Option Text)) (location : Option CodeLocation)
      → IsKept b o.next_call_id
          (contract_calls b.mappings b.vm_trace)
          (create_root_function_call b o fp name location).1
          (initial_state b o.next_call_id (suc o.next_call_id) fp)
  unfolding create_root_function_call get
  initial-IsKept fp name location =
      let call = root_function_call b o.next_call_id fp name location in
      let root : Known o.next_call_id (insert o.next_call_id call o.function_calls_map) =
        (call, get-insert_same o.next_call_id call o.function_calls_map) in
      record {
        forest = IsForest-inserted o call refl (inl refl) forest;
        current = root;
        loops = λ n id h. absurd cc;
        panic = λ id h. absurd cc;
        reported = λ id h. absurd cc;
        root = root;
        root_id = omega arith;
        index = omega (arith, traceable.children);
        debug = initial_debug b.debug_mode [];
      }

  pub build-Keeps : Yields (Keeps b o.next_call_id 0) (build b o)
  unfolding build create_root_function_call check_root_panic_result
  build-Keeps =
      let r = o.next_call_id in
      let (e, eq, at) = first_entry-done b.vm_trace traceable.executed in
      let name = function_at b (first_of (sierra_indexes b e)) in
      let location = first_of_locations (active_locations b e) in
      let o₁ = (create_root_function_call b o e.fp name location).1 in
      let ts₁ = initial_state b r (suc r) e.fp in
      let ((o₂, ts₂), eq₂, k₂) =
        process_entries-Keeps b r traceable 0 b.vm_trace o₁ ts₁
          (λ j. ap (get_elem? b.vm_trace) (omega arith))
          (λ e' at'. inl (ap (λ x. x.fp) (some_inj (sym at' ∙ at))))
          (initial-IsKept e.fp name location) in
      let (ts₃, eq₃, k₃) =
        root_panic-Keeps b r traceable o₂ ts₂ ts₂.deepest_panic_result_call_id k₂ in
      let (ts₄, eq₄, k₄) =
        set_panic-Keeps b r traceable o₂ ts₃ ts₃.deepest_panic_result_call_id refl k₃ in
      ((o₂, ts₄), rw (build, eq, eq₂, check_root_panic_result, eq₃, eq₄) refl, k₄)
