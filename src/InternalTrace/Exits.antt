-- ===== src/InternalTrace/Exits.antt =====
-- The handlers of returns and of code locations return, and keep the state.
use starkloupe_server.Common.{
  ℕ, ◌≡◌, refl, inl, inr, Bool, true, false, Option, none, some, List, [], ◌∷◌, nat_eq, text_eq,
  arith, nat_beq, nat_beq_iff, All,
}
use starkloupe_server.Common.Maps.{get, modify}
use starkloupe_server.Common.Run.{Yields}
use starkloupe_server.Values.{DecodedValue}
use starkloupe_server.Trace.{CodeLocation, InternalFnCallIo, FunctionCall}
use starkloupe_server.InternalTrace.{CallTraceBuilder, Output, TraceState, RelocatedTraceEntry}
use starkloupe_server.InternalTrace.Calls.{
  update_current_call_results, leave, return_to, leave_call, handle_function_exit, set_if_none,
  first_location, update_current_call_code_location,
}
use starkloupe_server.InternalTrace.Forest.{
  Known, IsForest, Grows, Grows-refl, modify-MapGrows, Known-grown,
}
use starkloupe_server.InternalTrace.Kept.{
  IsKept, Keeps, IsKept-same, IsKept-moved, modify_call-known, IsKept-grown,
}
use starkloupe_server.InternalTrace.Handlers.{HasFlag, check-Keeps}

module _ (b : CallTraceBuilder) (r left : ℕ) where
  results-Grows :
      (results : List InternalFnCallIo) (decoded : List DecodedValue) (c : FunctionCall)
      → Grows c (record c { results = results; results_decoded = some decoded })
  results-Grows results decoded c = record {
    same_id = refl;
    same_parent = refl;
    children = λ k h. h;
    events = λ k h. h;
  }

  update_results-Keeps :
      (o : Output) (ts : TraceState) (results : List InternalFnCallIo) (decoded : List DecodedValue)
      → IsKept b r left o ts
      → Yields
          (λ o'.
            IsKept b r left o' ts
            × ((k : ℕ) → Known k o.function_calls_map → Known k o'.function_calls_map))
          (update_current_call_results o ts results decoded)
  unfolding update_current_call_results
  update_results-Keeps o ts results decoded kept =
      let f : FunctionCall → FunctionCall =
        λ c. record c { results = results; results_decoded = some decoded } in
      let m = modify ts.current_call_id f o.function_calls_map in
      let grows =
        modify-MapGrows ts.current_call_id f o.function_calls_map (results-Grows results decoded) in
      (
        record o { function_calls_map = m },
        rw
            (
              update_current_call_results,
              modify_call-known ts.current_call_id f o.function_calls_map kept.current,
            )
            refl,
        (IsKept-grown b r left o ts m grows kept, Known-grown o.function_calls_map m grows),
      )

  leave-Keeps :
      (o : Output) (ts : TraceState) (id : ℕ)
      → Known id o.function_calls_map
      → IsKept b r left o ts
      → IsKept b r left o (leave id ts)
  leave-Keeps o ts id known kept =
      IsKept-same b r left o (record ts { current_call_id = id }) (leave id ts)
        (record {
          current = refl;
          loops = refl;
          panic = refl;
          root = refl;
          index = refl;
          reported = refl;
          debug = refl;
        })
        (IsKept-moved b r left o ts id known kept)

  -- The return of a call whose parent is known
  return_to-Keeps :
      (o : Output) (ts : TraceState) (parent : ℕ) (results : List InternalFnCallIo)
      (decoded : List DecodedValue) (same_fp : Bool)
      → Known parent o.function_calls_map
      → All HasFlag results
      → IsKept b r left o ts
      → Yields (Keeps b r left) (return_to o ts parent results decoded same_fp)
  unfolding return_to
  return_to-Keeps o ts parent results decoded false known flags kept = ((o, ts), refl, kept)
  return_to-Keeps o ts parent results decoded true known flags kept =
      let (ts', e, (same, kept')) = check-Keeps b r left o ts results flags kept in
      let (o', e', (kept'', carry)) = update_results-Keeps o ts' results decoded kept' in
      (
        (o', leave parent ts'),
        rw (e, e') refl,
        leave-Keeps o' ts' parent (carry parent known) kept'',
      )

  parent_known :
      (o : Output) (k : ℕ) (c : FunctionCall)
      → IsForest o
      → get k o.function_calls_map ≡ some c
      → nat_beq c.parent_call_id 0 ≡ false
      → Known c.parent_call_id o.function_calls_map
  parent_known o k c forest at nonzero = elim (forest.parents k c at) [
    | inl root ↦ absurd (ground (arith, nat_beq_iff c.parent_call_id 0))
    | inr (p, at', less, lists) ↦ (p, at')
  ]

  leave_call-Keeps :
      (o : Output) (ts : TraceState) (entry : RelocatedTraceEntry) (parent : ℕ)
      (results : List InternalFnCallIo) (decoded : List DecodedValue) (is_root : Bool)
      → (is_root ≡ false → Known parent o.function_calls_map)
      → All HasFlag results
      → IsKept b r left o ts
      → Yields (Keeps b r left) (leave_call o ts entry parent results decoded is_root)
  unfolding leave_call
  leave_call-Keeps o ts entry parent results decoded true known flags kept = ((o, ts), refl, kept)
  leave_call-Keeps o ts entry parent results decoded false known flags kept =
      let (p, at) = known refl in
      rw (leave_call, at)
        (return_to-Keeps o ts parent results decoded (nat_beq p.fp entry.fp) (p, at) flags kept)

  pub handle_function_exit-Keeps :
      (o : Output) (ts : TraceState) (entry : RelocatedTraceEntry) (results : List InternalFnCallIo)
      (decoded : List DecodedValue)
      → All HasFlag results
      → IsKept b r left o ts
      → Yields (Keeps b r left) (handle_function_exit o ts entry results decoded)
  unfolding handle_function_exit
  handle_function_exit-Keeps o ts entry results decoded flags kept =
      let (c, at) = kept.current in
      rw (handle_function_exit, at)
        (leave_call-Keeps o ts entry c.parent_call_id results decoded (nat_beq c.parent_call_id 0)
          (parent_known o ts.current_call_id c kept.forest at) flags kept)

  set_if_none-Grows :
      (l : CodeLocation) (known : Option CodeLocation) (c : FunctionCall)
      → Grows c (set_if_none l known c)
  set_if_none-Grows l (some k) c = Grows-refl c
  set_if_none-Grows l none c = record {
    same_id = refl;
    same_parent = refl;
    children = λ k h. h;
    events = λ k h. h;
  }

  first_location-Grows : (ls : List CodeLocation) (c : FunctionCall) → Grows c (first_location ls c)
  first_location-Grows [] c = Grows-refl c
  first_location-Grows (l ∷ ls) c = set_if_none-Grows l c.code_location c

  pub update_code_location-Keeps :
      (o : Output) (ts : TraceState) (ls : List CodeLocation)
      → IsKept b r left o ts
      → Yields (λ o'. IsKept b r left o' ts) (update_current_call_code_location o ts ls)
  unfolding update_current_call_code_location
  update_code_location-Keeps o ts ls kept =
      let m = modify ts.current_call_id (first_location ls) o.function_calls_map in
      (
        record o { function_calls_map = m },
        rw
            (
              update_current_call_code_location,
              modify_call-known ts.current_call_id (first_location ls) o.function_calls_map
                  kept.current,
            )
            refl,
        IsKept-grown b r left o ts m
            (modify-MapGrows ts.current_call_id (first_location ls) o.function_calls_map
              (first_location-Grows ls))
            kept,
      )
