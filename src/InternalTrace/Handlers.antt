-- ===== src/InternalTrace/Handlers.antt =====
-- The handler of calls, and the search for a panic, return and keep the state.
use starkloupe_server.Common.{
  ℕ, ◌≡◌, refl, sym, subst, ◌∙◌, ◌≢◌, inl, inr, true, false, Option, none, some, List, [], ◌∷◌,
  some_inj, ◌==◌, nat_eq, text_eq, arith, Option-cases, Bool-cases, Text, if◌then◌else◌, All,
}
use starkloupe_server.Common.Int.{gtb, incr}
use starkloupe_server.Common.Maps.{get, insert, modify, get-insert}
use starkloupe_server.Common.Run.{Yields, >>=-Yields}
use starkloupe_server.Values.{DecodedValue}
use starkloupe_server.Trace.{InternalFnCallIo, FunctionCall}
use starkloupe_server.InternalTrace.{CallTraceBuilder, Output, TraceState, RelocatedTraceEntry}
use starkloupe_server.InternalTrace.Names.{is_panic_result, is_loop, get_raw_function_name}
use starkloupe_server.InternalTrace.Calls.{
  modify_call, push_child, new_function_call, create_new_function_call, raise_level, enter_loop,
  enter_function, name_or_empty, function_at, handle_function_entry, first_is_one, panics,
  record_panic, check_for_panic_result,
}
use starkloupe_server.InternalTrace.Forest.{Known, Grows, modify-MapGrows, get-kept}
use starkloupe_server.InternalTrace.Kept.{
  IsKept, Keeps, IsKept-same, IsKept-moved, modify_call-known, IsKept-grown, child-IsKept,
}

-- A result that is a panic result has a value to read.
abbrev pub HasFlag : InternalFnCallIo → Type 0
HasFlag result = is_panic_result result.type_name ≡ true → result.value ≢ []

module _ (b : CallTraceBuilder) (r left : ℕ) where
  -- The changes of a call that keep its ids and what it lists keep the state.
  change-Keeps :
      (f : FunctionCall → FunctionCall)
      → ((c : FunctionCall) → Grows c (f c))
      → (o : Output) (ts : TraceState) (id : ℕ) → Known id o.function_calls_map
      → IsKept b r left o ts
      → Yields
          (λ m. IsKept b r left (record o { function_calls_map = m }) ts)
          (modify_call id f o.function_calls_map)
  change-Keeps f grows o ts id known kept = (
    modify id f o.function_calls_map,
    modify_call-known id f o.function_calls_map known,
    IsKept-grown b r left o ts (modify id f o.function_calls_map)
        (modify-MapGrows id f o.function_calls_map grows) kept,
  )

  create-Keeps :
      (o : Output) (ts : TraceState) (name : Text) (fp : ℕ) (args : List InternalFnCallIo)
      (decoded : List DecodedValue)
      → IsKept b r left o ts
      → Yields (Keeps b r left) (create_new_function_call b o ts name fp args decoded)
  unfolding create_new_function_call modify_call new_function_call
  create-Keeps o ts name fp args decoded kept =
      let v = new_function_call b o ts name fp args decoded in
      let (c, at) = kept.current in
      let (e, above, below) = kept.forest.calls ts.current_call_id c at in
      let at' =
        get-kept o.next_call_id v o.function_calls_map ts.current_call_id
          (λ same. omega (arith, below, same))
        ∙ at in
      rw
        (
          create_new_function_call,
          modify_call-known ts.current_call_id (push_child o.next_call_id)
              (insert o.next_call_id v o.function_calls_map) (c, at'),
        )
        (_, refl, child-IsKept b r left o ts kept v refl refl)

  looped-IsKept :
      (name : Text) (o : Output) (ts : TraceState)
      → IsKept b r left o ts
      → IsKept b r left o
          (record ts { loop_parent_map = insert name ts.current_call_id ts.loop_parent_map })
  looped-IsKept name o ts kept = record {
    forest = kept.forest;
    current = kept.current;
    loops = λ other id h.
        let at : (if name == other then some ts.current_call_id else get other ts.loop_parent_map)
            ≡ some id =
          sym (get-insert name other ts.current_call_id ts.loop_parent_map) ∙ h in
        elim (Bool-cases (name == other)) [
          | inl e ↦
              subst (λ k. Known k o.function_calls_map) (some_inj (sym (rw e refl) ∙ at))
                kept.current
          | inr e ↦ kept.loops other id (sym (rw e refl) ∙ at)
        ];
    panic = kept.panic;
    reported = kept.reported;
    root = kept.root;
    root_id = kept.root_id;
    index = kept.index;
    debug = kept.debug;
  }

  enter_loop-IsKept :
      (name : Text) (o : Output) (ts : TraceState)
      → IsKept b r left o ts
      → IsKept b r left o (enter_loop name ts)
  enter_loop-IsKept name o ts kept = elim (Option-cases (get name ts.loop_parent_map)) [
    | inl e ↦ rw (enter_loop, e) (looped-IsKept name o ts kept)
    | inr (id, e) ↦ rw (enter_loop, e) (IsKept-moved b r left o ts id (kept.loops name id e) kept)
  ]

  raise_level-Keeps :
      (s : Output × TraceState)
      → Keeps b r left s
      → Keeps b r left (s.0, record s.1 { nesting_level = incr s.1.nesting_level })
  raise_level-Keeps (o, ts) = IsKept-same b r left o ts _ (record {
    current = refl;
    loops = refl;
    panic = refl;
    root = refl;
    index = refl;
    reported = refl;
    debug = refl;
  })

  enter_function-Keeps :
      (o : Output) (ts : TraceState) (name : Option Text) (fp : ℕ) (args : List InternalFnCallIo)
      (decoded : List DecodedValue)
      → IsKept b r left o ts
      → Yields (Keeps b r left) (enter_function b o ts name fp args decoded)
  unfolding enter_function is_loop
  enter_function-Keeps o ts none fp args decoded kept = (_, refl, kept)
  enter_function-Keeps o ts (some name) fp args decoded kept = elim (Bool-cases (is_loop name)) [
    | inl e ↦ (_, rw (enter_function, e) refl, enter_loop-IsKept name o ts kept)
    | inr e ↦
        rw (enter_function, e)
          (>>=-Yields (Keeps b r left) (Keeps b r left)
            (create_new_function_call b o ts name fp args decoded) raise_level
            (create-Keeps o ts name fp args decoded kept) (λ s k. (_, refl, raise_level-Keeps s k)))
  ]

  pub handle_function_entry-Keeps :
      (o : Output) (ts : TraceState) (entry : RelocatedTraceEntry) (first : Option ℕ)
      (args : List InternalFnCallIo) (decoded : List DecodedValue)
      → IsKept b r left o ts
      → Yields (Keeps b r left) (handle_function_entry b o ts entry first args decoded)
  unfolding handle_function_entry
  handle_function_entry-Keeps o ts entry first args decoded kept =
      elim (Option-cases (function_at b first)) [
        | inl e ↦ (_, rw (handle_function_entry, e) refl, kept)
        | inr (name, e) ↦
            rw (handle_function_entry, e)
              (enter_function-Keeps o ts (get_raw_function_name (name_or_empty name)) entry.fp args
                decoded kept)
      ]

  first_is_one-done : (vs : List Text) → vs ≢ [] → Yields {0, 0} (λ p. Unit) (first_is_one vs)
  first_is_one-done [] h = absurd (h refl)
  first_is_one-done (v ∷ vs) h = (_, refl, tt)

  pub panics-done :
      (result : InternalFnCallIo) → HasFlag result → Yields {0, 0} (λ p. Unit) (panics result)
  panics-done result flag = elim (Bool-cases (is_panic_result result.type_name)) [
    | inl e ↦ rw (panics, e) (first_is_one-done result.value (flag e))
    | inr e ↦ (false, rw (panics, e) refl, tt)
  ]

  record_panic-IsKept :
      (o : Output) (ts : TraceState) → IsKept b r left o ts → IsKept b r left o (record_panic ts)
  record_panic-IsKept o ts kept = record {
    forest = kept.forest;
    current = kept.current;
    loops = kept.loops;
    panic = λ id h. subst (λ k. Known k o.function_calls_map) (some_inj h) kept.current;
    reported = kept.reported;
    root = kept.root;
    root_id = kept.root_id;
    index = kept.index;
    debug = kept.debug;
  }

  pub check-Keeps :
      (o : Output) (ts : TraceState) (results : List InternalFnCallIo)
      → All HasFlag results
      → IsKept b r left o ts
      → Yields
          (λ ts'. (ts'.current_call_id ≡ ts.current_call_id) × IsKept b r left o ts')
          (check_for_panic_result ts results)
  unfolding check_for_panic_result
  check-Keeps o ts [] flags kept = (_, refl, (refl, kept))
  check-Keeps o ts (result ∷ results) flags kept =
      let rest = check-Keeps o ts results flags.1 kept in
      elim (Bool-cases (gtb ts.nesting_level ts.deepest_panic_result_level)) [
        | inr e ↦ rw (check_for_panic_result, e) rest
        | inl e ↦
            let (p, at, u) = panics-done result flags.0 in
            elim (Bool-cases p) [
              | inl t ↦ (
                _,
                rw (check_for_panic_result, e, at, t) refl,
                (refl, record_panic-IsKept o ts kept),
              )
              | inr f ↦ rw (check_for_panic_result, e, at, f) rest
            ]
      ]
