-- ===== src/InternalTrace/Results.antt =====
-- The results on the call trace builder.
use starkloupe_server.Common.{
  ℕ, ◌≡◌, refl, sym, subst, ◌∙◌, Bool, true, false, Option, none, some, List, [],
}
use starkloupe_server.Common.Maps.{get}
use starkloupe_server.Common.Texts.{is_some}
use starkloupe_server.Common.Run.{done, done_inj}
use starkloupe_server.Trace.{DebuggerTraceEntry}
use starkloupe_server.InternalTrace.{
  CallTraceBuilder, Output, TraceState, SierraStatementsToCairoDebugInfo,
}
use starkloupe_server.InternalTrace.Steps.{
  build, get_simple_internal_call_trace, get_internal_call_trace,
}
use starkloupe_server.InternalTrace.Forest.{Known, IsForest}
use starkloupe_server.InternalTrace.Frames.{IsTraceable}
use starkloupe_server.InternalTrace.Returns.{build-Keeps}

module _ (b : CallTraceBuilder) (o : Output) (traceable : IsTraceable b) (forest : IsForest o) where
  -- If instructions were executed, the contract calls among them have ids, the mappings answer at each
  -- instruction without a panic and give panic results a value, and the given maps are a forest, then
  -- `build` returns: none of its own `unwrap`s and indexes fails. The root's id is the counter it was
  -- given; the root and, if one is reported, the call of the deepest panic are in the map; there is a
  -- debugger trace in debug mode only.
  pub build-done :
      (o' : Output) × (ts : TraceState) × (build b o ≡ done (o', ts))
      × (ts.root_function_call_id ≡ o.next_call_id)
      × Known o.next_call_id o'.function_calls_map
      × ((id : ℕ) → ts.deepest_panic_function_call_id ≡ some id → Known id o'.function_calls_map)
      × (is_some ts.debugger_execution_trace ≡ b.debug_mode)
  build-done =
      let ((o', ts), eq, kept) = build-Keeps b o traceable forest in
      (o', ts, eq, kept.root_id, kept.root, kept.reported, kept.debug)

  -- If such a run ends in the maps `o'`, they are a forest: every function call and event call is
  -- stored under its own id, below the counter, no id is used for both, every call but the roots is
  -- listed by its parent, whose id is smaller, and every event by the call that emitted it.
  pub build-IsForest : (o' : Output) (ts : TraceState) → build b o ≡ done (o', ts) → IsForest o'
  build-IsForest o' ts eq =
      let (s, eq', kept) = build-Keeps b o traceable forest in
      subst (λ (x : Output × TraceState). IsForest x.0) (done_inj (sym eq' ∙ eq)) kept.forest

without_events-IsForest : (o : Output) → IsForest o → IsForest (record o { event_calls_map = [] })
unfolding get
without_events-IsForest o forest = record {
  positive = forest.positive;
  calls = forest.calls;
  parents = forest.parents;
  events = λ k e h. absurd cc;
}

some_debug : {A : Type 0} (t : Option A) → is_some t ≡ true → (a : A) × (t ≡ some a)
some_debug none h = absurd cc
some_debug (some a) h = (a, refl)

module _ (b : CallTraceBuilder) (o : Output) (traceable : IsTraceable b) (forest : IsForest o) where
  mode_ok :
      (info : Option SierraStatementsToCairoDebugInfo) (debug : Bool)
      → IsTraceable (record b { debug_mode = debug; sierra_statements_to_cairo_debug_info = info })
  mode_ok info debug = record {
    executed = traceable.executed;
    children = traceable.children;
    answers = λ k e at.
        let a = traceable.answers k e at in
        record { arguments = a.arguments; results = a.results; system_call = a.system_call };
  }

  simple-Yields :
      (o' : Output) × (panic : Option ℕ) × (get_simple_internal_call_trace b o
        ≡ done (o', (o.next_call_id, panic)))
      × IsForest o'
  unfolding get_simple_internal_call_trace
  simple-Yields =
      let ((o', ts), eq, k) =
        build-Keeps (record b { debug_mode = false; sierra_statements_to_cairo_debug_info = none })
          o (mode_ok none false) forest in
      (
        o',
        ts.deepest_panic_function_call_id,
        rw (get_simple_internal_call_trace, eq, k.root_id) refl,
        k.forest,
      )

  -- The maps of the run for the debugger, before its event calls are dropped, are a forest.
  pub debugger-Yields :
      (o' : Output) × (trace : List DebuggerTraceEntry) × (panic : Option ℕ)
      × (get_internal_call_trace b o
          ≡ done
              (record o' { event_calls_map = o.event_calls_map }, (trace, (o.next_call_id, panic))))
      × IsForest o'
  unfolding get_internal_call_trace
  debugger-Yields =
      let ((o', ts), eq, k) =
        build-Keeps (record b { debug_mode = true }) (record o { event_calls_map = [] })
          (mode_ok b.sierra_statements_to_cairo_debug_info true)
          (without_events-IsForest o forest) in
      let (trace, at) = some_debug ts.debugger_execution_trace k.debug in
      (
        o',
        trace,
        ts.deepest_panic_function_call_id,
        rw (get_internal_call_trace, eq, at, k.root_id) refl,
        k.forest,
      )

  -- If instructions were executed, the contract calls among them have ids, the mappings answer at each
  -- instruction without a panic and give panic results a value, and the given maps are a forest, then
  -- both functions that run the builder return, with the given counter as the root's id. The simple one
  -- gives a forest; the one for the debugger always has a debugger trace, and leaves the event calls that
  -- it was given as they are: if there were none, its maps are a forest too.
  pub get_internal_call_trace-done :
      ((o' : Output) × (panic : Option ℕ) × (get_simple_internal_call_trace b o
          ≡ done (o', (o.next_call_id, panic)))
        × IsForest o')
      × ((o' : Output) × (trace : List DebuggerTraceEntry) × (panic : Option ℕ)
          × (get_internal_call_trace b o ≡ done (o', (trace, (o.next_call_id, panic))))
          × (o'.event_calls_map ≡ o.event_calls_map)
          × (o.event_calls_map ≡ [] → IsForest o'))
  get_internal_call_trace-done =
      let (o', trace, panic, eq, kept) = debugger-Yields in
      (
        simple-Yields,
        (
          record o' { event_calls_map = o.event_calls_map },
          trace,
          panic,
          eq,
          refl,
          λ empty.
              subst (λ m. IsForest (record o' { event_calls_map = m })) (sym empty)
                (without_events-IsForest o' kept),
        ),
      )
