-- ===== src/FunctionCalls/Built.antt =====
-- crates/internal-tracing/src/build_debugger_data.rs: the adapters return and keep the forest.
use starkloupe_server.Common.{◌≡◌, refl, ◌∙◌, Bool, true, false, []}
use starkloupe_server.Common.Run.{Yields}
use starkloupe_server.Calls.{ContractCall}
use starkloupe_server.InternalTrace.{Output, CallTraceBuilder}
use starkloupe_server.InternalTrace.Forest.{IsForest}
use starkloupe_server.InternalTrace.Frames.{IsTraceable}
use starkloupe_server.InternalTrace.Results.{get_internal_call_trace-done}
use starkloupe_server.FunctionCalls.{
  Services, simple, full, adapter, call_queries, trace_builder, build_debugger_data,
}

-- A forest; the builder with the debugger data, which drops its events, has none to start with.
abbrev pub IsBuilt : Bool → Output → Type 0
IsBuilt debugger o = IsForest o × (debugger ≡ true → o.event_calls_map ≡ [])

adapter-IsBuilt :
    (debugger : Bool) (b : CallTraceBuilder) (o : Output)
    → IsTraceable b
    → IsBuilt debugger o
    → Yields (λ r. IsBuilt debugger r.0) (adapter debugger b o)
unfolding adapter
adapter-IsBuilt false b o traceable (forest, empty) =
    let ((o', panic, e, kept), rest) = get_internal_call_trace-done b o traceable forest in
    ((o', simple o.next_call_id panic), rw (adapter, e) refl, (kept, λ h. absurd cc))
adapter-IsBuilt true b o traceable (forest, empty) =
    let (o', trace, panic, e, same, forest') =
      (get_internal_call_trace-done b o traceable forest).1 in
    (
      (o', full trace o.next_call_id panic),
      rw (adapter, e) refl,
      (forest' (empty refl), λ h. same ∙ empty refl),
    )

-- The class's mappings answer for the call, which the call trace builder can follow.
pub record IsCallable {D K M S : Type 0} (s : Services D K M S) (c : ContractCall) (d : D) (m : M)
    : Type 0 where
  pub mappings : Yields (λ q. IsTraceable (trace_builder s d c q)) (call_queries s m c)

module _ {D K M S : Type 0} (s : Services D K M S) where
  pub build_debugger_data-IsBuilt :
      (d : D) (m : M) (c : ContractCall) (o : Output)
      → IsCallable s c d m
      → IsBuilt s.debugger o
      → Yields (λ r. IsBuilt s.debugger r.0) (build_debugger_data s d m c o)
  unfolding build_debugger_data
  build_debugger_data-IsBuilt d m c o callable built =
      let (q, e, traceable) = callable.mappings in
      let (r, e', built') = adapter-IsBuilt s.debugger (trace_builder s d c q) o traceable built in
      (r, rw (build_debugger_data, e, e') refl, built')
