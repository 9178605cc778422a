-- ===== src/InternalTrace/Frames.antt =====
-- The executed instructions return, and keep the state.
use starkloupe_server.Common.{
  ℕ, suc, ◌+◌, ◌≤◌, ◌≡◌, refl, ◌∙◌, ap, ◌≢◌, ◌⊎◌, inl, inr, Bool, true, false, Option, none, some,
  List, [], ◌∷◌, nat_eq, text_eq, arith, ltb, Bool-cases, Option-cases, subst, zero, if◌then◌else◌,
  length, All, get_elem?,
}
use starkloupe_server.Common.Run.{Run, done, stop, unwrap, Yields, done_inj}
use starkloupe_server.Values.{DecodedValue}
use starkloupe_server.Trace.{InternalFnCallIo}
use starkloupe_server.Mappings.{first_of}
use starkloupe_server.InternalTrace.{
  CallTraceBuilder, Queries, ESysCall, Output, TraceState, RelocatedTraceEntry,
}
use starkloupe_server.InternalTrace.Debugger.{
  sierra_indexes, first_sierra_index, active_locations, no_io, process_debugger_trace,
}
use starkloupe_server.InternalTrace.Steps.{
  io_at, previous_entry, process_entry, process_exit, process_same_frame, process_frame,
  process_trace_entry, process_entries,
}
use starkloupe_server.InternalTrace.Kept.{IsKept, Keeps, IsKept-same}
use starkloupe_server.InternalTrace.Exits.{handle_function_exit-Keeps, update_code_location-Keeps}
use starkloupe_server.InternalTrace.Handlers.{HasFlag, handle_function_entry-Keeps}
use starkloupe_server.InternalTrace.Entries.{debug_if-IsKept, cost, handle_system_calls-Keeps}

-- What a system call that is read adds to the contract calls.
abbrev pub cost_of : Run (Option ESysCall) → ℕ
cost_of (done call) = cost call
cost_of (stop s) = 0

-- The contract calls that the executed instructions make.
unfoldable pub contract_calls : Queries → List RelocatedTraceEntry → ℕ
contract_calls m [] = 0
contract_calls m (e ∷ es) = cost_of (m.system_call_at_step e) + contract_calls m es

-- The mappings answer at an instruction without a panic: the arguments, the results, of which a panic
-- result has a value, and the system call.
pub record Answers (b : CallTraceBuilder) (e : RelocatedTraceEntry) : Type 0 where
  pub arguments :
      Yields {0, 0} (λ io. Unit) (io_at b.mappings.arguments_at_step (first_sierra_index b e) e)
  pub results :
      Yields
        (λ io. All HasFlag (io.0))
        (io_at b.mappings.results_at_step (first_sierra_index b e) e)
  pub system_call : Yields {0, 0} (λ c. Unit) (b.mappings.system_call_at_step e)

-- What a query gives at every index, it gives at an instruction.
pub io_at-Yields {ℓ} :
    (P : List InternalFnCallIo × List DecodedValue → Type ℓ)
    (f : ℕ → RelocatedTraceEntry → Run (List InternalFnCallIo × List DecodedValue)) (o : Option ℕ)
    (e : RelocatedTraceEntry)
    → P ([], [])
    → ((i : ℕ) → Yields P (f i e))
    → Yields P (io_at f o e)
io_at-Yields P f none e p h = (([], []), refl, p)
io_at-Yields P f (some i) e p h = h i

-- An input that the builder is made for: instructions were executed, each contract call among them
-- has an id, and the mappings answer at each of them.
pub record IsTraceable (b : CallTraceBuilder) : Type 0 where
  pub executed : b.vm_trace ≢ []
  pub children : contract_calls b.mappings b.vm_trace ≤ length b.contract_call_children_ids
  pub answers : (k : ℕ) (e : RelocatedTraceEntry) → get_elem? b.vm_trace k ≡ some e → Answers b e

-- The instruction before is there if the frame pointer is another.
abbrev pub HasBefore : CallTraceBuilder → ℕ → RelocatedTraceEntry → TraceState → Type 0
HasBefore b i e ts =
    (e.fp ≡ ts.prev_fp) ⊎ ((p : RelocatedTraceEntry) × (previous_entry b i ≡ done p))

module _ (b : CallTraceBuilder) (r : ℕ) (traceable : IsTraceable b) where
  -- The instruction before is one of the run.
  before-Answers : (i : ℕ) (p : RelocatedTraceEntry) → previous_entry b i ≡ done p → Answers b p
  before-Answers zero p h = absurd cc
  before-Answers (suc i) p h = elim (Option-cases (get_elem? b.vm_trace i)) [
    | inl e ↦ absurd (let h' : unwrap none ≡ done p = subst (λ o. unwrap o ≡ done p) e h in cc)
    | inr (q, e) ↦
        let h' : done q ≡ done p = subst (λ o. unwrap o ≡ done p) e h in
        traceable.answers i p (e ∙ ap some (done_inj h'))
  ]

  module _ (left : ℕ) (o : Output) (ts : TraceState) (i : ℕ) (e : RelocatedTraceEntry)
      (kept : IsKept b r left o ts) where
    process_entry-Keeps :
        (p : RelocatedTraceEntry)
        → previous_entry b i ≡ done p
        → Yields (λ s. Keeps b r left s.0) (process_entry b o ts i e)
    unfolding process_entry
    process_entry-Keeps p at =
        let (io, answered, u) = (before-Answers i p at).arguments in
        let (s, eq, k) =
          handle_function_entry-Keeps b r left o ts e (first_of (sierra_indexes b e)) io.0 io.1
            kept in
        (
          (s, record no_io { arguments = io.0; arguments_decoded = io.1 }),
          rw (process_entry, at, answered, eq) refl,
          k,
        )

    process_exit-Keeps :
        (p : RelocatedTraceEntry)
        → previous_entry b i ≡ done p
        → Yields (λ s. Keeps b r left s.0) (process_exit b o ts i e)
    unfolding process_exit
    process_exit-Keeps p at =
        let (io, answered, flags) = (before-Answers i p at).results in
        let (s, eq, k) = handle_function_exit-Keeps b r left o ts e io.0 io.1 flags kept in
        (
          (s, record no_io { results = io.0; results_decoded = io.1 }),
          rw (process_exit, at, answered, eq) refl,
          k,
        )

    process_same_frame-Keeps :
        (debug : Bool) → Yields (λ s. Keeps b r left s.0) (process_same_frame b o ts e debug)
    unfolding process_same_frame
    process_same_frame-Keeps false = (((o, ts), no_io), refl, kept)
    process_same_frame-Keeps true =
        let (o', eq, k) = update_code_location-Keeps b r left o ts (active_locations b e) kept in
        (((o', ts), no_io), rw (process_same_frame, eq) refl, k)

    process_frame-Keeps :
        HasBefore b i e ts → Yields (λ s. Keeps b r left s.0) (process_frame b o ts i e)
    unfolding process_frame
    process_frame-Keeps before = elim before [
      | inl same ↦
          rw (process_frame, same_fp_up same, same_fp_down same)
            (process_same_frame-Keeps b.debug_mode)
      | inr (p, at) ↦ elim (Bool-cases (ltb ts.prev_fp e.fp)) [
        | inl up ↦ rw (process_frame, up) (process_entry-Keeps p at)
        | inr notup ↦ elim (Bool-cases (ltb e.fp ts.prev_fp)) [
          | inl down ↦ rw (process_frame, notup, down) (process_exit-Keeps p at)
          | inr level ↦ rw (process_frame, notup, level) (process_same_frame-Keeps b.debug_mode)
        ]
      ]
    ]
      where
        same_fp_up : e.fp ≡ ts.prev_fp → ltb ts.prev_fp e.fp ≡ false
        same_fp_up same = ground arith

        same_fp_down : e.fp ≡ ts.prev_fp → ltb e.fp ts.prev_fp ≡ false
        same_fp_down same = ground arith

  -- One executed instruction
  process_trace_entry-Keeps :
      (left : ℕ) (o : Output) (ts : TraceState) (i : ℕ) (e : RelocatedTraceEntry)
      → HasBefore b i e ts
      → Answers b e
      → IsKept b r (cost_of (b.mappings.system_call_at_step e) + left) o ts
      → Yields (Keeps b r left) (process_trace_entry b o ts i e)
  unfolding process_trace_entry
  process_trace_entry-Keeps left o ts i e before answers kept =
      let (call, answered, u) = answers.system_call in
      let (((o', ts'), io), eq, k) =
        process_frame-Keeps (cost call + left) o ts i e
          (subst (λ c. IsKept b r (cost_of c + left) o ts) answered kept) before in
      let indexes = sierra_indexes b e in
      let ts'' = if b.debug_mode then process_debugger_trace b ts' e indexes io else ts' in
      let k' = debug_if-IsKept b r (cost call + left) o' b.debug_mode e io indexes ts' k in
      rw (process_trace_entry, eq, answered) (handle_system_calls-Keeps b r left o' ts'' call k')

  -- The entries from the i-th on
  pub process_entries-Keeps :
      (i : ℕ) (es : List RelocatedTraceEntry) (o : Output) (ts : TraceState)
      → ((j : ℕ) → get_elem? b.vm_trace (i + j) ≡ get_elem? es j)
      → ((e : RelocatedTraceEntry) → get_elem? es 0 ≡ some e → HasBefore b i e ts)
      → IsKept b r (contract_calls b.mappings es) o ts
      → Yields (Keeps b r 0) (process_entries b i es o ts)
  unfolding process_entries contract_calls
  process_entries-Keeps i [] o ts same before kept = ((o, ts), refl, kept)
  process_entries-Keeps i (e ∷ es) o ts same before kept =
      let at : get_elem? b.vm_trace i ≡ some e = ap (get_elem? b.vm_trace) (omega arith) ∙ same 0 in
      let ((o', ts'), eq, k) =
        process_trace_entry-Keeps (contract_calls b.mappings es) o ts i e (before e refl)
          (traceable.answers i e at) kept in
      let ts'' : TraceState = record ts' { prev_fp = e.fp } in
      let k' =
        IsKept-same b r (contract_calls b.mappings es) o' ts' ts''
          (record {
            current = refl;
            loops = refl;
            panic = refl;
            root = refl;
            index = refl;
            reported = refl;
            debug = refl;
          })
          k in
      rw (process_entries, eq)
        (process_entries-Keeps (suc i) es o' ts''
          (λ j. ap (get_elem? b.vm_trace) (omega arith) ∙ same (suc j))
          (λ e' first. inr (e, rw at refl)) k')
