-- ===== src/FunctionCalls/Created.antt =====
-- The function calls of all contract calls are created, and are a forest.
use starkloupe_server.Common.{
  ℕ, ◌<◌, ◌≡◌, ◌≢◌, refl, sym, ◌∙◌, inl, inr, Bool, true, false, Option, none, some, [], ◌∷◌,
  nat_eq, Option-cases, All,
}
use starkloupe_server.Common.Maps.{Map, get}
use starkloupe_server.Common.Run.{done, Yields}
use starkloupe_server.Calls.{ContractCall, ContractCallsMap}
use starkloupe_server.InternalTrace.Forest.{IsForest, empty-IsForest}
use starkloupe_server.FunctionCalls.{
  Services, Progress, has_vm_data, clean_up, class_data, resolve_class_data, apply_result,
  build_call, create_for_call, create_all, create_function_calls_map_generic,
  process_storage_changes, storage_changes_if, insert_some, build_with_data,
}
use starkloupe_server.FunctionCalls.Resolved.{IsServed, CacheOk, resolve_found-Yields}
use starkloupe_server.FunctionCalls.Built.{IsBuilt, IsCallable, build_debugger_data-IsBuilt}

-- A call of the VM loses its trace and its memory, any other call is unchanged.
abbrev pub CleanedCall : ContractCall → ContractCall → Type 0
CleanedCall c c' =
    (has_vm_data c ≡ true → (c'.vm_trace ≡ none) × (c'.vm_memory ≡ none))
    × (has_vm_data c ≡ false → c' ≡ c)

-- The same ids in the same order, each call cleaned.
abbrev pub Cleaned : ContractCallsMap → ContractCallsMap → Type 0
Cleaned [] [] = Unit
Cleaned [] (e' ∷ calls') = ⊥
Cleaned (e ∷ calls) [] = ⊥
Cleaned ((k, c) ∷ calls) ((k', c') ∷ calls') = (k' ≡ k) × CleanedCall c c' × Cleaned calls calls'

-- The classes compile, and each call of the VM is served.
pub record IsServing {D K M S : Type 0} (s : Services D K M S) (calls : ContractCallsMap)
    : Type 0 where
  pub compiles : (k : K) → s.compile_class k ≢ none
  pub serves : All (λ (id, c). has_vm_data c ≡ true → IsServed s c) calls

module _ {D K M S : Type 0} (s : Services D K M S)
    (compiles : (k : K) → s.compile_class k ≢ none) where
  process_storage_changes-done :
      (m : M) (c : ContractCall) (changes : Map ℕ S)
      → Yields {0, 0} (λ r. Unit) (s.storage_changes m c)
      → Yields {0, 0} (λ r. Unit) (process_storage_changes s m c changes)
  unfolding process_storage_changes
  process_storage_changes-done m c changes (r, e, u) =
      elim (Option-cases c.entry_point.code_address) [
        | inl none_at ↦ (changes, rw (none_at, process_storage_changes) refl, tt)
        | inr (address, at) ↦
            (insert_some c.call_id r changes, rw (at, e, process_storage_changes) refl, tt)
      ]

  storage_changes_if-done :
      (b : Bool) (m : M) (c : ContractCall) (changes : Map ℕ S)
      → Yields {0, 0} (λ r. Unit) (s.storage_changes m c)
      → Yields {0, 0} (λ r. Unit) (storage_changes_if b s m c changes)
  storage_changes_if-done false m c changes h = (changes, refl, tt)
  storage_changes_if-done true m c changes h = process_storage_changes-done m c changes h

  -- The state of the loop between two calls.
  abbrev IsGood : Progress M S → Type 0
  IsGood p = IsBuilt s.debugger p.output × CacheOk s p.local_class_cache

  build_with_data-Yields :
      (m : M) (d : Option D) (c : ContractCall) (p : Progress M S)
      → ((d' : D) → d ≡ some d' → IsCallable s c d' m)
      → IsGood p
      → Yields (λ r. IsGood r.0) (build_with_data s m d c p)
  unfolding build_with_data apply_result
  build_with_data-Yields m none c p callable good = ((p, c), refl, good)
  build_with_data-Yields m (some d) c p callable good =
      let (r, e, built) = build_debugger_data-IsBuilt s d m c p.output (callable d refl) good.0 in
      (apply_result s d m r.0 r.1 c p, rw (build_with_data, e) refl, (built, good.1))

  build_call-Yields :
      (m : Option M) (d : Option D) (c : ContractCall) (p : Progress M S)
      → ((m' : M)
          → m ≡ some m'
          → Yields {0, 0} (λ r. Unit) (s.storage_changes m' c)
            × ((d' : D) → d ≡ some d' → IsCallable s c d' m'))
      → IsGood p
      → Yields (λ r. IsGood r.0) (build_call s m d c p)
  unfolding build_call
  build_call-Yields none d c p served good = ((p, c), refl, good)
  build_call-Yields (some m) d c p served good =
      let (storage, callable) = served m refl in
      let (changes, e, u) =
        storage_changes_if-done s.with_storage_and_events m c p.storage_changes_map storage in
      let (r, e', good') =
        build_with_data-Yields m d c (record p { storage_changes_map = changes }) callable good in
      (r, rw (build_call, e, e') refl, good')

  create_for_call-Yields :
      (vm : Bool) (c : ContractCall) (p : Progress M S)
      → has_vm_data c ≡ vm
      → (has_vm_data c ≡ true → IsServed s c)
      → IsGood p
      → Yields (λ r. IsGood r.0 × CleanedCall c r.1) (create_for_call s vm c p)
  unfolding create_for_call resolve_class_data
  create_for_call-Yields false c p vm served good =
      ((p, c), refl, (good, ((λ h. absurd (let f : true ≡ false = sym h ∙ vm in cc)), (λ h. refl))))
  create_for_call-Yields true c p vm served good =
      let (((m, d), cache), e, (ok, resolves, has)) =
        resolve_found-Yields s compiles (class_data s c) c p.local_class_cache refl good.1 in
      let p₁ : Progress M S = record p { local_class_cache = cache } in
      let ((p', c'), e', good') =
        build_call-Yields m d c p₁
          (λ m' h.
            let (storage, callable) = served vm m' (resolves m' h) in
            (storage, λ d' h'. let (hash, at) = has d' h' in callable hash d' at))
          (good.0, ok) in
      (
        (p', clean_up c'),
        rw (create_for_call, resolve_class_data, e, e') refl,
        (good', ((λ h. (refl, refl)), (λ h. absurd (let f : true ≡ false = sym vm ∙ h in cc)))),
      )

  create_all-Yields :
      (calls : ContractCallsMap) (p : Progress M S)
      → All (λ (id, c). has_vm_data c ≡ true → IsServed s c) calls
      → IsGood p
      → Yields (λ r. IsGood r.0 × Cleaned calls r.1) (create_all s calls p)
  unfolding create_all
  create_all-Yields [] p served good = ((p, []), refl, (good, tt))
  create_all-Yields ((id, c) ∷ calls) p served good =
      let ((p₁, c₁), e₁, (good₁, cleaned)) =
        create_for_call-Yields (has_vm_data c) c p refl served.0 good in
      let ((p₂, calls₂), e₂, (good₂, rest)) = create_all-Yields calls p₁ served.1 good₁ in
      ((p₂, (id, c₁) ∷ calls₂), rw (create_all, e₁, e₂) refl, (good₂, (refl, cleaned, rest)))

empty-CacheOk : {D K M S : Type 0} (s : Services D K M S) → CacheOk s []
unfolding get
empty-CacheOk s hash m h = absurd cc

-- If every class compiles, the counter starts above 0, and for each contract call of the VM the storage
-- changes can be read and the call trace builder can follow the trace, with the mappings compiled from
-- the call's own class or that of its entry point, then the loop over the contract calls returns with
-- either adapter as builder: the function calls and event calls of all contract calls together are a
-- forest, without event calls in the one with debugger data; every contract call of the VM has lost its
-- trace and its memory, and every other one is unchanged.
pub create_function_calls_map_generic-IsForest :
    {D K M S : Type 0} (s : Services D K M S) (calls : ContractCallsMap) (next_call_id : ℕ)
    (deepest : Option ℕ)
    → IsServing s calls
    → 0 < next_call_id
    → (p : Progress M S) × (calls' : ContractCallsMap) × (create_function_calls_map_generic s calls
          next_call_id deepest
        ≡ done (p, calls'))
      × IsForest p.output
      × (s.debugger ≡ true → p.output.event_calls_map ≡ [])
      × Cleaned calls calls'
unfolding create_function_calls_map_generic get
create_function_calls_map_generic-IsForest s calls next deepest serving above =
    let ((p, calls'), e, (((forest, events), ok), cleaned)) =
      create_all-Yields s serving.compiles calls _ serving.serves
        ((empty-IsForest next above, λ h. refl), empty-CacheOk s) in
    (p, calls', e, forest, events, cleaned)
