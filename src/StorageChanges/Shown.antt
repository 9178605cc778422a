-- ===== src/StorageChanges/Shown.antt =====
-- The storage changes of a call that are shown.
use starkloupe_server.Common.{
  ℕ, ◌≡◌, refl, sym, subst, ◌∙◌, ap, inl, inr, Option, none, some, List, [], ◌∷◌, nat_eq, nat_beq,
  nat_beq_iff, Bool-cases, arith, if◌then◌else◌, map,
}
use starkloupe_server.Common.Maps.{Map, get, insert, get-insert}
use starkloupe_server.Common.Run.{done, unwrap, >>=-eq-done, Yields}
use starkloupe_server.Calls.{ContractCall, ContractCallsMap}
use starkloupe_server.Mappings.{CasmInstruction, get_pc_sys_call_mappings}
use starkloupe_server.InternalTrace.{
  ESysCall, contract_call, event_call, storage_write, RelocatedTraceEntry,
}
use starkloupe_server.InternalTrace.SyscallAtStep.{SyscallReader, get_system_call_at_trace_step}
use starkloupe_server.StorageChanges.{
  StorageChanges, StorageView, record_write, collect_writes, get_storage_changes, fetch_before,
  filter_changed,
}

-- No address stands twice.
abbrev pub IsUnique : {V : Type 0} → Map ℕ V → Type 0
IsUnique [] = Unit
IsUnique ((k, v) ∷ m) = (get k m ≡ none) × IsUnique m

insert-IsUnique : {V : Type 0} (k : ℕ) (v : V) (m : Map ℕ V) → IsUnique m → IsUnique (insert k v m)
unfolding insert get
insert-IsUnique k v [] u = (refl, tt)
insert-IsUnique k v ((j, w) ∷ m) u = elim (Bool-cases (nat_beq j k)) [
  | inl e ↦ rw (insert, e) (ap (λ i. get i m) (sym ((nat_beq_iff j k).0 e)) ∙ u.0, u.1)
  | inr e ↦
      rw (insert, e)
        (
          get-insert k j v m ∙ ground (arith, nat_beq_iff k j, nat_beq_iff j k, u.0),
          insert-IsUnique k v m u.1,
        )
]

done_inv : {A : Type 0} {a b : A} → done a ≡ done b → a ≡ b
done_inv h = cc

record_write-IsUnique :
    (view : StorageView) (contract : ℕ) (call : Option ESysCall) (changes : StorageChanges)
    {changes' : StorageChanges}
    → record_write view contract call changes ≡ done changes'
    → IsUnique changes
    → IsUnique changes'
unfolding record_write
record_write-IsUnique view contract none changes h u = subst IsUnique (done_inv h) u
record_write-IsUnique view contract (some (contract_call a s)) changes h u =
    subst IsUnique (done_inv h) u
record_write-IsUnique view contract (some (event_call e)) changes h u =
    subst IsUnique (done_inv h) u
record_write-IsUnique view contract (some (storage_write a v)) changes h u =
    let (key, e, h') = >>=-eq-done (unwrap (view.storage_key a)) _ h in
    subst IsUnique (done_inv h') (insert-IsUnique a (view.before_at contract key, v) changes u)

module _ {C : Type 0} (view : StorageView) (contract : ℕ) where
  collect_writes-IsUnique :
      (r : SyscallReader C) (entries : List RelocatedTraceEntry) (changes : StorageChanges)
      {changes' : StorageChanges}
      → collect_writes r view contract entries changes ≡ done changes'
      → IsUnique changes
      → IsUnique changes'
  unfolding collect_writes
  collect_writes-IsUnique r [] changes h u = subst IsUnique (done_inv h) u
  collect_writes-IsUnique r (entry ∷ entries) changes h u =
      let (call, e, h₁) = >>=-eq-done (get_system_call_at_trace_step r entry) _ h in
      let (changes₁, e₁, h₂) = >>=-eq-done (record_write view contract call changes) _ h₁ in
      collect_writes-IsUnique r entries changes₁ h₂
        (record_write-IsUnique view contract call changes e₁ u)

  get_storage_changes-IsUnique :
      (r : SyscallReader C) (insts : List (CasmInstruction C)) (trace : List RelocatedTraceEntry)
      {changes : StorageChanges}
      → get_storage_changes r insts view contract trace ≡ done changes
      → IsUnique changes
  unfolding get_storage_changes
  get_storage_changes-IsUnique r insts trace h =
      let (pcs, e, h') = >>=-eq-done (get_pc_sys_call_mappings (map (λ x. x.pc) trace) insts) _ h in
      collect_writes-IsUnique _ trace [] h' tt

-- What is shown of a write: nothing if the value before is unknown or the value after
abbrev pub shown : Option ℕ → ℕ → Option (ℕ × ℕ)
shown none after = none
shown (some before) after = if nat_beq before after then none else some (before, after)

-- .. with the value from the provider where the view had none
abbrev pub shown_change : Option ℕ → Option (Option ℕ × ℕ) → Option (ℕ × ℕ)
shown_change provided none = none
shown_change provided (some (none, after)) = shown provided after
shown_change provided (some (some before, after)) = shown (some before) after

filter_changed-cons :
    (a k after : ℕ) (before : Option ℕ) (m : StorageChanges)
    → get a (filter_changed m) ≡ none
    → get k (filter_changed ((a, (before, after)) ∷ m))
      ≡ (if nat_beq a k then shown before after else get k (filter_changed m))
unfolding filter_changed
filter_changed-cons a k after none m absent = elim (Bool-cases (nat_beq a k)) [
  | inl e ↦ rw e (ap (λ i. get i (filter_changed m)) (sym ((nat_beq_iff a k).0 e)) ∙ absent)
  | inr e ↦ rw e refl
]
filter_changed-cons a k after (some before) m absent = elim (Bool-cases (nat_beq before after)) [
  | inl same ↦ elim (Bool-cases (nat_beq a k)) [
    | inl e ↦
        rw (filter_changed, same, e)
          (ap (λ i. get i (filter_changed m)) (sym ((nat_beq_iff a k).0 e)) ∙ absent)
    | inr e ↦ rw (filter_changed, same, e) refl
  ]
  | inr other ↦ rw (filter_changed, other) (get-insert a k (before, after) (filter_changed m))
]

module _ (provider : ℕ → ℕ → Option ℕ) (calls : ContractCallsMap) (id : ℕ) (c : ContractCall)
    (known : get id calls ≡ some c) where
  -- What is shown of the changes after they are fetched
  abbrev IsShown : StorageChanges → StorageChanges → Type 0
  IsShown changes m =
      (k : ℕ)
      → get k (filter_changed m)
        ≡ shown_change (provider c.entry_point.storage_address k) (get k changes)

  IsShown-cons :
      (a after : ℕ) (before fetched : Option ℕ) (changes m : StorageChanges)
      → get a changes ≡ none
      → shown fetched after
        ≡ shown_change (provider c.entry_point.storage_address a) (some (before, after))
      → IsShown changes m
      → IsShown ((a, (before, after)) ∷ changes) ((a, (fetched, after)) ∷ m)
  unfolding get
  IsShown-cons a after before fetched changes m fresh same rest k =
      let absent : get a (filter_changed m) ≡ none =
        rest a ∙ ap (shown_change (provider c.entry_point.storage_address a)) fresh in
      filter_changed-cons a k after fetched m absent ∙ elim (Bool-cases (nat_beq a k)) [
        | inl e ↦ rw e (
            same
            ∙ ap
                (λ i.
                  shown_change (provider c.entry_point.storage_address i) (some (before, after)))
                ((nat_beq_iff a k).0 e))
        | inr e ↦ rw (get, e) (rest k)
      ]

  fetch_before-Yields :
      (changes : StorageChanges)
      → IsUnique changes
      → Yields (IsShown changes) (fetch_before provider calls id changes)
  unfolding fetch_before filter_changed get
  fetch_before-Yields [] u = ([], refl, λ k. refl)
  fetch_before-Yields ((a, (some before, after)) ∷ changes) u =
      let (m, e, rest) = fetch_before-Yields changes u.1 in
      (
        (a, (some before, after)) ∷ m,
        rw (fetch_before, e) refl,
        IsShown-cons a after (some before) (some before) changes m u.0 refl rest,
      )
  fetch_before-Yields ((a, (none, after)) ∷ changes) u =
      let (m, e, rest) = fetch_before-Yields changes u.1 in
      let fetched = provider c.entry_point.storage_address a in
      (
        (a, (fetched, after)) ∷ m,
        rw (fetch_before, known, e) refl,
        IsShown-cons a after none fetched changes m u.0 refl rest,
      )

module _ {C : Type 0} (r : SyscallReader C) (insts : List (CasmInstruction C)) (view : StorageView)
    (contract : ℕ) (trace : List RelocatedTraceEntry) (changes : StorageChanges) where
  -- If `get_storage_changes` returns the writes of a contract call that is in the map, fetching the
  -- values before returns, and of each address just the write is kept whose value before is known, from
  -- the view or else from the provider, and not the value after.
  pub get_storage_changes-shown :
      (provider : ℕ → ℕ → Option ℕ) (calls : ContractCallsMap) (id : ℕ) (c : ContractCall)
      → get_storage_changes r insts view contract trace ≡ done changes
      → get id calls ≡ some c
      → (m : StorageChanges) × (fetch_before provider calls id changes ≡ done m)
        × ((k : ℕ)
            → get k (filter_changed m)
              ≡ shown_change (provider c.entry_point.storage_address k) (get k changes))
  get_storage_changes-shown provider calls id c collected known =
      fetch_before-Yields provider calls id c known changes
        (get_storage_changes-IsUnique view contract r insts trace collected)
