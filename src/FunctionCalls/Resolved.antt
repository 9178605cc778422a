-- ===== src/FunctionCalls/Resolved.antt =====
-- The mappings that are found for a call are compiled from its own class or that of its entry point.
use starkloupe_server.Common.{
  ℕ, ◌≡◌, ◌≢◌, ◌⊎◌, refl, sym, ap, ◌∙◌, subst, inl, inr, Option, none, some, nat_eq, nat_beq,
  nat_beq_iff, some_inj, Option-cases, Bool-cases, if◌then◌else◌,
}
use starkloupe_server.Common.Maps.{Map, get, insert, get-insert}
use starkloupe_server.Common.Run.{Yields}
use starkloupe_server.Calls.{ContractCall}
use starkloupe_server.FunctionCalls.{
  Services, cache_class, cached_mappings, data_of, with_hash, class_data, forked_mappings,
  resolve_entry_point, resolve_found,
}
use starkloupe_server.FunctionCalls.Built.{IsCallable}

module _ {D K M S : Type 0} (s : Services D K M S) where
  -- The mappings are compiled from the class data of the hash, or from the fork's class.
  abbrev pub OfHash : ℕ → M → Type 0
  OfHash hash m =
      ((d : D) × (get hash s.classes_data ≡ some d)
        × (s.compile_class (s.get_contract_class d) ≡ some m))
      ⊎ ((k : K) × (s.fork_class hash ≡ some k) × (s.compile_class k ≡ some m))

  -- Of the class of the call or of its entry point.
  abbrev pub Resolves : ContractCall → M → Type 0
  Resolves c m =
      (hash : ℕ) × ((c.class_hash ≡ some hash) ⊎ (c.entry_point.class_hash ≡ some hash))
      × OfHash hash m

  -- The storage changes of a call can be read, and its trace can be followed, with its own mappings.
  abbrev pub IsServed : ContractCall → Type 0
  IsServed c =
      (m : M)
      → Resolves c m
      → Yields {0, 0} (λ r. Unit) (s.storage_changes m c)
        × ((hash : ℕ) (d : D) → class_data s c ≡ some (hash, d) → IsCallable s c d m)

  abbrev pub CacheOk : Map ℕ M → Type 0
  CacheOk cache = (hash : ℕ) (m : M) → get hash cache ≡ some m → OfHash hash m

  abbrev pub Found : ContractCall → (Option M × Option D) × Map ℕ M → Type 0
  Found c r =
      CacheOk r.1
      × ((m : M) → r.0.0 ≡ some m → Resolves c m)
      × ((d : D) → r.0.1 ≡ some d → (hash : ℕ) × (class_data s c ≡ some (hash, d)))

  abbrev pub FoundFork : ℕ → Option M × Map ℕ M → Type 0
  FoundFork hash r = CacheOk r.1 × ((m : M) → r.0 ≡ some m → OfHash hash m)

module _ {D K M S : Type 0} (s : Services D K M S)
    (compiles : (k : K) → s.compile_class k ≢ none) where
  CacheOk-insert :
      (hash : ℕ) (m : M) (cache : Map ℕ M)
      → OfHash s hash m
      → CacheOk s cache
      → CacheOk s (insert hash m cache)
  CacheOk-insert hash m cache of ok j m' h = elim (Bool-cases (nat_beq hash j)) [
    | inl e ↦
        let h' : some m ≡ some m' =
          subst (λ b. (if b then some m else get j cache) ≡ some m') e
            (sym (get-insert hash j m cache) ∙ h) in
        subst (λ k. OfHash s k m') ((nat_beq_iff hash j).0 e)
          (subst (OfHash s hash) (some_inj h') of)
    | inr e ↦ ok j m' (
        subst (λ b. (if b then some m else get j cache) ≡ some m') e
          (sym (get-insert hash j m cache) ∙ h))
  ]

  cache_class-Yields :
      (hash : ℕ) (k : K) (cache : Map ℕ M)
      → ((m : M) → s.compile_class k ≡ some m → OfHash s hash m)
      → CacheOk s cache
      → Yields (λ r. OfHash s hash r.0 × CacheOk s r.1) (cache_class hash (s.compile_class k) cache)
  cache_class-Yields hash k cache of ok = elim (Option-cases (s.compile_class k)) [
    | inl e ↦ absurd (compiles k e)
    | inr (m, e) ↦ (
      (m, insert hash m cache),
      rw (e, cache_class) refl,
      (of m e, CacheOk-insert hash m cache (of m e) ok),
    )
  ]

  cached_mappings-Yields :
      (hash : ℕ) (d : D) (cache : Map ℕ M)
      → get hash s.classes_data ≡ some d
      → CacheOk s cache
      → Yields
          (λ r. OfHash s hash r.0 × CacheOk s r.1)
          (cached_mappings s hash (s.get_contract_class d) cache)
  cached_mappings-Yields hash d cache at ok = elim (Option-cases (get hash cache)) [
    | inr (m, e) ↦ ((m, cache), rw (cached_mappings, e) refl, (ok hash m e, ok))
    | inl e ↦
        rw (cached_mappings, e)
          (cache_class-Yields hash (s.get_contract_class d) cache (λ m c. inl (d, at, c)) ok)
  ]

  forked_mappings-Yields :
      (hash : ℕ) (k : Option K) (cache : Map ℕ M)
      → s.fork_class hash ≡ k
      → CacheOk s cache
      → Yields (FoundFork s hash) (forked_mappings s hash k cache)
  forked_mappings-Yields hash none cache at ok = ((none, cache), refl, (ok, λ m h. absurd cc))
  forked_mappings-Yields hash (some k) cache at ok =
      let (r, e, (of, ok')) = cache_class-Yields hash k cache (λ m c. inr (k, at, c)) ok in
      ((some r.0, r.1), rw e refl, (ok', λ m h. subst (OfHash s hash) (some_inj h) of))

  resolve_fork-Yields :
      (hash : ℕ) (cache : Map ℕ M)
      → CacheOk s cache
      → Yields (FoundFork s hash) (resolve_entry_point s (some hash) cache)
  resolve_fork-Yields hash cache ok = elim (Option-cases (get hash cache)) [
    | inr (m, e) ↦ (
      (some m, cache),
      rw (resolve_entry_point, e) refl,
      (ok, λ m' h. subst (OfHash s hash) (some_inj h) (ok hash m e)),
    )
    | inl e ↦
        rw (resolve_entry_point, e) (forked_mappings-Yields hash (s.fork_class hash) cache refl ok)
  ]

  resolve_none-Yields :
      (c : ContractCall) (cache : Map ℕ M) (hash : Option ℕ)
      → c.entry_point.class_hash ≡ hash
      → CacheOk s cache
      → Yields {0, 0}
          (λ r. CacheOk s r.1 × ((m : M) → r.0 ≡ some m → Resolves s c m))
          (resolve_entry_point s hash cache)
  resolve_none-Yields c cache none at ok = ((none, cache), refl, (ok, λ m h. absurd cc))
  resolve_none-Yields c cache (some hash) at ok =
      let (r, e, (ok', of)) = resolve_fork-Yields hash cache ok in
      (r, e, (ok', λ m h. (hash, inr at, of m h)))

  with_hash_inv :
      (own hash : ℕ) (found : Option D) (d : D)
      → with_hash own found ≡ some (hash, d)
      → (own ≡ hash) × (found ≡ some d)
  with_hash_inv own hash none d h = absurd cc
  with_hash_inv own hash (some d') d h =
      (ap (λ x. x.0) (some_inj h), ap (λ (x : ℕ × D). some x.1) (some_inj h))

  data_of_inv :
      (own : Option ℕ) (hash : ℕ) (d : D)
      → data_of s own ≡ some (hash, d)
      → (own ≡ some hash) × (get hash s.classes_data ≡ some d)
  data_of_inv none hash d h = absurd cc
  data_of_inv (some own) hash d h =
      let (same, at) = with_hash_inv own hash (get own s.classes_data) d h in
      (ap some same, subst (λ k. get k s.classes_data ≡ some d) same at)

  class_data_inv :
      (c : ContractCall) (hash : ℕ) (d : D)
      → class_data s c ≡ some (hash, d)
      → (c.class_hash ≡ some hash) × (get hash s.classes_data ≡ some d)
  class_data_inv c hash d h = data_of_inv c.class_hash hash d h

  pub resolve_found-Yields :
      (found : Option (ℕ × D)) (c : ContractCall) (cache : Map ℕ M)
      → class_data s c ≡ found
      → CacheOk s cache
      → Yields (Found s c) (resolve_found s found c cache)
  resolve_found-Yields none c cache at ok =
      let (r, e, (ok', of)) = resolve_none-Yields c cache c.entry_point.class_hash refl ok in
      (((r.0, none), r.1), rw e refl, (ok', of, λ d h. absurd cc))
  resolve_found-Yields (some (hash, d)) c cache at ok =
      let (own, data_at) = class_data_inv c hash d at in
      let (r, e, (of, ok')) = cached_mappings-Yields hash d cache data_at ok in
      (
        ((some r.0, some d), r.1),
        rw e refl,
        (
          ok',
          λ m h. (hash, inl own, subst (OfHash s hash) (some_inj h) of),
          λ d' h. (hash, at ∙ ap (λ x. with_hash hash (some x)) (some_inj h)),
        ),
      )
