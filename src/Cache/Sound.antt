-- ===== src/Cache/Sound.antt =====
-- What a lookup of the cache returns, on every sequence of operations and evictions.
use starkloupe_server.Common.{
  ℕ, suc, ◌+◌, ◌-◌, ◌≡◌, ◌≤◌, refl, sym, ap, subst, ◌∙◌, inl, inr, arith, Text, true, false, Option,
  none, some, List, ◌∷◌, ltb, text_eq, contains, some_inj,
}
use starkloupe_server.Cache.{
  EntryStore, CachedResult, simulation, debug, CacheEntry, Database, newly_verified,
  should_invalidate_due_to_verification, SimulationCache, new, record_hit, record_miss, invalidate,
  get_entry, get, get_debug, set, set_debug, set_entry, new_entry, simulation_of, debug_of,
}
use starkloupe_server.Cache.Reachable.{
  Event, latest, lookups, writes, Reachable, started, set_step, set_debug_step, get_step,
  get_debug_step, invalidate_step, evict_step, outdated, get_entry-cases, get_entry-Returned,
  newly_verified-false,
}

module _ (S D : Type 0) (store : EntryStore (CacheEntry S D)) (class_hashes : S → List Text)
    (debug_class_hashes : D → List Text) where
  -- A simulation is found by `get`, a debugger result by `get_debug`.
  abbrev pub Finds :
      ℕ → Text → Option Database → SimulationCache store.State → CachedResult S D → Type 0
  Finds now key db s (simulation r) = (get S D store now key db s).0 ≡ some r
  Finds now key db s (debug r) = (get_debug S D store now key db s).0 ≡ some r

  simulation_of-some :
      (o : Option (CacheEntry S D)) {r : S}
      → simulation_of S D store o ≡ some r
      → (e : CacheEntry S D) × (o ≡ some e) × (e.result ≡ simulation r)
  simulation_of-some none h = absurd (ground arith)
  simulation_of-some (some e) h = (e, refl, result_of e.result h)
    where
      result_of :
          (q : CachedResult S D) {r : S}
          → (elim q [ simulation r ↦ some r | debug d ↦ none ]) ≡ some r
          → q ≡ simulation r
      result_of (simulation r) h = ap simulation (some_inj h)
      result_of (debug d) h = absurd (ground arith)

  debug_of-some :
      (o : Option (CacheEntry S D)) {r : D}
      → debug_of S D store o ≡ some r
      → (e : CacheEntry S D) × (o ≡ some e) × (e.result ≡ debug r)
  debug_of-some none h = absurd (ground arith)
  debug_of-some (some e) h = (e, refl, result_of e.result h)
    where
      result_of :
          (q : CachedResult S D) {r : D}
          → (elim q [ simulation r ↦ none | debug d ↦ some d ]) ≡ some r
          → q ≡ debug r
      result_of (debug r) h = ap debug (some_inj h)
      result_of (simulation d) h = absurd (ground arith)

  Finds-entry :
      (now : ℕ) (key : Text) (db : Option Database) (s : SimulationCache store.State)
      (r : CachedResult S D)
      → Finds now key db s r
      → (e : CacheEntry S D) × ((get_entry S D store now key db s).0 ≡ some e) × (e.result ≡ r)
  unfolding get get_debug
  Finds-entry now key db s (simulation r) f =
      simulation_of-some (get_entry S D store now key db s).0 f
  Finds-entry now key db s (debug r) f = debug_of-some (get_entry S D store now key db s).0 f

  -- In every reachable state, a simulation that `get` returns is the result of the entry that was
  -- written last under the key and not invalidated since, and that entry is no older than the time
  -- to live; likewise for a debugger result that `get_debug` returns.
  pub get-latest :
      (now : ℕ) (key : Text) (db : Option Database) {h : List (Event S D)}
      {s : SimulationCache store.State} (r : CachedResult S D)
      → Reachable S D store class_hashes debug_class_hashes h s
      → Finds now key db s r
      → (e : CacheEntry S D) × (latest key h ≡ some e)
        × (e.result ≡ r)
        × (now - e.cached_at ≤ s.ttl)
  get-latest now key db {s = s} r p f =
      let (e, o, q) = Finds-entry now key db s r f in
      let (l, age, v) =
        get_entry-Returned S D store class_hashes debug_class_hashes now key db p o in
      (e, l, q, age)

  outdated-false :
      (db : Database) (e : CacheEntry S D) {c0 : Text} {cs verified : List Text}
      → should_invalidate_due_to_verification e db ≡ false
      → e.class_hashes ≡ c0 ∷ cs
      → db (c0 ∷ cs) ≡ some verified
      → newly_verified verified e.verified_class_hashes_at_cache_time ≡ false
  unfolding should_invalidate_due_to_verification
  outdated-false db e {verified = verified} h ch q =
      let same : should_invalidate_due_to_verification e db
          ≡ newly_verified verified e.verified_class_hashes_at_cache_time =
        rw (ch, q, should_invalidate_due_to_verification) refl in
      sym same ∙ h

  -- In every reachable state, if a lookup that can query the database returns a result, and the
  -- latest entry of the key has class hashes for which the query gives the verified ones, then each
  -- of these was verified already when the entry was cached.
  pub get-verified :
      (now : ℕ) (key : Text) (db : Database) {h : List (Event S D)}
      {s : SimulationCache store.State} (r : CachedResult S D) {e : CacheEntry S D} {c0 : Text}
      {cs verified : List Text}
      → Reachable S D store class_hashes debug_class_hashes h s
      → Finds now key (some db) s r
      → latest key h ≡ some e
      → e.class_hashes ≡ c0 ∷ cs
      → db (c0 ∷ cs) ≡ some verified
      → (c : Text) → contains c verified ≡ true
      → contains c e.verified_class_hashes_at_cache_time ≡ true
  get-verified now key db {s = s} r {e} {c0} {cs} {verified} p f l ch q c v =
      let (e', o, w) = Finds-entry now key (some db) s r f in
      let (l', age, x) =
        get_entry-Returned S D store class_hashes debug_class_hashes now key (some db) p o in
      let x' : outdated S D store class_hashes debug_class_hashes (some db) e ≡ false =
        subst (λ e. outdated S D store class_hashes debug_class_hashes (some db) e ≡ false)
          (some_inj (sym l' ∙ l)) x in
      newly_verified-false S D store class_hashes debug_class_hashes verified
        e.verified_class_hashes_at_cache_time c (outdated-false db e x' ch q) v

  -- A lookup counts one operation, and one hit or one miss.
  get_entry-counters :
      (now : ℕ) (key : Text) (db : Option Database) (s : SimulationCache store.State)
      → let s' = (get_entry S D store now key db s).1 in
        (s'.hits + s'.misses ≡ suc (s.hits + s.misses))
        × (s'.operations_count ≡ suc s.operations_count)
  unfolding record_miss record_hit invalidate
  get_entry-counters now key db s =
      elim (get_entry-cases S D store class_hashes debug_class_hashes now key db s) [
        | inl e ↦ rw e (omega arith)
        | inr (inl e) ↦ rw e (omega arith)
        | inr (inr (c, g, x, y, e)) ↦ rw e (omega arith)
      ]

  -- In every reachable state, the hits and misses add up to the number of lookups, and the count of
  -- operations is the number of lookups and writes: invalidations and evictions are not counted.
  pub Reachable-counters :
      {h : List (Event S D)} {s : SimulationCache store.State}
      → Reachable S D store class_hashes debug_class_hashes h s
      → (s.hits + s.misses ≡ lookups h) × (s.operations_count ≡ lookups h + writes h)
  unfolding new set set_debug set_entry get get_debug invalidate
  Reachable-counters (started m t) = omega arith
  Reachable-counters (set_step now key r db p) = omega (arith, Reachable-counters p)
  Reachable-counters (set_debug_step now key r db p) = omega (arith, Reachable-counters p)
  Reachable-counters (get_step now key db {h} {s} p) =
      omega (arith, Reachable-counters p, get_entry-counters now key db s)
  Reachable-counters (get_debug_step now key db {h} {s} p) =
      omega (arith, Reachable-counters p, get_entry-counters now key db s)
  Reachable-counters (invalidate_step key p) = omega (arith, Reachable-counters p)
  Reachable-counters (evict_step c f p) = omega (arith, Reachable-counters p)

  -- A simulation that was set and not evicted at once is what `get` returns for the key, without a
  -- database, as long as its age is at most the time to live.
  pub get-set :
      (now later : ℕ) (key : Text) (result : S) (db : Option Database)
      (s : SimulationCache store.State)
      → let entry = new_entry S D store now (simulation result) (class_hashes result) db in
        store.get key (store.insert key entry s.cache) ≡ some entry
        → later - now ≤ s.ttl
        → (get S D store later key none (set S D store class_hashes now key result db s)).0
          ≡ some result
  unfolding get get_entry set set_entry
  get-set now later key result db s kept age =
      let young : ltb s.ttl (later - now) ≡ false = ground arith in rw (kept, young, get_entry) refl
