-- ===== src/Cache/Reachable.antt =====
-- The states that a cache can be in after any operations and evictions, and what they hold.
use starkloupe_server.Common.{
  ℕ, suc, ◌-◌, ◌≡◌, ◌≤◌, refl, sym, ap, subst, ◌∙◌, ◌⊎◌, inl, inr, arith, Text, Bool, true, false,
  Option, none, some, List, [], ◌∷◌, ◌==◌, ==_iff, text_eq, contains, if◌then◌else◌, Bool-cases,
  Option-cases, some_inj,
}
use starkloupe_server.Cache.{
  EntryStore, simulation, debug, CacheEntry, Database, is_expired, newly_verified,
  should_invalidate_due_to_verification, SimulationCache, new, record_hit, record_miss, invalidate,
  get_entry, get, get_debug, set, set_debug, set_entry, new_entry,
}

-- What the history of a cache records: the entries that were written, the keys that a caller
-- invalidated, and the lookups.
pub data Event (S D : Type 0) : Type 0 where
  written : Text → CacheEntry S D → Event S D
  invalidated : Text → Event S D
  looked_up : Event S D

-- The entry written last under a key and not invalidated since; the history has its last event first.
abbrev pub latest : {S D : Type 0} → Text → List (Event S D) → Option (CacheEntry S D)
latest k [] = none
latest k (written j e ∷ h) = if j == k then some e else latest k h
latest k (invalidated j ∷ h) = if j == k then none else latest k h
latest k (looked_up ∷ h) = latest k h

abbrev pub lookups : {S D : Type 0} → List (Event S D) → ℕ
lookups [] = 0
lookups (written j e ∷ h) = lookups h
lookups (invalidated j ∷ h) = lookups h
lookups (looked_up ∷ h) = suc (lookups h)

abbrev pub writes : {S D : Type 0} → List (Event S D) → ℕ
writes [] = 0
writes (written j e ∷ h) = suc (writes h)
writes (invalidated j ∷ h) = writes h
writes (looked_up ∷ h) = writes h

module _ (S D : Type 0) (store : EntryStore (CacheEntry S D)) (class_hashes : S → List Text)
    (debug_class_hashes : D → List Text) where
  -- The states of a cache: operations in any order, and evictions at any time.
  pub data Reachable : List (Event S D) → SimulationCache store.State → Type 0 where
    started : (max_capacity ttl_minutes : ℕ) → Reachable [] (new S D store max_capacity ttl_minutes)
    set_step :
        (now : ℕ) (key : Text) (result : S) (db : Option Database) {h : List (Event S D)}
        {s : SimulationCache store.State}
        → Reachable h s
        → Reachable
            (written key (new_entry S D store now (simulation result) (class_hashes result) db) ∷ h)
            (set S D store class_hashes now key result db s)
    set_debug_step :
        (now : ℕ) (key : Text) (result : D) (db : Option Database) {h : List (Event S D)}
        {s : SimulationCache store.State}
        → Reachable h s
        → Reachable
            (written key (new_entry S D store now (debug result) (debug_class_hashes result) db)
              ∷ h)
            (set_debug S D store debug_class_hashes now key result db s)
    get_step :
        (now : ℕ) (key : Text) (db : Option Database) {h : List (Event S D)}
        {s : SimulationCache store.State}
        → Reachable h s
        → Reachable (looked_up ∷ h) (get S D store now key db s).1
    get_debug_step :
        (now : ℕ) (key : Text) (db : Option Database) {h : List (Event S D)}
        {s : SimulationCache store.State}
        → Reachable h s
        → Reachable (looked_up ∷ h) (get_debug S D store now key db s).1
    invalidate_step :
        (key : Text) {h : List (Event S D)} {s : SimulationCache store.State}
        → Reachable h s
        → Reachable (invalidated key ∷ h) (invalidate S D store key s)
    evict_step :
        (c : store.State) {h : List (Event S D)} {s : SimulationCache store.State}
        → ((j : Text) → (store.get j c ≡ none) ⊎ (store.get j c ≡ store.get j s.cache))
        → Reachable h s
        → Reachable h (record s { cache = c })

  -- Every entry that the cache holds is the latest of its key.
  abbrev HoldsLatest : List (Event S D) → store.State → Type 0
  HoldsLatest h c = (j : Text) (e : CacheEntry S D) → store.get j c ≡ some e → latest j h ≡ some e

  insert-HoldsLatest :
      (k : Text) (v : CacheEntry S D) (h : List (Event S D)) (c : store.State)
      → HoldsLatest h c
      → HoldsLatest (written k v ∷ h) (store.insert k v c)
  insert-HoldsLatest k v h c holds j e g = ground (arith, store.get-insert j k v c, holds j e)

  invalidate-HoldsLatest :
      (k : Text) (h : List (Event S D)) (c : store.State)
      → HoldsLatest h c
      → HoldsLatest (invalidated k ∷ h) (store.invalidate k c)
  invalidate-HoldsLatest k h c holds j e g = ground (arith, store.get-invalidate j k c, holds j e)

  drop-HoldsLatest :
      (k : Text) (h : List (Event S D)) (c : store.State)
      → HoldsLatest h c
      → HoldsLatest h (store.invalidate k c)
  drop-HoldsLatest k h c holds j e g = ground (arith, store.get-invalidate j k c, holds j e)

  abbrev pub outdated : Option Database → CacheEntry S D → Bool
  outdated none e = false
  outdated (some db) e = should_invalidate_due_to_verification e db

  -- A lookup finds nothing, drops what it finds, or returns what it finds.
  pub get_entry-cases :
      (now : ℕ) (key : Text) (db : Option Database) (s : SimulationCache store.State)
      → (get_entry S D store now key db s ≡ (none, record_miss S D store s))
        ⊎ ((get_entry S D store now key db s
              ≡ (none, record_miss S D store (invalidate S D store key s)))
            ⊎ ((e : CacheEntry S D) × (store.get key s.cache ≡ some e)
                × (is_expired now s.ttl e ≡ false)
                × (outdated db e ≡ false)
                × (get_entry S D store now key db s ≡ (some e, record_hit S D store s))))
  unfolding get_entry
  get_entry-cases now key none s = elim (Option-cases (store.get key s.cache)) [
    | inl e ↦ inl (rw (e, get_entry) refl)
    | inr (c, e) ↦ elim (Bool-cases (is_expired now s.ttl c)) [
      | inl x ↦ inr (inl (rw (e, x, get_entry) refl))
      | inr x ↦ inr (inr (c, e, x, refl, rw (e, x, get_entry) refl))
    ]
  ]
  get_entry-cases now key (some d) s = elim (Option-cases (store.get key s.cache)) [
    | inl e ↦ inl (rw (e, get_entry) refl)
    | inr (c, e) ↦ elim (Bool-cases (is_expired now s.ttl c)) [
      | inl x ↦ inr (inl (rw (e, x, get_entry) refl))
      | inr x ↦ elim (Bool-cases (should_invalidate_due_to_verification c d)) [
        | inl y ↦ inr (inl (rw (e, x, y, get_entry) refl))
        | inr y ↦ inr (inr (c, e, x, y, rw (e, x, y, get_entry) refl))
      ]
    ]
  ]

  get_entry-keeps :
      (now : ℕ) (key : Text) (db : Option Database) (h : List (Event S D))
      (s : SimulationCache store.State)
      → HoldsLatest h s.cache
      → HoldsLatest h (get_entry S D store now key db s).1.cache
  unfolding record_miss record_hit invalidate
  get_entry-keeps now key db h s holds = elim (get_entry-cases now key db s) [
    | inl e ↦ rw e holds
    | inr (inl e) ↦ rw e (drop-HoldsLatest key h s.cache holds)
    | inr (inr (c, g, x, y, e)) ↦ rw e holds
  ]

  Reachable-HoldsLatest :
      {h : List (Event S D)} {s : SimulationCache store.State}
      → Reachable h s
      → HoldsLatest h s.cache
  unfolding new set set_debug set_entry get get_debug invalidate
  Reachable-HoldsLatest (started m t) = λ j e g. ground (arith, store.get-empty j)
  Reachable-HoldsLatest (set_step now key r db {h} {s} p) =
      insert-HoldsLatest key _ h s.cache (Reachable-HoldsLatest p)
  Reachable-HoldsLatest (set_debug_step now key r db {h} {s} p) =
      insert-HoldsLatest key _ h s.cache (Reachable-HoldsLatest p)
  Reachable-HoldsLatest (get_step now key db {h} {s} p) =
      get_entry-keeps now key db h s (Reachable-HoldsLatest p)
  Reachable-HoldsLatest (get_debug_step now key db {h} {s} p) =
      get_entry-keeps now key db h s (Reachable-HoldsLatest p)
  Reachable-HoldsLatest (invalidate_step key {h} {s} p) =
      invalidate-HoldsLatest key h s.cache (Reachable-HoldsLatest p)
  Reachable-HoldsLatest (evict_step c f p) =
      λ j e g. ground (arith, f j, Reachable-HoldsLatest p j e)

  pub newly_verified-false :
      (now_verified before : List Text) (c : Text)
      → newly_verified now_verified before ≡ false
      → contains c now_verified ≡ true
      → contains c before ≡ true
  newly_verified-false [] before c n h = cc
  newly_verified-false (d ∷ ds) before c n h =
      ground (arith, ==_iff d c, newly_verified-false ds before c)

  pub get_entry-Returned :
      (now : ℕ) (key : Text) (db : Option Database) {h : List (Event S D)}
      {s : SimulationCache store.State} {e : CacheEntry S D}
      → Reachable h s
      → (get_entry S D store now key db s).0 ≡ some e
      → (latest key h ≡ some e) × (now - e.cached_at ≤ s.ttl) × (outdated db e ≡ false)
  get_entry-Returned now key db {h} {s} {e} p r = elim (get_entry-cases now key db s) [
    | inl m ↦ ground arith
    | inr (inl m) ↦ ground arith
    | inr (inr (c, g, x, y, m)) ↦
        let same : c ≡ e = some_inj (sym (ap (λ q. q.0) m) ∙ r) in
        (
          Reachable-HoldsLatest p key e (g ∙ ap some same),
          ground arith,
          subst (λ c. outdated db c ≡ false) same y,
        )
  ]
