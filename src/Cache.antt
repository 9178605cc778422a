-- ===== src/Cache.antt =====
-- crates/server/src/services/simulation_cache.rs. The moka cache is a parameter: `EntryStore` has
-- its operations, which may drop entries, and what the code relies on. The two kinds of results and
-- their class hashes, the clock and the query for verified classes are parameters too. The keys are
-- the texts of `CacheKey`. Log lines are left out, and counters are below 2^64.
pub mod Reachable
pub mod Sound
mod Samples
use starkloupe_server.Common.{
  ℕ, zero, suc, ◌+◌, ◌-◌, ◌*◌, ◌≡◌, ◌⊎◌, Text, Bool, true, false, Option, none, some, List, [], ◌∷◌,
  ltb, ◌==◌, text_eq, contains, if◌then◌else◌,
}

pub record EntryStore (V : Type 0) : Type 1 where
  pub State : Type 0
  pub empty : State
  pub get : Text → State → Option V
  pub insert : Text → V → State → State
  pub invalidate : Text → State → State
  pub entry_count : State → ℕ
  pub get-empty : (j : Text) → get j empty ≡ none
  -- A write may evict the entry of any key.
  pub get-insert :
      (j k : Text) (v : V) (c : State)
      → (get j (insert k v c) ≡ none)
        ⊎ (get j (insert k v c) ≡ (if k == j then some v else get j c))
  pub get-invalidate :
      (j k : Text) (c : State)
      → (get j (invalidate k c) ≡ none)
        ⊎ (get j (invalidate k c) ≡ (if k == j then none else get j c))

pub data CachedResult (S D : Type 0) : Type 0 where
  simulation : S → CachedResult S D
  debug : D → CachedResult S D

pub record CacheEntry (S D : Type 0) : Type 0 where
  pub result : CachedResult S D
  pub cached_at : ℕ
  pub class_hashes : List Text
  pub verified_class_hashes_at_cache_time : List Text

-- `fetch_verified_classes` on a connection: the hashes of the verified classes, or an error
abbrev pub Database : Type 0
Database = List Text → Option (List Text)

abbrev pub is_expired : {S D : Type 0} → ℕ → ℕ → CacheEntry S D → Bool
is_expired now ttl entry = ltb ttl (now - entry.cached_at)

-- Whether the difference of the two sets is not empty
abbrev pub newly_verified : List Text → List Text → Bool
newly_verified [] verified_at_cache_time = false
newly_verified (h ∷ currently_verified) verified_at_cache_time =
    let rest = newly_verified currently_verified verified_at_cache_time in
    if contains h verified_at_cache_time then rest else true

unfoldable pub should_invalidate_due_to_verification :
    {S D : Type 0} → CacheEntry S D → Database → Bool
should_invalidate_due_to_verification cached db = elim cached.class_hashes [
  | [] ↦ false
  | h ∷ hs ↦ elim (db (h ∷ hs)) [
    | none ↦ false
    | some verified ↦ newly_verified verified cached.verified_class_hashes_at_cache_time
  ]
]

abbrev pub or_nil : Option (List Text) → List Text
or_nil none = []
or_nil (some hs) = hs

abbrev pub fetch_verified_class_hashes : Option Database → List Text → List Text
fetch_verified_class_hashes none class_hashes = []
fetch_verified_class_hashes (some db) class_hashes = or_nil (db class_hashes)

pub record SimulationCache (State : Type 0) : Type 0 where
  pub cache : State
  pub ttl : ℕ
  pub capacity : ℕ
  pub hits : ℕ
  pub misses : ℕ
  pub operations_count : ℕ
  pub last_entry_count : ℕ

module _ (S D : Type 0) (store : EntryStore (CacheEntry S D)) where
  abbrev Cache : Type 0
  Cache = SimulationCache store.State

  -- `new`; the time to live is in minutes.
  unfoldable pub new : ℕ → ℕ → Cache
  new max_capacity ttl_minutes = record {
    cache = store.empty;
    ttl = ttl_minutes * 60;
    capacity = max_capacity;
    hits = 0;
    misses = 0;
    operations_count = 0;
    last_entry_count = 0;
  }

  unfoldable pub log_stats_if_needed : Cache → Cache
  log_stats_if_needed s = record s {
    operations_count = suc s.operations_count;
    last_entry_count = store.entry_count s.cache;
  }

  unfoldable pub record_hit : Cache → Cache
  unfolding log_stats_if_needed
  record_hit s = log_stats_if_needed (record s { hits = suc s.hits })

  unfoldable pub record_miss : Cache → Cache
  unfolding log_stats_if_needed
  record_miss s = log_stats_if_needed (record s { misses = suc s.misses })

  unfoldable pub invalidate : Text → Cache → Cache
  invalidate key s = record s { cache = store.invalidate key s.cache }

  unfoldable pub get_entry : ℕ → Text → Option Database → Cache → Option (CacheEntry S D) × Cache
  unfolding record_hit record_miss invalidate
  get_entry now key db_pool s = elim (store.get key s.cache) [
    | none ↦ (none, record_miss s)
    | some cached ↦ elim (is_expired now s.ttl cached) [
      | true ↦ (none, record_miss (invalidate key s))
      | false ↦ elim db_pool [
        | none ↦ (some cached, record_hit s)
        | some db ↦ elim (should_invalidate_due_to_verification cached db) [
          | true ↦ (none, record_miss (invalidate key s))
          | false ↦ (some cached, record_hit s)
        ]
      ]
    ]
  ]

  abbrev pub simulation_of : Option (CacheEntry S D) → Option S
  simulation_of none = none
  simulation_of (some entry) = elim entry.result [ simulation r ↦ some r | debug d ↦ none ]

  abbrev pub debug_of : Option (CacheEntry S D) → Option D
  debug_of none = none
  debug_of (some entry) = elim entry.result [ simulation r ↦ none | debug d ↦ some d ]

  unfoldable pub get : ℕ → Text → Option Database → Cache → Option S × Cache
  unfolding get_entry
  get now key db_pool s = let (entry, s') = get_entry now key db_pool s in (simulation_of entry, s')

  unfoldable pub get_debug : ℕ → Text → Option Database → Cache → Option D × Cache
  unfolding get_entry
  get_debug now key db_pool s =
      let (entry, s') = get_entry now key db_pool s in (debug_of entry, s')

  -- `new_simulation` and `new_debug` at the time `now`
  abbrev pub new_entry : ℕ → CachedResult S D → List Text → Option Database → CacheEntry S D
  new_entry now result class_hashes db_pool = record {
    result = result;
    cached_at = now;
    class_hashes = class_hashes;
    verified_class_hashes_at_cache_time = fetch_verified_class_hashes db_pool class_hashes;
  }

  unfoldable pub set_entry : Text → CacheEntry S D → Cache → Cache
  unfolding log_stats_if_needed
  set_entry key entry s = log_stats_if_needed (record s { cache = store.insert key entry s.cache })

  -- `set`, with `extract_class_hashes_from_result` as an argument
  unfoldable pub set : (S → List Text) → ℕ → Text → S → Option Database → Cache → Cache
  unfolding set_entry
  set class_hashes now key result db_pool s =
      set_entry key (new_entry now (simulation result) (class_hashes result) db_pool) s

  -- `set_debug`, with `extract_class_hashes_from_debugger_info` as an argument
  unfoldable pub set_debug : (D → List Text) → ℕ → Text → D → Option Database → Cache → Cache
  unfolding set_entry
  set_debug class_hashes now key result db_pool s =
      set_entry key (new_entry now (debug result) (class_hashes result) db_pool) s
