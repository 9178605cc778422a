-- ===== src/Cache/Samples.antt =====
-- A cache over an association list that never evicts, with results that are numbers.
use starkloupe_server.Common.{
  ℕ, ◌+◌, ◌-◌, ◌≡◌, ◌≤◌, refl, arith, inr, Text, codes, true, none, some, List, [], ◌∷◌, length,
  text_eq, contains,
}
use starkloupe_server.Common.Maps.{Map, get, insert, remove, get-insert, get-remove}
use starkloupe_server.Cache
use starkloupe_server.Cache.{
  EntryStore, CacheEntry, CachedResult, simulation, debug, Database, SimulationCache, new, set,
  new_entry, get_debug, get_entry, set_entry, log_stats_if_needed, record_hit, is_expired,
  should_invalidate_due_to_verification,
}
use starkloupe_server.Cache.Reachable.{written, latest, Reachable, started, set_step}
use starkloupe_server.Cache.Sound.{Finds, get-latest, get-verified, Reachable-counters, get-set}

abbrev no_entries : Map Text (CacheEntry ℕ ℕ)
no_entries = []

nothing : (j : Text) → get j no_entries ≡ none
unfolding get
nothing j = refl

abbrev store : EntryStore (CacheEntry ℕ ℕ)
store = record {
  State = Map Text (CacheEntry ℕ ℕ);
  empty = [];
  get = get;
  insert = insert;
  invalidate = remove;
  entry_count = length;
  get-empty = nothing;
  get-insert = λ j k v c. inr (get-insert k j v c);
  get-invalidate = λ j k c. inr (get-remove k j c);
}

abbrev class_hashes : ℕ → List Text
class_hashes n = codes "0x1" ∷ codes "0x2" ∷ []

-- The class 0x1 is verified.
abbrev database : Database
database hs = some (codes "0x1" ∷ [])

abbrev key : Text
key = codes "k"

abbrev written_at_10 : SimulationCache store.State
written_at_10 = set ℕ ℕ store class_hashes 10 key 7 (some database) (new ℕ ℕ store 100 1)

reachable :
    Reachable ℕ ℕ store class_hashes class_hashes
      (written key (new_entry ℕ ℕ store 10 (simulation 7) (class_hashes 7) (some database)) ∷ [])
      written_at_10
reachable = set_step 10 key 7 (some database) (started 100 1)

finds :
    Finds ℕ ℕ store class_hashes class_hashes 60 key (some database) written_at_10 (simulation 7)
unfolding Cache.get get_entry set set_entry new get insert should_invalidate_due_to_verification
finds = refl

get-latest_example :
    (e : CacheEntry ℕ ℕ) × (latest key
        (written key (new_entry ℕ ℕ store 10 (simulation 7) (class_hashes 7) (some database)) ∷ [])
      ≡ some e)
    × (e.result ≡ simulation 7)
    × (60 - e.cached_at ≤ 60)
unfolding set new
get-latest_example =
    get-latest ℕ ℕ store class_hashes class_hashes 60 key (some database) (simulation 7) reachable
      finds

get-verified_example : contains (codes "0x1") (codes "0x1" ∷ []) ≡ true
get-verified_example =
    get-verified ℕ ℕ store class_hashes class_hashes 60 key database (simulation 7) reachable finds
      refl refl refl (codes "0x1") refl

Reachable-counters_example :
    (written_at_10.hits + written_at_10.misses ≡ 0) × (written_at_10.operations_count ≡ 1)
Reachable-counters_example = Reachable-counters ℕ ℕ store class_hashes class_hashes reachable

kept :
    get key (
      insert key
        (new_entry ℕ ℕ store 10 (simulation 7) (class_hashes 7) (some database))
        no_entries)
    ≡ some (new_entry ℕ ℕ store 10 (simulation 7) (class_hashes 7) (some database))
unfolding get insert
kept = refl

abbrev empty_cache : SimulationCache store.State
empty_cache = record {
  cache = [];
  ttl = 60;
  capacity = 100;
  hits = 0;
  misses = 0;
  operations_count = 0;
  last_entry_count = 0;
}

get-set_example :
    (Cache.get ℕ ℕ store 70 key none
      (set ℕ ℕ store class_hashes 10 key 7 (some database) empty_cache)).0
    ≡ some 7
get-set_example =
    get-set ℕ ℕ store class_hashes class_hashes 10 70 key 7 (some database) empty_cache kept
      (omega arith)
