-- ===== src/Calls/Register.antt =====
-- One registration: `process_call` up to the traversal of the nested calls.
use mathlib.Core.List.{append_assoc, append-nil}
use mathlib.Core.Option
use starkloupe_server.Common.{
  ℕ, ◌+◌, ◌≤◌, ◌<◌, ◌≡◌, refl, Bool, Option, none, some, List, [], ◌∷◌, ◌++◌, ltb, nat_beq,
  if◌then◌else◌, arith, nat_eq,
}
use starkloupe_server.Common.Maps.{get, insert, modify, get-insert, get-modify}
use starkloupe_server.Calls.{CallTrace, CallTraceNodes, ContractCall, ContractCallsMap, is_err}
use starkloupe_server.Calls.Builder.{
  Builder, new_call, record_failure, push_child, add_child, register_call,
}
use starkloupe_server.Calls.Spec.{size, child_ids, call_at, append_children}

-- Before a traversal for `parent`: the ids from the counter on are free, and the parent is there.
pub record IsReady (parent : ℕ) (b : Builder) : Type 0 where
  pub positive : 0 < parent
  pub below : parent < b.next_call_id
  pub present : (c : ContractCall) × (get parent b.contract_calls_map ≡ some c)
  pub fresh : (k : ℕ) → b.next_call_id ≤ k → get k b.contract_calls_map ≡ none

-- What the traversal of `nodes` for `parent` does to the counter and the map.
pub record Traversed (parent level : ℕ) (nodes : CallTraceNodes) (b b' : Builder) : Type 0 where
  pub next : b'.next_call_id ≡ b.next_call_id + size nodes
  pub calls :
      (k : ℕ)
      → get k b'.contract_calls_map ≡ (
          if nat_beq parent k
          then append_children (child_ids b.next_call_id nodes) (get k b.contract_calls_map)
          else if ltb k b.next_call_id
          then get k b.contract_calls_map
          else call_at b.next_call_id parent level nodes k)

pub append_children-nil : (o : Option ContractCall) → append_children [] o ≡ o
append_children-nil none = refl
append_children-nil (some c) = rw append-nil

pub append_children-append :
    (xs ys : List ℕ) (o : Option ContractCall)
    → append_children ys (append_children xs o) ≡ append_children (xs ++ ys) o
append_children-append xs ys none = refl
append_children-append xs ys (some c) = rw append_assoc

map-push_child :
    (n : ℕ) (o : Option ContractCall) → Option.map (push_child n) o ≡ append_children (n ∷ []) o
map-push_child n none = refl
map-push_child n (some c) = refl

pub record Registered (t : CallTrace) (parent level : ℕ) (b b' : Builder) : Type 0 where
  pub next : b'.next_call_id ≡ b.next_call_id + 1
  pub calls :
      (k : ℕ)
      → get k b'.contract_calls_map ≡ (
          if nat_beq parent k
          then append_children (b.next_call_id ∷ []) (get k b.contract_calls_map)
          else if nat_beq b.next_call_id k
          then some (new_call t b.next_call_id parent level)
          else get k b.contract_calls_map)

record_failure_map :
    (failed : Bool) (id level : ℕ) (b : Builder)
    → (record_failure failed id level b).contract_calls_map ≡ b.contract_calls_map
unfolding record_failure
record_failure_map failed id level b = ground arith

add_child_present :
    (parent id : ℕ) (call c : ContractCall) (m : ContractCallsMap)
    → 0 < parent
    → parent < id
    → get parent m ≡ some c
    → add_child parent id (insert id call m)
      ≡ some (modify parent (push_child id) (insert id call m))
unfolding add_child
add_child_present parent id call c m p q h = ground (arith, get-insert id parent call m)

abbrev pub registered : CallTrace → ℕ → ℕ → Builder → Builder
registered t parent level b =
    let id = b.next_call_id in
    let call = new_call t id parent level in
    record (record_failure (is_err t.result) id (level + 1) b) {
      next_call_id = id + 1;
      contract_calls_map = modify parent (push_child id) (insert id call b.contract_calls_map);
    }

pub register_call-eq :
    (t : CallTrace) (parent level : ℕ) (b : Builder)
    → IsReady parent b
    → register_call t parent level b ≡ some (registered t parent level b)
unfolding register_call add_child
register_call-eq t parent level b r = ground (
  arith,
  record_failure_map (is_err t.result) b.next_call_id (level + 1) b,
  r.positive,
  r.below,
  r.present.1,
  get-insert b.next_call_id parent (new_call t b.next_call_id parent level) b.contract_calls_map,
)

pub registered-Registered :
    (t : CallTrace) (parent level : ℕ) (b : Builder)
    → IsReady parent b
    → Registered t parent level b (registered t parent level b)
registered-Registered t parent level b r = record {
  next = refl;
  calls = λ k. ground (
    arith,
    r.below,
    map-push_child b.next_call_id (get parent b.contract_calls_map),
    get-modify parent k (push_child b.next_call_id)
        (insert b.next_call_id (new_call t b.next_call_id parent level) b.contract_calls_map),
    get-insert b.next_call_id k (new_call t b.next_call_id parent level) b.contract_calls_map,
  );
}
