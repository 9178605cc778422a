-- ===== src/Calls/Spec.antt =====
-- What the call map should hold: calls are numbered in preorder.
use starkloupe_server.Common.{
  ℕ, ◌+◌, Option, none, some, List, [], ◌∷◌, ◌++◌, ltb, nat_beq, if◌then◌else◌,
}
use starkloupe_server.Calls.{
  CallTraceNodes, nil, entry_point_call, deploy_without_constructor, ContractCall,
}
use starkloupe_server.Calls.Builder.{new_call}

-- The entry point calls of a forest.
abbrev pub size : CallTraceNodes → ℕ
size nil = 0
size (deploy_without_constructor rest) = size rest
size (entry_point_call t inner rest) = 1 + size inner + size rest

-- The ids of the calls of one level, if the numbering starts at `n`.
abbrev pub child_ids : ℕ → CallTraceNodes → List ℕ
child_ids n nil = []
child_ids n (deploy_without_constructor rest) = child_ids n rest
child_ids n (entry_point_call t inner rest) = n ∷ child_ids (n + 1 + size inner) rest

-- The call with id `k`, if the calls of the forest are numbered from `n` on.
abbrev pub call_at : ℕ → ℕ → ℕ → CallTraceNodes → ℕ → Option ContractCall
call_at n parent level nil k = none
call_at n parent level (deploy_without_constructor rest) k = call_at n parent level rest k
call_at n parent level (entry_point_call t inner rest) k =
    if nat_beq n k
    then some (record (new_call t n parent level) { children_call_ids = child_ids (n + 1) inner })
    else if ltb k (n + 1 + size inner)
    then call_at (n + 1) n (level + 1) inner k
    else call_at (n + 1 + size inner) parent level rest k

abbrev pub append_children : List ℕ → Option ContractCall → Option ContractCall
append_children ids none = none
append_children ids (some c) = some (record c { children_call_ids = c.children_call_ids ++ ids })
