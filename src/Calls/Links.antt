-- ===== src/Calls/Links.antt =====
-- How the calls of the preorder numbering hang together.
use starkloupe_server.Common.{
  ℕ, ◌+◌, ◌<◌, ◌≤◌, ◌≡◌, refl, ◌⊎◌, inl, inr, true, false, none, some, ltb, nat_beq, arith, nat_eq,
  contains, Bool-cases,
}
use starkloupe_server.Calls.{
  CallTrace, CallTraceNodes, nil, entry_point_call, deploy_without_constructor, ContractCall,
  from_cheatnet_state_calltrace,
}
use starkloupe_server.Calls.Builder.{new_call}
use starkloupe_server.Calls.Spec.{size, child_ids, call_at}
use starkloupe_server.Calls.Built.{root_call, numbered}

-- A forest has no call below its first id.
call_at-below :
    (nodes : CallTraceNodes) (n parent level k : ℕ) → k < n → call_at n parent level nodes k ≡ none
call_at-below nil n parent level k h = refl
call_at-below (deploy_without_constructor rest) n parent level k h =
    call_at-below rest n parent level k h
call_at-below (entry_point_call t inner rest) n parent level k h =
    ground (arith, call_at-below inner (n + 1) n (level + 1) k)

call_at-below_some :
    (nodes : CallTraceNodes) (n parent level k : ℕ) {c : ContractCall}
    → call_at n parent level nodes k ≡ some c
    → n ≤ k
call_at-below_some nodes n parent level k e = elim (Bool-cases (ltb k n)) [
  | inl below ↦ absurd (ground (arith, call_at-below nodes n parent level k))
  | inr above ↦ ground arith
]

-- `p` is the parent of the call `c` with id `k`.
pub record IsParent (p : ContractCall) (k : ℕ) (c : ContractCall) : Type 0 where
  pub child : contains k p.children_call_ids ≡ true
  pub deeper : c.contract_calls_nesting_level ≡ p.contract_calls_nesting_level + 1

-- In a forest for `parent` a call hangs under `parent`, or under another call of the forest.
abbrev Hangs : ℕ → ℕ → ℕ → CallTraceNodes → ℕ → ContractCall → Type 0
Hangs n parent level nodes k c =
    (c.parent_call_id ≡ parent)
      × (contains k (child_ids n nodes) ≡ true)
      × (c.contract_calls_nesting_level ≡ level + 1)
    ⊎ ((p : ContractCall) × (call_at n parent level nodes c.parent_call_id ≡ some p)
        × IsParent p k c)

record Linked (n parent level : ℕ) (nodes : CallTraceNodes) (k : ℕ) (c : ContractCall)
    : Type 0 where
  same_id : c.call_id ≡ k
  earlier : c.parent_call_id < k
  hangs : Hangs n parent level nodes k c

module _ (t : CallTrace) (inner rest : CallTraceNodes) (n parent level k : ℕ) (c : ContractCall)
    (before : parent < n) where
  abbrev forest : CallTraceNodes
  forest = entry_point_call t inner rest

  Linked-head :
      nat_beq n k ≡ true
      → call_at n parent level forest k ≡ some c
      → Linked n parent level forest k c
  unfolding from_cheatnet_state_calltrace
  Linked-head here e = record {
    same_id = ground arith;
    earlier = ground arith;
    hangs = inl (ground arith, ground arith, ground arith);
  }

  Linked-inner :
      nat_beq n k ≡ false
      → ltb k (n + 1 + size inner) ≡ true
      → Linked (n + 1) n (level + 1) inner k c
      → Linked n parent level forest k c
  unfolding from_cheatnet_state_calltrace
  Linked-inner later inside l = record {
    same_id = l.same_id;
    earlier = l.earlier;
    hangs = elim l.hangs [
      | inl (e, m, d) ↦ inr (
        record (new_call t n parent level) { children_call_ids = child_ids (n + 1) inner },
        ground arith,
        record { child = m; deeper = d },
      )
      | inr (p, at, par) ↦
          let low = call_at-below_some inner (n + 1) n (level + 1) c.parent_call_id at in
          inr (p, ground (arith, low, l.earlier), par)
    ];
  }

  Linked-rest :
      nat_beq n k ≡ false
      → ltb k (n + 1 + size inner) ≡ false
      → Linked (n + 1 + size inner) parent level rest k c
      → Linked n parent level forest k c
  Linked-rest later outside l = record {
    same_id = l.same_id;
    earlier = l.earlier;
    hangs = elim l.hangs [
      | inl (e, m, d) ↦ inl (e, ground arith, d)
      | inr (p, at, par) ↦
          let low = call_at-below_some rest (n + 1 + size inner) parent level c.parent_call_id at in
          inr (p, ground (arith, low, l.earlier), par)
    ];
  }

call_at-Linked :
    (nodes : CallTraceNodes) (n parent level k : ℕ) (c : ContractCall)
    → parent < n
    → call_at n parent level nodes k ≡ some c
    → Linked n parent level nodes k c
call_at-Linked nil n parent level k c p e = cc
call_at-Linked (deploy_without_constructor rest) n parent level k c p e =
    let l = call_at-Linked rest n parent level k c p e in
    record { same_id = l.same_id; earlier = l.earlier; hangs = l.hangs }
call_at-Linked (entry_point_call t inner rest) n parent level k c p e =
    elim (Bool-cases (nat_beq n k)) [
      | inl here ↦ Linked-head t inner rest n parent level k c p here e
      | inr later ↦ elim (Bool-cases (ltb k (n + 1 + size inner))) [
        | inl inside ↦
            Linked-inner t inner rest n parent level k c p later inside
              (call_at-Linked inner (n + 1) n (level + 1) k c (omega arith) (ground arith))
        | inr outside ↦
            Linked-rest t inner rest n parent level k c p later outside (
              call_at-Linked rest (n + 1 + size inner) parent level k c (omega arith)
                (ground arith))
      ]
    ]

numbered-Linked :
    (t : CallTrace) (nested : CallTraceNodes) (k : ℕ) (c : ContractCall)
    → 1 < k
    → numbered t nested k ≡ some c
    → Linked 2 1 0 nested k c
numbered-Linked t nested k c h e = call_at-Linked nested 2 1 0 k c (omega arith) (ground arith)

pub numbered-bounds :
    (t : CallTrace) (nested : CallTraceNodes) (k : ℕ) (c : ContractCall)
    → numbered t nested k ≡ some c
    → (c.call_id ≡ k) × (0 < k) × (c.parent_call_id < k)
unfolding from_cheatnet_state_calltrace
numbered-bounds t nested k c e = elim (Bool-cases (ltb 1 k)) [
  | inl later ↦
      let l = numbered-Linked t nested k c (ground arith) e in (l.same_id, ground arith, l.earlier)
  | inr first ↦ (ground arith, ground arith, ground arith)
]

pub numbered-IsParent :
    (t : CallTrace) (nested : CallTraceNodes) (k : ℕ) (c : ContractCall)
    → 1 < k
    → numbered t nested k ≡ some c
    → (p : ContractCall) × (numbered t nested c.parent_call_id ≡ some p) × IsParent p k c
unfolding from_cheatnet_state_calltrace
numbered-IsParent t nested k c h e = elim (numbered-Linked t nested k c h e).hangs [
  | inl (at_root, m, d) ↦ (root_call t nested, ground arith, record { child = m; deeper = d })
  | inr (p, at, par) ↦
      let low = call_at-below_some nested 2 1 0 c.parent_call_id at in (p, ground arith, par)
]
