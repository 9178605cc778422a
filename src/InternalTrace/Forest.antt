-- ===== src/InternalTrace/Forest.antt =====
-- The maps of the call trace builder as a forest of function calls, and the changes that keep it one.
use starkloupe_server.Common.{
  ℕ, suc, ◌<◌, ◌≡◌, refl, sym, subst, ◌∙◌, ap, ◌≢◌, if◌then◌else◌, ◌⊎◌, inl, inr, true, none, some,
  [], some_inj, nat_eq, contains, arith, nat_beq, nat_beq_iff, Option-cases, Bool-cases,
}
use starkloupe_server.Common.Maps.{Map, get, insert, modify, get-insert, get-modify}
use starkloupe_server.Trace.{FunctionCall, FunctionCallsMap, EventCall}
use starkloupe_server.InternalTrace.{Output}

abbrev pub Known : ℕ → FunctionCallsMap → Type 0
Known k calls = (c : FunctionCall) × (get k calls ≡ some c)

-- The call under `k` is the child of a call with a smaller id, which lists it.
abbrev pub HasParent : FunctionCallsMap → ℕ → FunctionCall → Type 0
HasParent calls k c =
    (p : FunctionCall) × (get c.parent_call_id calls ≡ some p)
    × (c.parent_call_id < k)
    × (contains k p.children_call_ids ≡ true)

abbrev pub HasCaller : FunctionCallsMap → ℕ → EventCall → Type 0
HasCaller calls k e =
    (c : FunctionCall) × (get e.function_call_id calls ≡ some c)
    × (contains k c.event_call_ids ≡ true)
    × (contains k c.children_call_ids ≡ true)

-- Every function call and event call is stored under its own id, below the counter; no id is used
-- twice; a call that is no root is listed by its parent, an event by the call that emitted it.
pub record IsForest (o : Output) : Type 0 where
  pub positive : 0 < o.next_call_id
  pub calls :
      (k : ℕ) (c : FunctionCall)
      → get k o.function_calls_map ≡ some c
      → (c.call_id ≡ k) × (0 < k) × (k < o.next_call_id)
  pub parents :
      (k : ℕ) (c : FunctionCall)
      → get k o.function_calls_map ≡ some c
      → (c.parent_call_id ≡ 0) ⊎ HasParent o.function_calls_map k c
  pub events :
      (k : ℕ) (e : EventCall)
      → get k o.event_calls_map ≡ some e
      → (e.call_id ≡ k)
        × (k < o.next_call_id)
        × (get k o.function_calls_map ≡ none)
        × HasCaller o.function_calls_map k e

-- The later form of a call keeps its ids and what it lists.
pub record Grows (c c' : FunctionCall) : Type 0 where
  pub same_id : c'.call_id ≡ c.call_id
  pub same_parent : c'.parent_call_id ≡ c.parent_call_id
  pub children :
      (k : ℕ) → contains k c.children_call_ids ≡ true → contains k c'.children_call_ids ≡ true
  pub events : (k : ℕ) → contains k c.event_call_ids ≡ true → contains k c'.event_call_ids ≡ true

pub Grows-refl : (c : FunctionCall) → Grows c c
Grows-refl c = record { same_id = refl; same_parent = refl; children = λ k h. h; events = λ k h. h }

pub record MapGrows (m m' : FunctionCallsMap) : Type 0 where
  pub back :
      (k : ℕ) (c' : FunctionCall)
      → get k m' ≡ some c'
      → (c : FunctionCall) × (get k m ≡ some c) × Grows c c'
  pub forth :
      (k : ℕ) (c : FunctionCall)
      → get k m ≡ some c
      → (c' : FunctionCall) × (get k m' ≡ some c') × Grows c c'

pub MapGrows-same : (m m' : FunctionCallsMap) → ((k : ℕ) → get k m' ≡ get k m) → MapGrows m m'
MapGrows-same m m' same = record {
  back = λ k c' h. (c', sym (same k) ∙ h, Grows-refl c');
  forth = λ k c h. (c, same k ∙ h, Grows-refl c);
}

modified :
    (id k : ℕ) (f : FunctionCall → FunctionCall) (m : FunctionCallsMap)
    → ((c : FunctionCall) → Grows c (f c))
    → (c : FunctionCall) → get k m ≡ some c
    → (c' : FunctionCall) × (get k (modify id f m) ≡ some c') × Grows c c'
modified id k f m grows c h = elim (Bool-cases (nat_beq id k)) [
  | inl e ↦ (f c, get-modify id k f m ∙ rw (e, h) refl, grows c)
  | inr e ↦ (c, get-modify id k f m ∙ rw (e, h) refl, Grows-refl c)
]

unmodified :
    (id k : ℕ) (f : FunctionCall → FunctionCall) (m : FunctionCallsMap)
    → get k m ≡ none
    → {c' : FunctionCall} → get k (modify id f m) ≡ some c'
    → ⊥
unmodified id k f m e h =
    let at : get k (modify id f m) ≡ none = get-modify id k f m ∙ rw e (ground arith) in cc

modified_as :
    (id k : ℕ) (f : FunctionCall → FunctionCall) (m : FunctionCallsMap)
    → ((c : FunctionCall) → Grows c (f c))
    → (c c' : FunctionCall) → get k m ≡ some c
    → get k (modify id f m) ≡ some c'
    → Grows c c'
modified_as id k f m grows c c' e h =
    let (c'', at, g) = modified id k f m grows c e in
    subst (λ d. Grows c d) (some_inj (sym at ∙ h)) g

-- Changing one call by a function under which calls grow.
pub modify-MapGrows :
    (id : ℕ) (f : FunctionCall → FunctionCall) (m : FunctionCallsMap)
    → ((c : FunctionCall) → Grows c (f c))
    → MapGrows m (modify id f m)
modify-MapGrows id f m grows = record {
  back = λ k c' h. elim (Option-cases (get k m)) [
    | inl e ↦ absurd (unmodified id k f m e h)
    | inr (c, e) ↦ (c, e, modified_as id k f m grows c c' e h)
  ];
  forth = λ k c h. modified id k f m grows c h;
}

module _ (m m' : FunctionCallsMap) (grows : MapGrows m m') where
  pub Known-grown : (k : ℕ) → Known k m → Known k m'
  Known-grown k (c, h) = let (c', h', g) = grows.forth k c h in (c', h')

  get-absent : (k : ℕ) → get k m ≡ none → get k m' ≡ none
  get-absent k absent = elim (Option-cases (get k m')) [
    | inl e ↦ e
    | inr (c', e) ↦ let (c, h, g) = grows.back k c' e in absurd cc
  ]

  HasParent-grown : (k : ℕ) (c c' : FunctionCall) → Grows c c' → HasParent m k c → HasParent m' k c'
  HasParent-grown k c c' g (p, at, less, lists) =
      let (p', at', gp) = grows.forth c.parent_call_id p at in
      (p', rw g.same_parent at', rw g.same_parent less, gp.children k lists)

  HasCaller-grown : (k : ℕ) (e : EventCall) → HasCaller m k e → HasCaller m' k e
  HasCaller-grown k e (c, at, emits, lists) =
      let (c', at', g) = grows.forth e.function_call_id c at in
      (c', at', g.events k emits, g.children k lists)

-- A forest stays one when its calls grow.
pub IsForest-grown :
    (o : Output) (m : FunctionCallsMap)
    → MapGrows o.function_calls_map m
    → IsForest o
    → IsForest (record o { function_calls_map = m })
IsForest-grown o m grows f = record {
  positive = f.positive;
  calls = λ k c' h.
      let (c, e, g) = grows.back k c' h in
      let (id, above, below) = f.calls k c e in (g.same_id ∙ id, above, below);
  parents = λ k c' h.
      let (c, e, g) = grows.back k c' h in
      elim (f.parents k c e) [
        | inl root ↦ inl (g.same_parent ∙ root)
        | inr parent ↦ inr (HasParent-grown o.function_calls_map m grows k c c' g parent)
      ];
  events = λ k e h.
      let (id, below, absent, caller) = f.events k e h in
      (
        id,
        below,
        get-absent o.function_calls_map m grows k absent,
        HasCaller-grown o.function_calls_map m grows k e caller,
      );
}

module _ {V : Type 0} (new : ℕ) (v : V) (m : Map ℕ V) where
  get-inserted :
      (k : ℕ) {w : V} → get k (insert new v m) ≡ some w → ((k ≡ new) × (w ≡ v)) ⊎ (get k m ≡ some w)
  get-inserted k {w = w} h =
      let at : (if nat_beq new k then some v else get k m) ≡ some w =
        sym (get-insert new k v m) ∙ h in
      elim (Bool-cases (nat_beq new k)) [
        | inl e ↦ inl (sym ((nat_beq_iff new k).0 e), some_inj (sym at ∙ rw e refl))
        | inr e ↦ inr (sym (rw e refl) ∙ at)
      ]

  pub get-kept : (k : ℕ) → k ≢ new → get k (insert new v m) ≡ get k m
  get-kept k other = get-insert new k v m ∙ ground (arith, nat_beq_iff new k)

-- A call with the next id may be inserted as a root or under a call that already lists it.
pub IsForest-inserted :
    (o : Output) (c : FunctionCall)
    → c.call_id ≡ o.next_call_id
    → (c.parent_call_id ≡ 0) ⊎ HasParent o.function_calls_map o.next_call_id c
    → IsForest o
    → IsForest (record o {
      function_calls_map = insert o.next_call_id c o.function_calls_map;
      next_call_id = suc o.next_call_id;
    })
IsForest-inserted o c id parent f =
    let m = o.function_calls_map in
    let new = o.next_call_id in
    let old : (k : ℕ) (p : FunctionCall) → get k m ≡ some p → get k (insert new c m) ≡ some p =
      λ k p h.
        let (e, above, below) = f.calls k p h in
        get-kept new c m k (λ same. omega (arith, below, same)) ∙ h in
    let carry : (k : ℕ) (d : FunctionCall)
        → (d.parent_call_id ≡ 0) ⊎ HasParent m k d
        → (d.parent_call_id ≡ 0) ⊎ HasParent (insert new c m) k d =
      λ k d h. elim h [
        | inl root ↦ inl root
        | inr (p, at, less, lists) ↦ inr (p, old d.parent_call_id p at, less, lists)
      ] in
    record {
      positive = omega arith;
      calls = λ k d h. elim (get-inserted new c m k h) [
        | inl (at, same) ↦ (
          ap (λ x. x.call_id) same ∙ id ∙ sym at,
          omega (arith, at, f.positive),
          omega (arith, at),
        )
        | inr at ↦ let (e, above, below) = f.calls k d at in (e, above, omega (arith, below))
      ];
      parents = λ k d h. elim (get-inserted new c m k h) [
        | inl (at, same) ↦ carry k d (rw (at, same) parent)
        | inr at ↦ carry k d (f.parents k d at)
      ];
      events = λ k e h.
          let (id', below, absent, (d, at, emits, lists)) = f.events k e h in
          (
            id',
            omega (arith, below),
            get-kept new c m k (λ same. omega (arith, below, same)) ∙ absent,
            (d, old e.function_call_id d at, emits, lists),
          );
    }

next-absent : (o : Output) → IsForest o → get o.next_call_id o.function_calls_map ≡ none
next-absent o f = elim (Option-cases (get o.next_call_id o.function_calls_map)) [
  | inl e ↦ e
  | inr (c, e) ↦ absurd (omega (arith, f.calls o.next_call_id c e))
]

-- An event with the next id may be inserted when the call that emits it already lists it.
pub IsForest-event :
    (o : Output) (e : EventCall)
    → e.call_id ≡ o.next_call_id
    → HasCaller o.function_calls_map o.next_call_id e
    → IsForest o
    → IsForest (record o {
      event_calls_map = insert o.next_call_id e o.event_calls_map;
      next_call_id = suc o.next_call_id;
    })
IsForest-event o e id caller f =
    let m = o.function_calls_map in
    let new = o.next_call_id in
    let fresh : (k : ℕ) (d : EventCall)
        → k ≡ new
        → d ≡ e
        → (d.call_id ≡ k) × (k < suc new) × (get k m ≡ none) × HasCaller m k d =
      λ k d at same. (
        ap (λ x. x.call_id) same ∙ id ∙ sym at,
        omega (arith, at),
        ap (λ x. get x m) at ∙ next-absent o f,
        rw (at, same) caller,
      ) in
    record {
      positive = omega arith;
      calls = λ k d h. let (e, above, below) = f.calls k d h in (e, above, omega (arith, below));
      parents = f.parents;
      events = λ k d h. elim (get-inserted o.next_call_id e o.event_calls_map k h) [
        | inl (at, same) ↦ fresh k d at same
        | inr at ↦
            let (id', below, absent, c) = f.events k d at in (id', omega (arith, below), absent, c)
      ];
    }

pub empty-IsForest :
    (next : ℕ)
    → 0 < next
    → IsForest (record { function_calls_map = []; event_calls_map = []; next_call_id = next })
unfolding get
empty-IsForest next above = record {
  positive = above;
  calls = λ k c h. absurd cc;
  parents = λ k c h. absurd cc;
  events = λ k e h. absurd cc;
}
