-- ===== src/FunctionCalls/Linked.antt =====
-- Contract calls with a child that no function call lists lose their function call.
use starkloupe_server.Common.{
  ℕ, ◌≡◌, refl, ◌∙◌, ap, inl, inr, Bool, true, false, ◌&&◌, ◌||◌, ◌⊎◌, zero, suc, sym, subst,
  some_inj, contains, All, get_elem?, nat_beq_iff, Option, none, some, List, [], ◌∷◌, nat_eq,
  nat_beq, Bool-cases, arith, if◌then◌else◌,
}
use mathlib.Core.Option
use starkloupe_server.Common.Maps.{get}
use starkloupe_server.Trace.{FunctionCall, FunctionCallsMap}
use starkloupe_server.Calls.{ContractCall, ContractCallsMap}
use starkloupe_server.FunctionCalls.Driver.{
  is_linked, hide_if_unlinked, hide_call, filter_and_hide_unlinked_function_calls,
}

abbrev all_linked : FunctionCallsMap → List ℕ → Bool
all_linked functions [] = true
all_linked functions (child ∷ children) = is_linked functions child && all_linked functions children

hide_none :
    (functions : FunctionCallsMap) (children : List ℕ)
    → hide_if_unlinked functions children none ≡ none
unfolding hide_if_unlinked
hide_none functions [] = refl
hide_none functions (child ∷ children) = hide_none functions children

hide-all_linked :
    (functions : FunctionCallsMap) (children : List ℕ) (id : Option ℕ)
    → hide_if_unlinked functions children id ≡ (if all_linked functions children then id else none)
unfolding hide_if_unlinked
hide-all_linked functions [] id = refl
hide-all_linked functions (child ∷ children) none = hide_none functions children ∙ ground arith
hide-all_linked functions (child ∷ children) (some id) =
    elim (Bool-cases (is_linked functions child)) [
      | inl e ↦ rw (hide_if_unlinked, e) (hide-all_linked functions children (some id))
      | inr e ↦ rw (hide_if_unlinked, e) (hide_none functions children)
    ]

-- The call without its function call, if it is visible and a child is not linked
abbrev hidden : FunctionCallsMap → ContractCall → ContractCall
hidden functions c = if c.is_hidden then c else record c {
  function_call_id = if all_linked functions c.children_call_ids then c.function_call_id else none;
}

hide_call-hidden :
    (functions : FunctionCallsMap) (c : ContractCall) → hide_call functions c ≡ hidden functions c
unfolding hide_call
hide_call-hidden functions c =
    ap (λ (id : Option ℕ). if c.is_hidden then c else record c { function_call_id = id })
      (hide-all_linked functions c.children_call_ids c.function_call_id)

get-filter :
    (functions : FunctionCallsMap) (calls : ContractCallsMap) (k : ℕ)
    → get k (filter_and_hide_unlinked_function_calls functions calls)
      ≡ Option.map (hidden functions) (get k calls)
unfolding filter_and_hide_unlinked_function_calls get
get-filter functions [] k = refl
get-filter functions ((id, c) ∷ calls) k = elim (Bool-cases (nat_beq id k)) [
  | inl e ↦ rw (get, e) (ap some (hide_call-hidden functions c))
  | inr e ↦ rw (get, e) (get-filter functions calls k)
]

-- Some function call lists the contract call among its children.
abbrev pub Linked : FunctionCallsMap → ℕ → Type 0
Linked functions child =
    (i : ℕ) × (id : ℕ) × (f : FunctionCall) × (get_elem? functions i ≡ some (id, f))
    × ((j : ℕ) × (get_elem? f.children_call_ids j ≡ some child))

contains-get_elem? :
    (x : ℕ) (xs : List ℕ) → contains x xs ≡ true → (j : ℕ) × (get_elem? xs j ≡ some x)
contains-get_elem? x [] h = absurd cc
contains-get_elem? x (y ∷ ys) h = elim (Bool-cases (nat_beq y x)) [
  | inl e ↦ (0, ap some ((nat_beq_iff y x).0 e))
  | inr e ↦
      let (j, at) = contains-get_elem? x ys (subst (λ b. (b || contains x ys) ≡ true) e h) in
      (suc j, at)
]

get_elem?-contains : (x : ℕ) (xs : List ℕ) (j : ℕ) → get_elem? xs j ≡ some x → contains x xs ≡ true
get_elem?-contains x [] j h = absurd cc
get_elem?-contains x (y ∷ ys) zero h = rw ((nat_beq_iff y x).1 (some_inj h)) refl
get_elem?-contains x (y ∷ ys) (suc j) h = ground (arith, get_elem?-contains x ys j h)

is_linked-Linked :
    (functions : FunctionCallsMap) (child : ℕ)
    → is_linked functions child ≡ true
    → Linked functions child
is_linked-Linked [] child h = absurd cc
is_linked-Linked ((id, f) ∷ functions) child h =
    elim (Bool-cases (contains child f.children_call_ids)) [
      | inl e ↦ (0, id, f, refl, contains-get_elem? child f.children_call_ids e)
      | inr e ↦
          let (i, id', f', at, listed) =
            is_linked-Linked functions child
              (subst (λ b. (b || is_linked functions child) ≡ true) e h) in
          (suc i, id', f', at, listed)
    ]

Linked-is_linked :
    (functions : FunctionCallsMap) (child i id : ℕ) (f : FunctionCall) (j : ℕ)
    → get_elem? functions i ≡ some (id, f)
    → get_elem? f.children_call_ids j ≡ some child
    → is_linked functions child ≡ true
Linked-is_linked [] child i id f j h listed = absurd cc
Linked-is_linked ((id', f') ∷ functions) child zero id f j h listed =
    let same : f'.children_call_ids ≡ f.children_call_ids =
      ap (λ (x : ℕ × FunctionCall). x.1.children_call_ids) (some_inj h) in
    let e : contains child f'.children_call_ids ≡ true =
      get_elem?-contains child f'.children_call_ids j (ap (λ xs. get_elem? xs j) same ∙ listed) in
    rw e refl
Linked-is_linked ((id', f') ∷ functions) child (suc i) id f j h listed =
    let e = Linked-is_linked functions child i id f j h listed in ground arith

-- All children are linked, or one is not.
all_linked-cases :
    (functions : FunctionCallsMap) (children : List ℕ)
    → ((all_linked functions children ≡ true) × All (Linked functions) children)
      ⊎ ((all_linked functions children ≡ false)
          × ((j : ℕ) × (child : ℕ) × (get_elem? children j ≡ some child)
              × ¬ Linked functions child))
all_linked-cases functions [] = inl (refl, tt)
all_linked-cases functions (child ∷ children) = elim (Bool-cases (is_linked functions child)) [
  | inr e ↦ inr (
    rw e refl,
    (
      0,
      child,
      refl,
      λ (i, id, f, at, (j, listed)).
          let e' = Linked-is_linked functions child i id f j at listed in
          let clash : true ≡ false = sym e' ∙ e in cc,
    ),
  )
  | inl e ↦ elim (all_linked-cases functions children) [
    | inl (all, links) ↦ inl (rw (e, all) refl, (is_linked-Linked functions child e, links))
    | inr (some_not, (j, c, at, not_linked)) ↦
        inr (rw (e, some_not) refl, (suc j, c, at, not_linked))
  ]
]

-- A contract call that is hidden, or whose children are all listed by function calls, is kept as it is
-- by the filter. One that is visible and has a child that no function call lists loses its function
-- call, and nothing else.
pub filter_and_hide-Linked :
    (functions : FunctionCallsMap) (calls : ContractCallsMap) (k : ℕ) (c : ContractCall)
    → get k calls ≡ some c
    → ((get k (filter_and_hide_unlinked_function_calls functions calls) ≡ some c)
        × ((c.is_hidden ≡ true) ⊎ All (Linked functions) c.children_call_ids))
      ⊎ ((get k (filter_and_hide_unlinked_function_calls functions calls)
            ≡ some (record c { function_call_id = none }))
          × (c.is_hidden ≡ false)
          × ((j : ℕ) × (child : ℕ) × (get_elem? c.children_call_ids j ≡ some child)
              × ¬ Linked functions child))
filter_and_hide-Linked functions calls k c at =
    let result : get k (filter_and_hide_unlinked_function_calls functions calls)
        ≡ some (hidden functions c) =
      get-filter functions calls k ∙ ap (Option.map (hidden functions)) at in
    elim (Bool-cases c.is_hidden) [
      | inl e ↦ inl (result ∙ rw e refl, inl e)
      | inr e ↦ elim (all_linked-cases functions c.children_call_ids) [
        | inl (all, links) ↦ inl (result ∙ rw (e, all) refl, inr links)
        | inr (some_not, unlinked) ↦ inr (result ∙ rw (e, some_not) refl, e, unlinked)
      ]
    ]
