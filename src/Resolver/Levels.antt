-- ===== src/Resolver/Levels.antt =====
-- The loop over the levels of dependencies: it ends, and what it records was chosen.
use starkloupe_server.Common.{
  ℕ, zero, suc, ◌≤◌, ◌<◌, ◌≡◌, ◌⊎◌, refl, sym, ap, ◌∙◌, subst, arith, inl, inr, Bool-cases,
  Option-cases, Text, true, false, ◌||◌, Option, some, List, [], ◌∷◌, length, All, All-append,
  text_eq, text_beq, codes, contains, ==_iff, ==_refl, if◌then◌else◌,
}
use starkloupe_server.Common.Maps.{Map}
use starkloupe_server.Resolver.{
  PackageDep, PackageVersion, Registry, Resolving, queued, unvisited, mark, chosen_of, process,
  process_level, resolve_levels, seed, resolve, is_builtin,
}

-- How many of the names are not visited
abbrev unseen : List Text → List Text → ℕ
unseen visited [] = 0
unseen visited (u ∷ us) =
    let rest = unseen visited us in if contains u visited then rest else suc rest

abbrev pub Within : List Text → List (Text × Text) → Type 0
Within names batch = All (λ (name, c). contains name names ≡ true) batch

mark-contains :
    (batch : List (Text × Text)) (visited : List Text) (u : Text)
    → contains u visited ≡ true
    → contains u (mark batch visited) ≡ true
mark-contains [] visited u h = h
mark-contains ((name, c) ∷ batch) visited u h =
    mark-contains batch (name ∷ visited) u (ground (arith, ==_iff name u))

unseen-le :
    (v w us : List Text)
    → ((u : Text) → contains u v ≡ true → contains u w ≡ true)
    → unseen w us ≤ unseen v us
unseen-le v w [] h = omega arith
unseen-le v w (u ∷ us) h = ground (arith, h u, unseen-le v w us h)

unseen-lt :
    (v w us : List Text) (name : Text)
    → ((u : Text) → contains u v ≡ true → contains u w ≡ true)
    → contains name us ≡ true
    → contains name v ≡ false
    → contains name w ≡ true
    → unseen w us < unseen v us
unseen-lt v w [] name h i n m = cc
unseen-lt v w (u ∷ us) name h i n m = elim (Bool-cases (contains name us)) [
  | inl later ↦ ground (arith, h u, unseen-lt v w us name h later n m)
  | inr here ↦
      let same : u ≡ name = (==_iff u name).0 (ground arith) in
      let n' : contains u v ≡ false = subst (λ t. contains t v ≡ false) (sym same) n in
      let m' : contains u w ≡ true = subst (λ t. contains t w ≡ true) (sym same) m in
      ground (arith, unseen-le v w us h)
]

unvisited-Within :
    (names visited : List Text) (batch : List (Text × Text))
    → Within names batch
    → Within names (unvisited visited batch)
unfolding unvisited
unvisited-Within names visited [] h = tt
unvisited-Within names visited ((name, c) ∷ batch) h = elim (Bool-cases (contains name visited)) [
  | inl e ↦ rw (e, unvisited) (unvisited-Within names visited batch h.1)
  | inr e ↦ rw (e, unvisited) (h.0, unvisited-Within names visited batch h.1)
]

unvisited-new :
    (visited : List Text) (batch : List (Text × Text)) {name c : Text} {rest : List (Text × Text)}
    → unvisited visited batch ≡ (name, c) ∷ rest
    → contains name visited ≡ false
unfolding unvisited
unvisited-new visited [] h = cc
unvisited-new visited ((n, c') ∷ batch) {name} {c} {rest} h =
    elim (Bool-cases (contains n visited)) [
      | inl e ↦ unvisited-new visited batch {name = name} {c = c} {rest = rest} (ground arith)
      | inr e ↦ ground arith
    ]

pub List-cases {ℓ} : {A : Type ℓ} (l : List A) → (l ≡ []) ⊎ ((x : A) × (xs : List A) × (l ≡ x ∷ xs))
List-cases [] = inl refl
List-cases (x ∷ xs) = inr (x, xs, refl)

queued-Within :
    (names visited : List Text) (deps : List PackageDep)
    → All (λ dep. contains dep.name names ≡ true) deps
    → Within names (queued visited deps)
unfolding queued
queued-Within names visited [] h = tt
queued-Within names visited (dep ∷ deps) h =
    let rest = queued-Within names visited deps h.1 in
    elim (Bool-cases (text_beq dep.kind (codes "dev") || is_builtin dep.name)) [
      | inl e ↦ rw (e, queued) rest
      | inr e ↦ elim (Bool-cases (contains dep.name visited)) [
        | inl e' ↦ rw (e, e', queued) rest
        | inr e' ↦ rw (e, e', queued) (h.0, rest)
      ]
    ]

module _ (r : Registry) (names : List Text)
    (closed : (name constraint : Text) (pv : PackageVersion)
      → chosen_of r name constraint ≡ some pv
      → All (λ dep. contains dep.name names ≡ true) pv.deps) where
  process-Within :
      (s : Resolving) (name c : Text)
      → (Within names (process r s name c).1) × ((process r s name c).0.visited ≡ s.visited)
  unfolding process
  process-Within s name c = elim (Option-cases (chosen_of r name c)) [
    | inl e ↦ rw (e, process) (tt, refl)
    | inr (pv, e) ↦
        rw (e, process) (queued-Within names s.visited pv.deps (closed name c pv e), refl)
  ]

  process_level-Within :
      (s : Resolving) (batch : List (Text × Text))
      → (Within names (process_level r s batch).1)
        × ((process_level r s batch).0.visited ≡ s.visited)
  unfolding process_level
  process_level-Within s [] = (tt, refl)
  process_level-Within s ((name, c) ∷ batch) =
      let (next₁, v₁) = process-Within s name c in
      let (next₂, v₂) = process_level-Within (process r s name c).0 batch in
      (All-append _ (process r s name c).1 _ next₁ next₂, v₂ ∙ v₁)

  resolve_levels-done :
      (fuel : ℕ) (s : Resolving) (batch : List (Text × Text))
      → unseen s.visited names < fuel
      → Within names batch
      → (s' : Resolving) × (resolve_levels fuel r s batch ≡ some s')
  unfolding resolve_levels
  resolve_levels-done zero s batch h w = absurd (omega arith)
  resolve_levels-done (suc fuel) s batch h w = elim (List-cases (unvisited s.visited batch)) [
    | inl e ↦ (s, rw (e, resolve_levels) refl)
    | inr ((name, c), rest, e) ↦
        let to_process = (name, c) ∷ rest in
        let marked = record s { visited = mark to_process s.visited } in
        let (next, same) = process_level-Within marked to_process in
        let known : contains name names ≡ true =
          (subst (Within names) e (unvisited-Within names s.visited batch w)).0 in
        let more : (u : Text) → contains u s.visited ≡ true → contains u marked.visited ≡ true =
          mark-contains to_process s.visited in
        let here : contains name marked.visited ≡ true =
          mark-contains rest (name ∷ s.visited) name (ground (arith, ==_refl name)) in
        let fewer =
          unseen-lt s.visited marked.visited names name more known (unvisited-new s.visited batch e)
            here in
        let (s', done') =
          resolve_levels-done fuel (process_level r marked to_process).0
            (process_level r marked to_process).1
            (omega (arith, fewer, ap (λ v. unseen v names) same)) next in
        (s', rw (e, resolve_levels) done')
  ]

  unseen-nil : (us : List Text) → unseen [] us ≡ length us
  unseen-nil [] = refl
  unseen-nil (u ∷ us) = ap suc (unseen-nil us)

  finish :
      (fuel : ℕ) (deps : List (Text × Option Text))
      → (s : Resolving) × (resolve_levels fuel r
            (record { visited = []; resolved = [] })
            (seed deps)
          ≡ some s)
      → (m : Map Text Text) × (resolve fuel r deps ≡ some m)
  unfolding resolve
  finish fuel deps (s, e) = (s.resolved, rw (e, resolve) refl)

  -- If a finite list of names has those of the direct dependencies and those of all dependencies of
  -- a version that is chosen for any package under any constraint, then the resolution returns a
  -- map with one more unit of fuel than the list has names: the loop over the levels ends.
  pub resolve-done :
      (deps : List (Text × Option Text))
      → Within names (seed deps)
      → (m : Map Text Text) × (resolve (suc (length names)) r deps ≡ some m)
  unfolding resolve
  resolve-done deps w =
      let start : Resolving = record { visited = []; resolved = [] } in
      finish (suc (length names)) deps (
        resolve_levels-done (suc (length names)) start (seed deps) (omega (arith, unseen-nil names))
          w)
