-- ===== src/Resolver/Recorded.antt =====
-- The entries that the resolution records, and the packages it asks for.
use starkloupe_server.Common.{
  ℕ, zero, suc, ◌≡◌, refl, sym, ap, ◌∙◌, subst, arith, inl, inr, Bool-cases, Option-cases, Text,
  false, Option, some, List, [], ◌∷◌, ◌++◌, text_eq, text_beq, codes, contains, ◌==◌, ◌||◌, All,
  All-append, ==_iff, if◌then◌else◌, some_inj,
}
use starkloupe_server.Common.Maps.{Map, get, insert, get-insert}
use starkloupe_server.Resolver.{
  PackageDep, PackageVersion, Registry, Resolving, unvisited, mark, chosen_of, process,
  process_level, resolve_levels, seed, is_builtin, queued,
}
use starkloupe_server.Resolver.Chosen.{Occurs}
use starkloupe_server.Resolver.Levels.{List-cases}

-- The packages and constraints that a resolution asks for: the direct dependencies, and the
-- dependencies of a version chosen for a package that is asked for, but those for development and
-- the built-in ones.
pub data Requested (r : Registry) (deps : List (Text × Option Text)) : Text → Text → Type 0 where
  direct : {name c : Text} → Occurs (name, c) (seed deps) → Requested r deps name c
  transitive :
      {name c : Text} {pv : PackageVersion} (dep : PackageDep)
      → Requested r deps name c
      → chosen_of r name c ≡ some pv
      → Occurs dep pv.deps
      → text_beq dep.kind (codes "dev") ≡ false
      → is_builtin dep.name ≡ false
      → Requested r deps dep.name dep.req

module _ (r : Registry) (deps : List (Text × Option Text)) where
  abbrev pub AllRequested : List (Text × Text) → Type 0
  AllRequested batch = All (λ (name, c). Requested r deps name c) batch

  -- Every entry is a version chosen for the package under a constraint that was asked for.
  abbrev pub Recorded : Map Text Text → Type 0
  Recorded m =
      (name t : Text)
      → get name m ≡ some t
      → (c : Text) × (pv : PackageVersion) × Requested r deps name c
        × (chosen_of r name c ≡ some pv)
        × (t ≡ codes "=" ++ pv.v)

  queued-AllRequested :
      (visited : List Text) (ds : List PackageDep) (name c : Text) (pv : PackageVersion)
      → Requested r deps name c
      → chosen_of r name c ≡ some pv
      → ((dep : PackageDep) → Occurs dep ds → Occurs dep pv.deps)
      → AllRequested (queued visited ds)
  unfolding queued
  queued-AllRequested visited [] name c pv q e sub = tt
  queued-AllRequested visited (d ∷ ds) name c pv q e sub =
      let rest = queued-AllRequested visited ds name c pv q e (λ dep o. sub dep (inr o)) in
      elim (Bool-cases (text_beq d.kind (codes "dev") || is_builtin d.name)) [
        | inl x ↦ rw (x, queued) rest
        | inr x ↦ elim (Bool-cases (contains d.name visited)) [
          | inl y ↦ rw (x, y, queued) rest
          | inr y ↦
              rw (x, y, queued)
                (transitive d q e (sub d (inl refl)) (ground arith) (ground arith), rest)
        ]
      ]

  insert-Recorded :
      (m : Map Text Text) (name c : Text) (pv : PackageVersion)
      → Requested r deps name c
      → chosen_of r name c ≡ some pv
      → Recorded m
      → Recorded (insert name (codes "=" ++ pv.v) m)
  insert-Recorded m name c pv q e rec n t g = elim (Bool-cases (name == n)) [
    | inl same ↦
        let u : name ≡ n = (==_iff name n).0 same in
        let stored : get n (insert name (codes "=" ++ pv.v) m) ≡ some (codes "=" ++ pv.v) =
          get-insert name n (codes "=" ++ pv.v) m
          ∙ ap (λ b. if b then some (codes "=" ++ pv.v) else get n m) same in
        let w : t ≡ codes "=" ++ pv.v = some_inj (sym g ∙ stored) in
        (
          c,
          pv,
          subst (λ n. Requested r deps n c) u q,
          subst (λ n. chosen_of r n c ≡ some pv) u e,
          w,
        )
    | inr other ↦
        let stored : get n (insert name (codes "=" ++ pv.v) m) ≡ get n m =
          get-insert name n (codes "=" ++ pv.v) m
          ∙ ap (λ b. if b then some (codes "=" ++ pv.v) else get n m) other in
        rec n t (sym stored ∙ g)
  ]

  process-Recorded :
      (s : Resolving) (name c : Text)
      → Requested r deps name c
      → Recorded s.resolved
      → Recorded (process r s name c).0.resolved × AllRequested (process r s name c).1
  unfolding process
  process-Recorded s name c q rec = elim (Option-cases (chosen_of r name c)) [
    | inl e ↦ rw (e, process) (rec, tt)
    | inr (pv, e) ↦
        rw (e, process)
          (
            insert-Recorded s.resolved name c pv q e rec,
            queued-AllRequested s.visited pv.deps name c pv q e (λ dep o. o),
          )
  ]

  process_level-Recorded :
      (s : Resolving) (batch : List (Text × Text))
      → AllRequested batch
      → Recorded s.resolved
      → Recorded (process_level r s batch).0.resolved × AllRequested (process_level r s batch).1
  unfolding process_level
  process_level-Recorded s [] qs rec = (rec, tt)
  process_level-Recorded s ((name, c) ∷ batch) (q, qs) rec =
      let (rec₁, next₁) = process-Recorded s name c q rec in
      let (rec₂, next₂) = process_level-Recorded (process r s name c).0 batch qs rec₁ in
      (rec₂, All-append _ (process r s name c).1 _ next₁ next₂)

  unvisited-AllRequested :
      (visited : List Text) (batch : List (Text × Text))
      → AllRequested batch
      → AllRequested (unvisited visited batch)
  unfolding unvisited
  unvisited-AllRequested visited [] qs = tt
  unvisited-AllRequested visited ((name, c) ∷ batch) (q, qs) =
      let rest = unvisited-AllRequested visited batch qs in
      elim (Bool-cases (contains name visited)) [
        | inl e ↦ rw (e, unvisited) rest
        | inr e ↦ rw (e, unvisited) (q, rest)
      ]

  pub resolve_levels-Recorded :
      (fuel : ℕ) (s s' : Resolving) (batch : List (Text × Text))
      → AllRequested batch
      → Recorded s.resolved
      → resolve_levels fuel r s batch ≡ some s'
      → Recorded s'.resolved
  unfolding resolve_levels
  resolve_levels-Recorded zero s s' batch qs rec h = absurd (ground arith)
  resolve_levels-Recorded (suc fuel) s s' batch qs rec h =
      elim (List-cases (unvisited s.visited batch)) [
        | inl e ↦
            let same : resolve_levels (suc fuel) r s batch ≡ some s = rw (e, resolve_levels) refl in
            subst (λ q. Recorded q.resolved) (some_inj (sym same ∙ h)) rec
        | inr (p, rest, e) ↦
            let marked = record s { visited = mark (p ∷ rest) s.visited } in
            let qs' = subst AllRequested e (unvisited-AllRequested s.visited batch qs) in
            let (rec', next) = process_level-Recorded marked (p ∷ rest) qs' rec in
            let same : resolve_levels (suc fuel) r s batch
                ≡ resolve_levels fuel r (process_level r marked (p ∷ rest)).0
                    (process_level r marked (p ∷ rest)).1 =
              rw (e, resolve_levels) refl in
            resolve_levels-Recorded fuel (process_level r marked (p ∷ rest)).0 s'
              (process_level r marked (p ∷ rest)).1 next rec' (sym same ∙ h)
      ]

  pub direct-AllRequested :
      (batch : List (Text × Text))
      → ((p : Text × Text) → Occurs p batch → Occurs p (seed deps))
      → AllRequested batch
  direct-AllRequested [] sub = tt
  direct-AllRequested ((name, c) ∷ batch) sub =
      (direct (sub (name, c) (inl refl)), direct-AllRequested batch (λ p o. sub p (inr o)))

  pub empty-Recorded : Recorded []
  unfolding get
  empty-Recorded name t g = absurd (ground arith)
