-- ===== src/Resolver.antt =====
-- crates/scarb-dep-resolver/src/resolver.rs: the resolution of the registry dependencies of a
-- project, level by level. The semver library and the registry are parameters: whether a version
-- text satisfies a constraint (`matches`: a constraint that does not parse counts as `*`, a version
-- that does not parse matches nothing), whether a requirement allows the Starknet version (one that
-- does not parse does), the order of versions, and the versions that the registry has of a package,
-- `none` for a fetch that fails. Parsing Scarb.toml is left out: the direct dependencies are given.
pub mod Levels
pub mod Chosen
pub mod Recorded
pub mod Correct
mod Samples
use starkloupe_server.Common.{
  ℕ, zero, suc, Text, Bool, true, false, not, ◌&&◌, ◌||◌, Option, none, some, List, [], ◌∷◌, ◌++◌,
  text_beq, text_eq, codes, contains, if◌then◌else◌,
}
use starkloupe_server.Common.Maps.{Map, insert}

pub record PackageDep : Type 0 where
  pub name : Text
  pub req : Text
  pub kind : Text

pub record PackageVersion : Type 0 where
  pub v : Text
  pub deps : List PackageDep

abbrev pub is_builtin : Text → Bool
is_builtin name = text_beq name (codes "starknet") || text_beq name (codes "core")

-- What the code uses of semver and of the registry
pub record Registry : Type 0 where
  pub matches : Text → Text → Bool
  pub allows_starknet : Text → Bool
  -- `newer a b`: the version `a` is older than or equal to `b`.
  pub at_most : Text → Text → Bool
  pub fetch_versions : Text → Option (List PackageVersion)

pub record Resolving : Type 0 where
  pub visited : List Text
  pub resolved : Map Text Text

abbrev pub builtin_deps_allow : (Text → Bool) → List PackageDep → Bool
builtin_deps_allow allows [] = true
builtin_deps_allow allows (dep ∷ deps) =
    (not (is_builtin dep.name) || allows dep.req) && builtin_deps_allow allows deps

-- The filter of the versions of a package
abbrev pub is_candidate : Registry → Text → PackageVersion → Bool
is_candidate r constraint pv =
    r.matches constraint pv.v && builtin_deps_allow r.allows_starknet pv.deps

abbrev pub newer : Registry → PackageVersion → Option PackageVersion → Option PackageVersion
newer r pv none = some pv
newer r pv (some best) = if r.at_most pv.v best.v then some best else some pv

-- `filter(..).max_by_key(..)`; of equal versions the last is taken.
unfoldable pub choose : Registry → Text → List PackageVersion → Option PackageVersion
choose r constraint [] = none
choose r constraint (pv ∷ pvs) =
    let best = choose r constraint pvs in
    if is_candidate r constraint pv then newer r pv best else best

-- The dependencies of a chosen version that are queued for the next level
unfoldable pub queued : List Text → List PackageDep → List (Text × Text)
queued visited [] = []
queued visited (dep ∷ deps) =
    let rest = queued visited deps in
    if text_beq dep.kind (codes "dev") || is_builtin dep.name
    then rest
    else if contains dep.name visited
    then rest
    else (dep.name, dep.req) ∷ rest

-- `filter(|(name, _)| !visited.contains(name))`
unfoldable pub unvisited : List Text → List (Text × Text) → List (Text × Text)
unvisited visited [] = []
unvisited visited ((name, c) ∷ batch) =
    let rest = unvisited visited batch in if contains name visited then rest else (name, c) ∷ rest

abbrev pub mark : List (Text × Text) → List Text → List Text
mark [] visited = visited
mark ((name, c) ∷ batch) visited = mark batch (name ∷ visited)

abbrev pub chosen_of : Registry → Text → Text → Option PackageVersion
chosen_of r name constraint = elim (r.fetch_versions name) [
  | none ↦ none
  | some versions ↦ choose r constraint versions
]

-- One package of the level: its chosen version is recorded, and its dependencies are queued.
unfoldable pub process : Registry → Resolving → Text → Text → Resolving × List (Text × Text)
unfolding choose queued
process r s name constraint = elim (chosen_of r name constraint) [
  | none ↦ (s, [])
  | some pv ↦
      (record s { resolved = insert name (codes "=" ++ pv.v) s.resolved }, queued s.visited pv.deps)
]

unfoldable pub process_level :
    Registry → Resolving → List (Text × Text) → Resolving × List (Text × Text)
unfolding process
process_level r s [] = (s, [])
process_level r s ((name, constraint) ∷ batch) =
    let (s₁, next₁) = process r s name constraint in
    let (s₂, next₂) = process_level r s₁ batch in (s₂, next₁ ++ next₂)

-- The loop over the levels; `none` when the fuel is used up.
unfoldable pub resolve_levels : ℕ → Registry → Resolving → List (Text × Text) → Option Resolving
unfolding unvisited process_level
resolve_levels zero r s batch = none
resolve_levels (suc fuel) r s batch = elim (unvisited s.visited batch) [
  | [] ↦ some s
  | p ∷ to_process ↦
      let marked = record s { visited = mark (p ∷ to_process) s.visited } in
      let (s', next) = process_level r marked (p ∷ to_process) in resolve_levels fuel r s' next
]

-- The direct dependencies that are in the registry: name and constraint, `none` for a dependency
-- by git or path
unfoldable pub seed : List (Text × Option Text) → List (Text × Text)
seed [] = []
seed ((name, none) ∷ deps) = seed deps
seed ((name, some c) ∷ deps) =
    let rest = seed deps in if is_builtin name then rest else (name, c) ∷ rest

unfoldable pub resolve : ℕ → Registry → List (Text × Option Text) → Option (Map Text Text)
unfolding resolve_levels seed
resolve fuel r deps =
    elim (resolve_levels fuel r (record { visited = []; resolved = [] }) (seed deps)) [
      | none ↦ none
      | some s ↦ some s.resolved
    ]
