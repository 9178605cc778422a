-- ===== src/Resolver/Samples.antt =====
-- A registry with two packages, and the results on resolution at it. Versions are compared by
-- their length.
use starkloupe_server.Common.{
  ◌≡◌, refl, sym, arith, Text, true, Option, none, some, List, [], ◌∷◌, ◌++◌, length, leb, text_beq,
  text_eq, codes, if◌then◌else◌, Bool-cases, inl, inr, All, contains, some_inj, subst, ◌∙◌,
}
use starkloupe_server.Common.Maps.{Map, get, insert}
use starkloupe_server.Resolver.{
  PackageDep, PackageVersion, Registry, choose, queued, unvisited, process, process_level,
  resolve_levels, seed, resolve, chosen_of, is_candidate,
}
use starkloupe_server.Resolver.Levels.{resolve-done}
use starkloupe_server.Resolver.Chosen.{Occurs, NoneNewer}
use starkloupe_server.Resolver.Recorded.{Requested}
use starkloupe_server.Resolver.Correct.{resolve-newest}

abbrev dep : Text → PackageDep
dep name = record { name = name; req = codes "*"; kind = codes "normal" }

abbrev a_versions : List PackageVersion
a_versions =
    record { v = codes "1"; deps = [] }
    ∷ record { v = codes "1.1"; deps = dep (codes "b") ∷ dep (codes "starknet") ∷ [] }
    ∷ []

abbrev b_versions : List PackageVersion
b_versions = record { v = codes "2"; deps = dep (codes "a") ∷ [] } ∷ []

abbrev fetch : Text → Option (List PackageVersion)
fetch name =
    if text_beq name (codes "a")
    then some a_versions
    else if text_beq name (codes "b")
    then some b_versions
    else none

abbrev registry : Registry
registry = record {
  matches = λ constraint version. true;
  allows_starknet = λ req. true;
  at_most = λ a b. leb (length a) (length b);
  fetch_versions = fetch;
}

abbrev deps : List (Text × Option Text)
deps =
    (codes "starknet", some (codes ">=2")) ∷ (codes "a", some (codes "1")) ∷ (codes "g", none) ∷ []

abbrev names : List Text
names = codes "a" ∷ codes "b" ∷ codes "starknet" ∷ []

result : Map Text Text
unfolding resolve resolve_levels seed unvisited process_level process choose queued insert
result = elim (resolve 4 registry deps) [ some m ↦ m | none ↦ [] ]

resolves : resolve 4 registry deps ≡ some result
unfolding result
resolves = refl

has_b : get (codes "b") result ≡ some (codes "=2")
unfolding result get
has_b = refl

resolve-newest_example :
    (c : Text) × (versions : List PackageVersion) × (pv : PackageVersion) × Requested registry deps
      (codes "b")
      c
    × (fetch (codes "b") ≡ some versions)
    × (codes "=2" ≡ codes "=" ++ pv.v)
    × Occurs pv versions
    × (is_candidate registry c pv ≡ true)
    × NoneNewer registry c pv versions
resolve-newest_example =
    resolve-newest 4 registry deps result (codes "b") (codes "=2") (λ a b h. ground arith)
      (λ a b c h k. ground arith) resolves has_b

abbrev Known : PackageVersion → Type 0
Known pv = All (λ dep. contains dep.name names ≡ true) pv.deps

closed : (name c : Text) (pv : PackageVersion) → chosen_of registry name c ≡ some pv → Known pv
unfolding choose
closed name c pv h = elim (Bool-cases (text_beq name (codes "a"))) [
  | inl e ↦
      let same : chosen_of registry name c
          ≡ some
              (record { v = codes "1.1"; deps = dep (codes "b") ∷ dep (codes "starknet") ∷ [] }) =
        rw (e, chosen_of, fetch) refl in
      subst Known (some_inj (sym same ∙ h)) (refl, (refl, tt))
  | inr e ↦ elim (Bool-cases (text_beq name (codes "b"))) [
    | inl e' ↦
        let same : chosen_of registry name c
            ≡ some (record { v = codes "2"; deps = dep (codes "a") ∷ [] }) =
          rw (e, e', chosen_of, fetch) refl in
        subst Known (some_inj (sym same ∙ h)) (refl, tt)
    | inr e' ↦
        let same : chosen_of registry name c ≡ none = rw (e, e', chosen_of, fetch) refl in
        absurd (ground arith)
  ]
]

resolve-done_example : (m : Map Text Text) × (resolve 4 registry deps ≡ some m)
unfolding seed
resolve-done_example = resolve-done registry names closed deps (refl, tt)
