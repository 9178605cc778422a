-- ===== src/Resolver/Correct.antt =====
-- The result of a resolution, in terms of the registry.
use starkloupe_server.Common.{
  ℕ, ◌≡◌, refl, sym, ◌∙◌, arith, inl, inr, Option-cases, Text, true, false, Option, none, some,
  List, [], ◌++◌, text_eq, codes, some_inj, subst,
}
use starkloupe_server.Common.Maps.{Map, get}
use starkloupe_server.Resolver.{
  PackageVersion, Registry, Resolving, choose, chosen_of, resolve_levels, seed, resolve,
  is_candidate,
}
use starkloupe_server.Resolver.Chosen.{Occurs, NoneNewer, choose_lem}
use starkloupe_server.Resolver.Recorded.{
  Requested, Recorded, resolve_levels-Recorded, direct-AllRequested, empty-Recorded,
}

fetched :
    (r : Registry) (name c : Text) (pv : PackageVersion)
    → chosen_of r name c ≡ some pv
    → (versions : List PackageVersion) × (r.fetch_versions name ≡ some versions)
      × (choose r c versions ≡ some pv)
fetched r name c pv h = elim (Option-cases (r.fetch_versions name)) [
  | inl e ↦ absurd (unavailable e)
  | inr (versions, e) ↦
      let same : chosen_of r name c ≡ choose r c versions = rw (e, chosen_of) refl in
      (versions, e, sym same ∙ h)
]
  where
    unavailable : r.fetch_versions name ≡ none → ⊥
    unavailable e = let same : chosen_of r name c ≡ none = rw (e, chosen_of) refl in ground arith

resolve-Recorded :
    (fuel : ℕ) (r : Registry) (deps : List (Text × Option Text)) (m : Map Text Text)
    → resolve fuel r deps ≡ some m
    → Recorded r deps m
unfolding resolve
resolve-Recorded fuel r deps m h = elim (Option-cases (resolve_levels fuel r start (seed deps))) [
  | inl e ↦ absurd (stuck e)
  | inr (s, e) ↦
      let same : resolve fuel r deps ≡ some s.resolved = rw (e, resolve) refl in
      subst (Recorded r deps) (some_inj (sym same ∙ h)) (
        resolve_levels-Recorded r deps fuel start s (seed deps)
          (direct-AllRequested r deps (seed deps) (λ p o. o)) (empty-Recorded r deps) e)
]
  where
    start : Resolving
    start = record { visited = []; resolved = [] }

    stuck : resolve_levels fuel r start (seed deps) ≡ none → ⊥
    stuck e = let same : resolve fuel r deps ≡ none = rw (e, resolve) refl in ground arith

-- If the order of versions is total and transitive, then for every entry of the result there are a
-- constraint under which the package was asked for and the versions that the registry has of it,
-- such that the entry is `=` and a version among these that satisfies the constraint and allows the
-- Starknet version, and no version among these that does both is newer.
pub resolve-newest :
    (fuel : ℕ) (r : Registry) (deps : List (Text × Option Text)) (m : Map Text Text) (name t : Text)
    → ((a b : Text) → r.at_most a b ≡ false → r.at_most b a ≡ true)
    → ((a b c : Text) → r.at_most a b ≡ true → r.at_most b c ≡ true → r.at_most a c ≡ true)
    → resolve fuel r deps ≡ some m
    → get name m ≡ some t
    → (c : Text) × (versions : List PackageVersion) × (pv : PackageVersion) × Requested r deps name
        c
      × (r.fetch_versions name ≡ some versions)
      × (t ≡ codes "=" ++ pv.v)
      × Occurs pv versions
      × (is_candidate r c pv ≡ true)
      × NoneNewer r c pv versions
resolve-newest fuel r deps m name t total trans h g =
    let (c, pv, q, e, w) = resolve-Recorded fuel r deps m h name t g in
    let (versions, f, ch) = fetched r name c pv e in
    let (o, y, n) = choose_lem r total trans c versions pv ch in (c, versions, pv, q, f, w, o, y, n)
