-- ===== src/Common/Maps.antt =====
-- `HashMap` as an association list with one entry for a key: what `get`, `insert` and a write
-- through `get_mut` do. The order of the entries stands for the unspecified order of iteration.
use mathlib.Core.Path.{◌≡◌, refl, sym, ◌∙◌, subst}
use mathlib.Core.Logic.{◌⊎◌, inl, inr}
use mathlib.Core.List.{List, [], ◌∷◌}
use mathlib.Core.Option
use mathlib.Core.Option.{Option, none, some}
use native.Mathlib.Omega.{arith}
use starkloupe_server.Common.Lists.{All}
use starkloupe_server.Common.Tests.{if◌then◌else◌, Bool-cases, Option-cases, some_inj}
use starkloupe_server.Common.Keys.{Eq, ◌==◌, ==_iff, ==_refl}

abbrev pub Map {ℓ κ} : Type ℓ → Type κ → Type (ℓ ⊔ κ)
Map K V = List (K × V)

module _ {ℓ κ} {K : Type ℓ} {V : Type κ} ⦃e : Eq K⦄ where
  unfoldable pub get : K → Map K V → Option V
  get k [] = none
  get k ((j, v) ∷ m) = if j == k then some v else get k m

  unfoldable pub insert : K → V → Map K V → Map K V
  insert k v [] = (k, v) ∷ []
  insert k v ((j, w) ∷ m) = if j == k then (k, v) ∷ m else (j, w) ∷ insert k v m

  -- A write through `get_mut`; without the key nothing is written.
  unfoldable pub modify : K → (V → V) → Map K V → Map K V
  modify k f [] = []
  modify k f ((j, w) ∷ m) = if j == k then (j, f w) ∷ m else (j, w) ∷ modify k f m

  unfoldable pub remove : K → Map K V → Map K V
  remove k [] = []
  remove k ((j, w) ∷ m) = let rest = remove k m in if j == k then rest else (j, w) ∷ rest

  pub get-insert :
      (k j : K) (v : V) (m : Map K V) → get j (insert k v m) ≡ (if k == j then some v else get j m)
  unfolding get insert
  get-insert k j v [] = refl
  get-insert k j v ((i, w) ∷ m) =
      ground (arith, ==_iff k j, ==_iff i k, ==_iff i j, get-insert k j v m)

  pub get-insert_same : (k : K) (v : V) (m : Map K V) → get k (insert k v m) ≡ some v
  get-insert_same k v m = get-insert k k v m ∙ rw (==_refl k) refl

  pub get-modify :
      (k j : K) (f : V → V) (m : Map K V)
      → get j (modify k f m) ≡ (if k == j then Option.map f (get j m) else get j m)
  unfolding get modify
  get-modify k j f [] = ground arith
  get-modify k j f ((i, w) ∷ m) =
      ground (arith, ==_iff k j, ==_iff i k, ==_iff i j, get-modify k j f m)

  -- What stands in a modified map comes from the map.
  pub get-modify_inv :
      (k j : K) (f : V → V) (m : Map K V) {w : V}
      → get j (modify k f m) ≡ some w
      → (v : V) × (get j m ≡ some v) × (((k ≡ j) × (w ≡ f v)) ⊎ (w ≡ v))
  get-modify_inv k j f m {w = w} h =
      let at : (if k == j then Option.map f (get j m) else get j m) ≡ some w =
        sym (get-modify k j f m) ∙ h in
      elim (Bool-cases (k == j)) [
        | inr other ↦ (w, sym (rw other refl) ∙ at, inr refl)
        | inl same ↦ elim (Option-cases (get j m)) [
          | inl e ↦ absurd (ground (arith, same, e, at))
          | inr (v, e) ↦
              (v, e, inl ((==_iff k j).0 same, sym (some_inj (sym (rw (same, e) refl) ∙ at))))
        ]
      ]

  pub get-modify_in :
      (k j : K) (f : V → V) (m : Map K V) {v : V}
      → get j m ≡ some v
      → (w : V) × (get j (modify k f m) ≡ some w)
  get-modify_in k j f m {v = v} h = elim (Bool-cases (k == j)) [
    | inl e ↦ (f v, get-modify k j f m ∙ rw (e, h) refl)
    | inr e ↦ (v, get-modify k j f m ∙ rw (e, h) refl)
  ]

  -- What holds of all entries holds of what is found.
  pub get-All {ι} :
      (P : K → V → Type ι) (m : Map K V) (k : K) (v : V)
      → All (λ (j, w). P j w) m
      → get k m ≡ some v
      → P k v
  unfolding get
  get-All P [] k v h at = absurd cc
  get-All P ((j, w) ∷ m) k v h at = elim (Bool-cases (j == k)) [
    | inl e ↦
        let same : w ≡ v = some_inj (sym (rw (get, e) refl) ∙ at) in
        subst (λ x. P k x) same (subst (λ x. P x w) ((==_iff j k).0 e) h.0)
    | inr e ↦ get-All P m k v h.1 (sym (rw (get, e) refl) ∙ at)
  ]

  pub get-remove : (k j : K) (m : Map K V) → get j (remove k m) ≡ (if k == j then none else get j m)
  unfolding get remove
  get-remove k j [] = ground arith
  get-remove k j ((i, w) ∷ m) = ground (arith, ==_iff k j, ==_iff i k, ==_iff i j, get-remove k j m)

pub ruleset map_laws = (get-insert, get-modify, get-remove)
