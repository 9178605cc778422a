-- ===== src/Resolver/Chosen.antt =====
-- What the resolution records for a package: a version that it chose among those of the registry.
use starkloupe_server.Common.{
  ◌≡◌, ◌≢◌, ◌⊎◌, refl, sym, ap, ◌∙◌, subst, arith, inl, inr, Bool-cases, Option-cases, Text, true,
  false, Option, none, some, List, [], ◌∷◌, text_eq, some_inj,
}
use starkloupe_server.Resolver.{PackageVersion, Registry, choose, is_candidate, newer}

abbrev pub Occurs : {A : Type 0} → A → List A → Type 0
Occurs a [] = ⊥
Occurs a (x ∷ xs) = (x ≡ a) ⊎ Occurs a xs

-- No version of the list that is a candidate is newer than the given one.
abbrev pub NoneNewer : Registry → Text → PackageVersion → List PackageVersion → Type 0
NoneNewer r c pv [] = Unit
NoneNewer r c pv (p ∷ ps) =
    ((is_candidate r c p ≡ false) ⊎ (r.at_most p.v pv.v ≡ true)) × NoneNewer r c pv ps

newer-some :
    (r : Registry) (p : PackageVersion) (best : Option PackageVersion) → newer r p best ≢ none
newer-some r p none h = cc
newer-some r p (some best) h = elim (Bool-cases (r.at_most p.v best.v)) [
  | inl e ↦ ground arith
  | inr e ↦ ground arith
]

-- A candidate competes with the best of the versions behind it.
chosen :
    (r : Registry) (c : Text) (p : PackageVersion) (ps : List PackageVersion)
    → is_candidate r c p ≡ true
    → choose r c (p ∷ ps) ≡ newer r p (choose r c ps)
unfolding choose
chosen r c p ps fits = rw (fits, choose) refl

choose-none :
    (r : Registry) (c : Text) (pvs : List PackageVersion) (pv : PackageVersion)
    → choose r c pvs ≡ none
    → NoneNewer r c pv pvs
unfolding choose
choose-none r c [] pv h = tt
choose-none r c (p ∷ ps) pv h = elim (Bool-cases (is_candidate r c p)) [
  | inr unfit ↦
      let same : choose r c (p ∷ ps) ≡ choose r c ps = rw (unfit, choose) refl in
      (inl unfit, choose-none r c ps pv (sym same ∙ h))
  | inl fits ↦ absurd (newer-some r p (choose r c ps) (sym (chosen r c p ps fits) ∙ h))
]

module _ (r : Registry) (total : (a b : Text) → r.at_most a b ≡ false → r.at_most b a ≡ true)
    (trans : (a b c : Text)
      → r.at_most a b ≡ true
      → r.at_most b c ≡ true
      → r.at_most a c ≡ true) where
  NoneNewer-weaken :
      (c : Text) (p q : PackageVersion) (pvs : List PackageVersion)
      → r.at_most p.v q.v ≡ true
      → NoneNewer r c p pvs
      → NoneNewer r c q pvs
  NoneNewer-weaken c p q [] h n = tt
  NoneNewer-weaken c p q (x ∷ xs) h (n, ns) =
      (ground (arith, trans x.v p.v q.v), NoneNewer-weaken c p q xs h ns)

  at_most_refl : (a : Text) → r.at_most a a ≡ true
  at_most_refl a = elim (Bool-cases (r.at_most a a)) [ inl e ↦ e | inr e ↦ total a a e ]

  best_of :
      (c : Text) (p : PackageVersion) (ps : List PackageVersion) (best pv : PackageVersion)
      → is_candidate r c p ≡ true
      → Occurs best ps
      → is_candidate r c best ≡ true
      → NoneNewer r c best ps
      → newer r p (some best) ≡ some pv
      → Occurs pv (p ∷ ps) × (is_candidate r c pv ≡ true) × NoneNewer r c pv (p ∷ ps)
  best_of c p ps best pv fits o y n h = elim (Bool-cases (r.at_most p.v best.v)) [
    | inl e ↦
        let kept : newer r p (some best) ≡ some best = rw e refl in
        subst (λ q. Occurs q (p ∷ ps) × (is_candidate r c q ≡ true) × NoneNewer r c q (p ∷ ps))
          (some_inj (sym kept ∙ h)) (inr o, y, (inr e, n))
    | inr e ↦
        let taken : newer r p (some best) ≡ some p = rw e refl in
        subst (λ q. Occurs q (p ∷ ps) × (is_candidate r c q ≡ true) × NoneNewer r c q (p ∷ ps))
          (some_inj (sym taken ∙ h))
          (
            inl refl,
            fits,
            (inr (at_most_refl p.v), NoneNewer-weaken c best p ps (total p.v best.v e) n),
          )
  ]

  pub choose_lem :
      (c : Text) (pvs : List PackageVersion) (pv : PackageVersion)
      → choose r c pvs ≡ some pv
      → Occurs pv pvs × (is_candidate r c pv ≡ true) × NoneNewer r c pv pvs
  unfolding choose
  choose_lem c [] pv h = cc
  choose_lem c (p ∷ ps) pv h = elim (Bool-cases (is_candidate r c p)) [
    | inr unfit ↦
        let same : choose r c (p ∷ ps) ≡ choose r c ps = rw (unfit, choose) refl in
        let (o, y, n) = choose_lem c ps pv (sym same ∙ h) in (inr o, y, (inl unfit, n))
    | inl fits ↦ elim (Option-cases (choose r c ps)) [
      | inl e ↦
          let same : p ≡ pv = some_inj (sym (chosen r c p ps fits ∙ ap (newer r p) e) ∙ h) in
          subst
            (λ q. ((p ≡ q) ⊎ Occurs q ps) × (is_candidate r c q ≡ true) × NoneNewer r c q (p ∷ ps))
            same (inl refl, fits, (inr (at_most_refl p.v), choose-none r c ps p e))
      | inr (best, e) ↦
          let (o, y, n) = choose_lem c ps best e in
          best_of c p ps best pv fits o y n (sym (chosen r c p ps fits ∙ ap (newer r p) e) ∙ h)
    ]
  ]
