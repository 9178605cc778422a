-- ===== src/FunctionCalls/Panics.antt =====
-- The panic that the loop over the contract calls reports.
use starkloupe_server.Common.{
  ℕ, ◌≤◌, ◌<◌, ◌≡◌, ◌≢◌, refl, ◌∙◌, ap, ◌⊎◌, inl, inr, Option, none, some, List, [], ◌∷◌, ◌++◌,
  Bool-cases, arith, All, ltb, if◌then◌else◌,
}
use starkloupe_server.FunctionCalls.{update_panic_info}

-- The updates of the loop, for contract calls in order, each with its level and its panic
unfoldable pub record_panics : List (ℕ × Option ℕ) → Option ℕ × ℕ → Option ℕ × ℕ
unfolding update_panic_info
record_panics [] s = s
record_panics ((level, panic) ∷ calls) s = record_panics calls (update_panic_info level panic s)

abbrev pub IsBelow : ℕ → ℕ × Option ℕ → Type 0
IsBelow bound (level, panic) = panic ≢ none → level < bound

abbrev pub IsAtMost : ℕ → ℕ × Option ℕ → Type 0
IsAtMost bound (level, panic) = panic ≢ none → level ≤ bound

-- The panic `id` is the first one of the deepest level.
pub record IsDeepest (calls : List (ℕ × Option ℕ)) (id level : ℕ) : Type 0 where
  pub before : List (ℕ × Option ℕ)
  pub after : List (ℕ × Option ℕ)
  pub split : calls ≡ before ++ (level, some id) ∷ after
  pub below : All (IsBelow level) before
  pub at_most : All (IsAtMost level) after

-- What the updates make of a panic `id₀` at the level `l₀` that was there
abbrev Continues : List (ℕ × Option ℕ) → ℕ → ℕ → Option ℕ × ℕ → Type 0
Continues calls id₀ l₀ s =
    ((s ≡ (some id₀, l₀)) × All (IsAtMost l₀) calls)
    ⊎ ((id : ℕ) × (l : ℕ) × (s ≡ (some id, l)) × (l₀ < l) × IsDeepest calls id l)

IsDeepest-cons :
    (call : ℕ × Option ℕ) (calls : List (ℕ × Option ℕ)) (id l : ℕ)
    → IsBelow l call
    → IsDeepest calls id l
    → IsDeepest (call ∷ calls) id l
IsDeepest-cons call calls id l h d = record {
  before = call ∷ d.before;
  after = d.after;
  split = ap (λ cs. call ∷ cs) d.split;
  below = (h, d.below);
  at_most = d.at_most;
}

IsDeepest-first :
    (id l : ℕ) (calls : List (ℕ × Option ℕ))
    → All (IsAtMost l) calls
    → IsDeepest ((l, some id) ∷ calls) id l
IsDeepest-first id l calls h = record {
  before = [];
  after = calls;
  split = refl;
  below = tt;
  at_most = h;
}

record_panics-Continues :
    (calls : List (ℕ × Option ℕ)) (id₀ l₀ : ℕ)
    → Continues calls id₀ l₀ (record_panics calls (some id₀, l₀))
unfolding record_panics update_panic_info
record_panics-Continues [] id₀ l₀ = inl (refl, tt)
record_panics-Continues ((l, none) ∷ calls) id₀ l₀ = elim (record_panics-Continues calls id₀ l₀) [
  | inl (same, h) ↦ inl (same, (λ p. absurd (p refl), h))
  | inr (id, level, at, less, d) ↦
      inr (id, level, at, less, IsDeepest-cons (l, none) calls id level (λ p. absurd (p refl)) d)
]
record_panics-Continues ((l, some p) ∷ calls) id₀ l₀ = elim (Bool-cases (ltb l₀ l)) [
  | inl e ↦ elim (record_panics-Continues calls p l) [
    | inl (same, h) ↦ inr (
      p,
      l,
      (ap (λ b. record_panics calls (if b then (some p, l) else (some id₀, l₀))) e ∙ same),
      ground arith,
      IsDeepest-first p l calls h,
    )
    | inr (id, level, at, less, d) ↦ inr (
      id,
      level,
      (ap (λ b. record_panics calls (if b then (some p, l) else (some id₀, l₀))) e ∙ at),
      ground arith,
      IsDeepest-cons (l, some p) calls id level (λ q. less) d,
    )
  ]
  | inr e ↦ elim (record_panics-Continues calls id₀ l₀) [
    | inl (same, h) ↦ inl (
      (ap (λ b. record_panics calls (if b then (some p, l) else (some id₀, l₀))) e ∙ same),
      (λ q. ground arith, h),
    )
    | inr (id, level, at, less, d) ↦ inr (
      id,
      level,
      (ap (λ b. record_panics calls (if b then (some p, l) else (some id₀, l₀))) e ∙ at),
      less,
      IsDeepest-cons (l, some p) calls id level (λ q. ground arith) d,
    )
  ]
]

-- From no panic on: either no call has a panic, and none is reported, or the panic that is reported is
-- the one of the first call among those with a panic at the deepest nesting level.
pub record_panics-IsDeepest :
    (calls : List (ℕ × Option ℕ))
    → ((record_panics calls (none, 0) ≡ (none, 0)) × All (λ (level, panic). panic ≡ none) calls)
      ⊎ ((id : ℕ) × (level : ℕ) × (record_panics calls (none, 0) ≡ (some id, level))
          × IsDeepest calls id level)
unfolding record_panics update_panic_info
record_panics-IsDeepest [] = inl (refl, tt)
record_panics-IsDeepest ((l, none) ∷ calls) = elim (record_panics-IsDeepest calls) [
  | inl (same, h) ↦ inl (same, (refl, h))
  | inr (id, level, at, d) ↦
      inr (id, level, at, IsDeepest-cons (l, none) calls id level (λ p. absurd (p refl)) d)
]
record_panics-IsDeepest ((l, some p) ∷ calls) = elim (record_panics-Continues calls p l) [
  | inl (same, h) ↦ inr (p, l, same, IsDeepest-first p l calls h)
  | inr (id, level, at, less, d) ↦
      inr (id, level, at, IsDeepest-cons (l, some p) calls id level (λ q. less) d)
]
