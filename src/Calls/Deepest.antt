-- ===== src/Calls/Deepest.antt =====
-- The two fields of the builder that follow the failed calls, as a fold over the failures.
use starkloupe_server.Common.{
  ℕ, ◌≡◌, refl, Bool, Option, none, some, List, [], ◌∷◌, ◌++◌, ltb, if◌then◌else◌, arith,
}
use starkloupe_server.Calls.Builder.{Builder, record_failure}
use starkloupe_server.Calls.Flame.{last_above, reported}

abbrev pub Deepest : Type 0
Deepest = Option ℕ × ℕ

abbrev pub deepest_of : Builder → Deepest
deepest_of b = (b.deepest_failed_contract_call_id, b.deepest_failed_nesting_level)

abbrev pub note : Deepest → ℕ → ℕ → Deepest
note (none, deepest) id level = (some id, level)
note (some d, deepest) id level = (some (if ltb deepest level then id else d), deepest)

abbrev pub note_all : Deepest → List (ℕ × ℕ) → Deepest
note_all d [] = d
note_all d ((id, level) ∷ rest) = note_all (note d id level) rest

pub note_all-append :
    (d : Deepest) (xs ys : List (ℕ × ℕ)) → note_all d (xs ++ ys) ≡ note_all (note_all d xs) ys
note_all-append d [] ys = refl
note_all-append d ((id, level) ∷ rest) ys = note_all-append (note d id level) rest ys

pub record_failure_lem :
    (failed : Bool) (id level : ℕ) (b : Builder)
    → deepest_of (record_failure failed id level b)
      ≡ (if failed then note (deepest_of b) id level else deepest_of b)
unfolding record_failure
record_failure_lem failed id level b = ground arith

note_all-some :
    (d deepest : ℕ) (xs : List (ℕ × ℕ))
    → (note_all (some d, deepest) xs).0 ≡ some (last_above d deepest xs)
note_all-some d deepest [] = refl
note_all-some d deepest ((id, level) ∷ rest) =
    note_all-some (if ltb deepest level then id else d) deepest rest

pub note_all-none : (xs : List (ℕ × ℕ)) → (note_all (none, 0) xs).0 ≡ reported xs
note_all-none [] = refl
note_all-none ((id, level) ∷ rest) = note_all-some id level rest
