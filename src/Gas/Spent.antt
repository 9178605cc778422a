-- ===== src/Gas/Spent.antt =====
-- A gas counter after the calls of a transaction.
use starkloupe_server.Common.{
  ℕ, ◌+◌, ◌-◌, ◌^◌, ◌≤◌, ◌<◌, ◌≡◌, arith, List, [], ◌∷◌, leb, if◌then◌else◌, Bool-cases, inl, inr,
}
use starkloupe_server.Common.Run.{Run, done, stop, panicked, ◌>>=◌}
use starkloupe_server.Gas.{GasCounter, u64_max, new, spend, subtract_used_gas}

-- The calls of a transaction, in order, each with the gas it consumed
unfoldable pub subtract_all : GasCounter → List ℕ → Run GasCounter
subtract_all counter [] = done counter
subtract_all counter (gas ∷ calls) = do
  counter' ← subtract_used_gas counter gas
  subtract_all counter' calls

abbrev pub total : List ℕ → ℕ
total [] = 0
total (gas ∷ calls) = gas + total calls

subtract_all-from :
    (calls : List ℕ) (spent remaining : ℕ)
    → spent + remaining ≤ u64_max
    → subtract_all (record { spent_gas = spent; remaining_gas = remaining }) calls ≡ (
        if leb (total calls) remaining
        then done
            (record { spent_gas = spent + total calls; remaining_gas = remaining - total calls })
        else stop panicked)
unfolding subtract_all subtract_used_gas spend
subtract_all-from [] spent remaining h = ground arith
subtract_all-from (gas ∷ calls) spent remaining h = elim (Bool-cases (leb gas remaining)) [
  | inl e ↦ ground (arith, subtract_all-from calls (spent + gas) (remaining - gas) (ground arith))
  | inr e ↦ ground arith
]

-- A counter that starts with `gas` below 2^64 and subtracts the gas of the calls in order ends, if
-- the calls consume at most `gas` together, with their total as spent and the rest as remaining,
-- otherwise it panics.
pub subtract_all-new :
    (gas : ℕ) (calls : List ℕ)
    → gas < 2 ^ 64
    → subtract_all (new gas) calls ≡ (
        if leb (total calls) gas
        then done (record { spent_gas = total calls; remaining_gas = gas - total calls })
        else stop panicked)
unfolding new
subtract_all-new gas calls h = ground (arith, subtract_all-from calls 0 gas (omega arith))
