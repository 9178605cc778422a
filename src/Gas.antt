-- ===== src/Gas.antt =====
-- crates/simulate/src/gas_counter.rs. Amounts of gas are `u64`; `checked_add` and `checked_sub` that
-- fail panic.
pub mod Spent
mod Samples
use starkloupe_server.Common.{ℕ, ◌+◌, ◌-◌, ◌^◌, min, Bool, List, [], ◌∷◌, ltb, if◌then◌else◌}
use starkloupe_server.Common.Run.{Run, done, stop, panicked, ◌>>=◌}

pub record GasCounter : Type 0 where
  pub spent_gas : ℕ
  pub remaining_gas : ℕ

abbrev pub u64_max : ℕ
u64_max = 2 ^ 64 - 1

unfoldable pub new : ℕ → GasCounter
new initial_gas = record { spent_gas = 0; remaining_gas = initial_gas }

-- `checked_add(..).expect(..)`
abbrev pub checked_add : ℕ → ℕ → Run ℕ
checked_add a b = if ltb u64_max (a + b) then stop panicked else done (a + b)

-- `checked_sub(..).expect(..)`
abbrev pub checked_sub : ℕ → ℕ → Run ℕ
checked_sub a b = if ltb a b then stop panicked else done (a - b)

unfoldable pub spend : GasCounter → ℕ → Run GasCounter
spend counter amount = do
  spent ← checked_add counter.spent_gas amount
  remaining ← checked_sub counter.remaining_gas amount
  done (record { spent_gas = spent; remaining_gas = remaining })

unfoldable pub limit_usage : GasCounter → ℕ → ℕ
limit_usage counter amount = min counter.remaining_gas amount

-- `subtract_used_gas`, with the gas that the call consumed, for the calls of a transaction in order
unfoldable pub subtract_used_gas : GasCounter → ℕ → Run GasCounter
unfolding spend
subtract_used_gas counter gas_consumed = spend counter gas_consumed
