-- ===== src/Gas/Samples.antt =====
-- The result on gas counters at a transaction of three calls.
use starkloupe_server.Common.{◌≡◌, [], ◌∷◌, leb, if◌then◌else◌, arith, ◌-◌}
use starkloupe_server.Common.Run.{done, stop, panicked}
use starkloupe_server.Gas.{new}
use starkloupe_server.Gas.Spent.{subtract_all, total, subtract_all-new}

subtract_all-new_example : subtract_all (new 100) (10 ∷ 20 ∷ 5 ∷ []) ≡ (
    if leb (total (10 ∷ 20 ∷ 5 ∷ [])) 100
    then done (record {
      spent_gas = total (10 ∷ 20 ∷ 5 ∷ []);
      remaining_gas = 100 - total (10 ∷ 20 ∷ 5 ∷ []);
    })
    else stop panicked)
subtract_all-new_example = subtract_all-new 100 (10 ∷ 20 ∷ 5 ∷ []) (omega arith)
