-- ===== src/Calls/Flame.antt =====
-- The flame chart and the failed calls that a traversal should yield.
use starkloupe_server.Common.{
  ℕ, ◌+◌, ◌≡◌, refl, ap, Option, none, some, List, [], ◌∷◌, ◌++◌, ltb, if◌then◌else◌,
}
use starkloupe_server.Calls.{
  CallTraceNodes, nil, entry_point_call, deploy_without_constructor, FlameChartNodes, leaf, flame,
  push_flame, is_err,
}
use starkloupe_server.Calls.Builder.{is_strk_fee_token_address}
use starkloupe_server.Calls.Spec.{size}

abbrev pub append_flames : FlameChartNodes → FlameChartNodes → FlameChartNodes
append_flames leaf g = g
append_flames (flame i v c rest) g = flame i v c (append_flames rest g)

-- The shown calls of a forest that is numbered from `n`; the calls inside a hidden one move up.
abbrev pub chart_of : ℕ → CallTraceNodes → FlameChartNodes
chart_of n nil = leaf
chart_of n (deploy_without_constructor rest) = chart_of n rest
chart_of n (entry_point_call t inner rest) =
    if is_strk_fee_token_address t
    then append_flames (chart_of (n + 1) inner) (chart_of (n + 1 + size inner) rest)
    else flame n t.gas_consumed (chart_of (n + 1) inner) (chart_of (n + 1 + size inner) rest)

pub append_flames_assoc :
    (f g h : FlameChartNodes)
    → append_flames (append_flames f g) h ≡ append_flames f (append_flames g h)
append_flames_assoc leaf g h = refl
append_flames_assoc (flame i v c rest) g h = ap (flame i v c) (append_flames_assoc rest g h)

pub append-push_flame :
    (f : FlameChartNodes) (i v : ℕ) (c g : FlameChartNodes)
    → append_flames (push_flame f i v c) g ≡ append_flames f (flame i v c g)
unfolding push_flame
append-push_flame leaf i v c g = refl
append-push_flame (flame j w d rest) i v c g = ap (flame j w d) (append-push_flame rest i v c g)

pub append_flames-leaf : (f : FlameChartNodes) → append_flames f leaf ≡ f
append_flames-leaf leaf = refl
append_flames-leaf (flame i v c rest) = ap (flame i v c) (append_flames-leaf rest)

-- The failed calls in the order of their ids, with their nesting levels.
abbrev pub failures : ℕ → ℕ → CallTraceNodes → List (ℕ × ℕ)
failures n level nil = []
failures n level (deploy_without_constructor rest) = failures n level rest
failures n level (entry_point_call t inner rest) =
    let later = failures (n + 1) (level + 1) inner ++ failures (n + 1 + size inner) level rest in
    if is_err t.result then (n, level + 1) ∷ later else later

-- The last failure whose level is above `level`, or `id`.
abbrev pub last_above : ℕ → ℕ → List (ℕ × ℕ) → ℕ
last_above id level [] = id
last_above id level ((i, l) ∷ rest) = last_above (if ltb level l then i else id) level rest

-- The first failure, unless a later one is nested deeper than that first one: then the last such.
abbrev pub reported : List (ℕ × ℕ) → Option ℕ
reported [] = none
reported ((i, l) ∷ rest) = some (last_above i l rest)
