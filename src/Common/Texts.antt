-- ===== src/Common/Texts.antt =====
-- The functions of Rust's `str` that the code uses, on byte values. The code's separators are ASCII,
-- so bytes and characters split alike. `is_whitespace` covers the ASCII white space.
use mathlib.Core.List.{reverse, reverse-cons, append_assoc}
use mathlib.Core.Path.{◌≡◌, ap, ◌∙◌}
use starkloupe_server.Common.Tests.{nat_beq, leb, ltb, if◌then◌else◌}
use starkloupe_server.Common.Keys.{Text, text_beq, codes}
use Prim.Native.Nat.{ℕ, zero, suc, ◌+◌, ◌-◌, ◌*◌, ◌/◌, ◌%◌, ◌^◌}
use mathlib.Core.Bool.{Bool, true, false, ◌&&◌, ◌||◌}
use mathlib.Core.Option
use mathlib.Core.Option.{Option, none, some}
use mathlib.Core.List.{List, [], ◌∷◌, ◌++◌}

-- `strip_prefix`
abbrev pub strip_prefix : Text → Text → Option Text
strip_prefix [] s = some s
strip_prefix (p ∷ ps) [] = none
strip_prefix (p ∷ ps) (c ∷ s) = if nat_beq p c then strip_prefix ps s else none

-- `strip_suffix`
abbrev pub strip_suffix : Text → Text → Option Text
strip_suffix p s = Option.map reverse (strip_prefix (reverse p) (reverse s))

abbrev pub is_some {ℓ} : {A : Type ℓ} → Option A → Bool
is_some none = false
is_some (some a) = true

abbrev pub starts_with : Text → Text → Bool
starts_with p s = is_some (strip_prefix p s)

abbrev pub ends_with : Text → Text → Bool
ends_with p s = is_some (strip_suffix p s)

-- `contains` of a substring
abbrev pub has_substring : Text → Text → Bool
has_substring p [] = text_beq p []
has_substring p (c ∷ s) = starts_with p (c ∷ s) || has_substring p s

-- `find(c)`: what stands before and after the first occurrence
unfoldable pub split_once : ℕ → Text → Option (Text × Text)
split_once d [] = none
split_once d (c ∷ s) =
    if nat_beq c d then some ([], s) else Option.map (λ (a, b). (c ∷ a, b)) (split_once d s)

-- `split(c)`, with the piece that is being read
unfoldable pub split_from : ℕ → Text → Text → List Text
split_from d piece [] = reverse piece ∷ []
split_from d piece (c ∷ s) = elim (nat_beq c d) [
  | true ↦ reverse piece ∷ split_from d [] s
  | false ↦ split_from d (c ∷ piece) s
]

unfoldable pub split : ℕ → Text → List Text
unfolding split_from
split d s = split_from d [] s

-- The pieces of a reversed text between its `::`s, each in the right direction again.
unfoldable pub pieces_from : Text → Text → List Text
pieces_from piece [] = piece ∷ []
pieces_from piece (c ∷ []) = (c ∷ piece) ∷ []
pieces_from piece (c ∷ d ∷ s) = elim (nat_beq c b':' && nat_beq d b':') [
  | true ↦ piece ∷ pieces_from [] s
  | false ↦ pieces_from (c ∷ piece) (d ∷ s)
]

-- `rsplit("::")`
unfoldable pub rsplit_path : Text → List Text
unfolding pieces_from
rsplit_path s = pieces_from [] (reverse s)

abbrev pub first_or : Text → List Text → Text
first_or d [] = d
first_or d (t ∷ ts) = t

abbrev pub is_whitespace : ℕ → Bool
is_whitespace c = nat_beq c 32 || leb 9 c && leb c 13

abbrev pub trim_start_matches : (ℕ → Bool) → Text → Text
trim_start_matches p [] = []
trim_start_matches p (c ∷ s) = if p c then trim_start_matches p s else c ∷ s

unfoldable pub trim_matches : (ℕ → Bool) → Text → Text
trim_matches p s = reverse (trim_start_matches p (reverse (trim_start_matches p s)))

unfoldable pub trim : Text → Text
unfolding trim_matches
trim = trim_matches is_whitespace

-- `[String]::join`
abbrev pub join : Text → List Text → Text
join sep [] = []
join sep (t ∷ []) = t
join sep (t ∷ u ∷ ts) = t ++ (sep ++ join sep (u ∷ ts))

-- The value of a run of decimal digits.
abbrev pub decimal : ℕ → Text → Option ℕ
decimal n [] = some n
decimal n (c ∷ s) = if leb b'0' c && leb c b'9' then decimal (n * 10 + (c - b'0')) s else none

abbrev pub drop_plus : Text → Text
drop_plus [] = []
drop_plus (c ∷ s) = if nat_beq c b'+' then s else c ∷ s

abbrev pub fits_usize : Option ℕ → Option ℕ
fits_usize none = none
fits_usize (some n) = if ltb n (2 ^ 64) then some n else none

-- `parse::<usize>().ok()`
unfoldable pub parse_usize : Text → Option ℕ
parse_usize s = if text_beq (drop_plus s) [] then none else fits_usize (decimal 0 (drop_plus s))

-- `{:x}`; every digit uses one unit of fuel, and a number has no more digits than its value.
abbrev pub hex_digit : ℕ → ℕ
hex_digit d = if ltb d 10 then b'0' + d else b'a' + (d - 10)

unfoldable pub hex_digits : ℕ → ℕ → Text → Text
hex_digits zero n tail = tail
hex_digits (suc fuel) n tail =
    let rest = hex_digits fuel (n / 16) (hex_digit (n % 16) ∷ tail) in
    if ltb n 16 then hex_digit n ∷ tail else rest

unfoldable pub format_hex : ℕ → Text
unfolding hex_digits
format_hex n = codes "0x" ++ hex_digits (suc n) n []

-- `{}` of a number, with fuel as in `format_hex`.
unfoldable pub decimal_digits : ℕ → ℕ → Text → Text
decimal_digits zero n tail = tail
decimal_digits (suc fuel) n tail =
    let rest = decimal_digits fuel (n / 10) ((b'0' + n % 10) ∷ tail) in
    if ltb n 10 then (b'0' + n) ∷ tail else rest

unfoldable pub print_decimal : ℕ → Text
unfolding decimal_digits
print_decimal n = decimal_digits (suc n) n []

-- A character that has been read stands behind the ones before it.
pub reverse-segment :
    (c : ℕ) (segment t : Text) → reverse (c ∷ segment) ++ t ≡ reverse segment ++ c ∷ t
reverse-segment c segment t =
    ap (λ s. s ++ t) (reverse-cons c segment) ∙ append_assoc (reverse segment) (c ∷ []) t
