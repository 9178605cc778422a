-- ===== src/InternalTrace/Names.antt =====
-- crates/internal-tracing/src/utils.rs (`is_panic_result`, `get_raw_function_name`) and call_trace.rs
-- (`is_loop` and its helpers).
use starkloupe_server.Common.{
  ℕ, suc, ◌-◌, ◌^◌, Text, codes, text_beq, Bool, true, false, ◌&&◌, ◌||◌, not, Option, none, some,
  List, [], ◌∷◌, ◌++◌, if◌then◌else◌, nat_beq, leb, ltb,
}
use starkloupe_server.Common.Texts.{has_substring, split, trim, strip_prefix, decimal}

unfoldable pub is_panic_result : Option Text → Bool
is_panic_result none = false
is_panic_result (some result_type) = has_substring (codes "PanicResult") result_type

pub record RawName : Type 0 where
  pub raw_fn_name : Text
  pub inside_generics : ℕ
  pub segment : Text

-- The segment behind the raw name, with `::` between them unless the raw name is empty.
abbrev pub push_raw : Text → Text → Text
push_raw raw segment = if text_beq raw [] then segment else raw ++ (codes "::" ++ segment)

abbrev pub close_segment : RawName → RawName
close_segment s =
    if text_beq s.segment []
    then s
    else record s { raw_fn_name = push_raw s.raw_fn_name s.segment; segment = [] }

abbrev pub read_char : ℕ → RawName → RawName
read_char c s =
    if nat_beq c b'<'
    then record s { inside_generics = suc s.inside_generics }
    else if nat_beq c b'>'
    then (if ltb 0 s.inside_generics
        then record s { inside_generics = s.inside_generics - 1 }
        else s)
    else if nat_beq s.inside_generics 0
    then (if nat_beq c b':' then close_segment s else record s { segment = s.segment ++ c ∷ [] })
    else s

unfoldable pub raw_name_from : RawName → Text → Text
raw_name_from s [] = let closed = close_segment s in closed.raw_fn_name
raw_name_from s (c ∷ cs) = raw_name_from (read_char c s) cs

unfoldable pub get_raw_function_name : Text → Option Text
unfolding raw_name_from
get_raw_function_name fn_name =
    let start : RawName = record { raw_fn_name = []; inside_generics = 0; segment = [] } in
    if text_beq fn_name [] then none else some (raw_name_from start fn_name)

abbrev pub at_most : ℕ → Option ℕ → Bool
at_most bound none = false
at_most bound (some n) = leb n bound

abbrev pub digits_at_most : ℕ → Text → Bool
digits_at_most bound digits = not (text_beq digits []) && at_most bound (decimal 0 digits)

-- `parse::<i64>().is_ok()`
unfoldable pub parses_i64 : Text → Bool
parses_i64 [] = false
parses_i64 (c ∷ cs) =
    if nat_beq c b'-'
    then digits_at_most (2 ^ 63) cs
    else if nat_beq c b'+'
    then digits_at_most (2 ^ 63 - 1) cs
    else digits_at_most (2 ^ 63 - 1) (c ∷ cs)

abbrev pub both_numbers : List Text → Bool
both_numbers [] = false
both_numbers (left ∷ []) = false
both_numbers (left ∷ right ∷ []) = parses_i64 (trim left) && parses_i64 (trim right)
both_numbers (left ∷ right ∷ more ∷ parts) = false

unfoldable pub is_number_range : Text → Bool
unfolding split trim parses_i64
is_number_range s = both_numbers (split b'-' s)

abbrev pub all_digits : Text → Bool
all_digits [] = true
all_digits (c ∷ cs) = leb b'0' c && leb c b'9' && all_digits cs

abbrev pub is_digits : Option Text → Bool
is_digits none = false
is_digits (some rest) = not (text_beq rest []) && all_digits rest

unfoldable pub is_expr_number : Text → Bool
unfolding trim
is_expr_number s = is_digits (strip_prefix (codes "expr") (trim s))

-- The loop of `is_loop`, with `inside` and the buffer
unfoldable pub is_loop_from : Bool → Text → Text → Bool
unfolding is_number_range is_expr_number
is_loop_from inside buffer [] = false
is_loop_from inside buffer (c ∷ cs) = elim (nat_beq c b'[') [
  | true ↦ is_loop_from true [] cs
  | false ↦ elim (nat_beq c b']' && inside) [
    | true ↦ (is_number_range buffer || is_expr_number buffer) || is_loop_from false buffer cs
    | false ↦ is_loop_from inside (if inside then buffer ++ c ∷ [] else buffer) cs
  ]
]

unfoldable pub is_loop : Text → Bool
unfolding is_loop_from
is_loop function_name = is_loop_from false [] function_name
