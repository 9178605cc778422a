-- ===== src/TypeDecoder/Nesting.antt =====
-- crates/data-decoder/src/type_decoder.rs: how deep type information is nested, and runs that meet a
-- condition on their result.
use starkloupe_server.Common.{ℕ, suc, Text, inl, inr, ◌≤◌, max, arith, Bool-cases}
use starkloupe_server.TypeDecoder.{
  Member, member, Nested, absent, given, Members, end, entry, TypeInfo, has_structure, element_info,
}

unfoldable mutual
  -- The levels of lists of members in type information.
  pub nesting : Nested → ℕ
  nesting absent = 0
  nesting (given ms) = suc (nesting_of_members ms)

  pub nesting_of_members : Members → ℕ
  nesting_of_members end = 0
  nesting_of_members (entry m ms) = max (nesting_of_member m) (nesting_of_members ms)

  pub nesting_of_member : Member → ℕ
  nesting_of_member (member name ty members variants circular) =
      max (nesting members) (nesting variants)

abbrev pub Within : ℕ → TypeInfo → Type 0
Within n (members, variants) = (nesting members ≤ n) × (nesting variants ≤ n)

pub element_info-Within :
    (inner : Text) (n : ℕ) (info : TypeInfo)
    → Within n info
    → Within (suc n) (element_info inner info)
unfolding nesting
element_info-Within inner n info h = elim (Bool-cases (has_structure info)) [
  | inl e ↦ rw (e, element_info) (ground arith)
  | inr e ↦ rw (e, element_info) (ground arith)
]
