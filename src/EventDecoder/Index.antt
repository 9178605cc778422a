-- ===== src/EventDecoder/Index.antt =====
-- crates/data-decoder/src/event_decoder.rs: decoding an event ends, and where the data index is then.
use starkloupe_server.Common.{
  ℕ, zero, suc, ◌+◌, ◌%◌, ◌^◌, ◌≤◌, ◌<◌, Text, codes, Bool, true, false, ◌&&◌, Option, none, some,
  List, [], ◌∷◌, ◌≡◌, refl, arith, All, length, get_elem?, ltb, inl, inr, Bool-cases, Option-cases,
  if◌then◌else◌,
}
use starkloupe_server.Common.Texts.{starts_with, ends_with}
use starkloupe_server.Common.Run.{Run, Meets, done-Meets, >>=-Meets, Ends-Meets}
use starkloupe_server.Values.{DecodedValue, Elements, nil, cons, Fields, end, field}
use starkloupe_server.Simplify.{simplify_type_name}
use starkloupe_server.Simplify.Total.{simplify_type_name-Ends}
use starkloupe_server.Decoder.{to_usize}
use starkloupe_server.EventDecoder.{
  TypeId, GenericArg, type_arg, other_arg, TypeDeclaration, Decoding, DecodeNested, type_at,
  decode_single, decode_type_arg, on_value, is_unit, enum_value, decode_variant_type,
  decode_sierra_enum, span_value, push_element, tuple_elements, tuple_value, insert_decoded,
  struct_values, struct_value, decode_struct_named, push_all, next_element, array_elements,
  elements_of, array_value, decode_array_of, decode_sierra_array, EventData, decode_generic,
  decode_by_args, is_skipped, decode_declared, decode_event_datas, debug_name_or_empty,
}

get_elem?_lt : {A : Type 0} (xs : List A) (i : ℕ) {x : A} → get_elem? xs i ≡ some x → i < length xs
get_elem?_lt [] i h = absurd cc
get_elem?_lt (y ∷ xs) zero h = omega arith
get_elem?_lt (y ∷ xs) (suc i) h = omega (arith, get_elem?_lt xs i h)

module _ (rank : TypeId → ℕ) where
  -- The argument is no type, or one of a smaller rank.
  abbrev pub ArgBelow : ℕ → GenericArg → Type 0
  ArgBelow n (type_arg a) = rank a < n
  ArgBelow n other_arg = Unit

  abbrev pub ArgsBelow : ℕ → Option TypeDeclaration → Type 0
  ArgsBelow n none = Unit
  ArgsBelow n (some d) = All (ArgBelow n) (TypeDeclaration.generic_args d)

  abbrev OptionBelow : ℕ → Option GenericArg → Type 0
  OptionBelow n none = Unit
  OptionBelow n (some a) = ArgBelow n a

  get_elem?-ArgBelow :
      (n : ℕ) (args : List GenericArg) (i : ℕ)
      → All (ArgBelow n) args
      → OptionBelow n (get_elem? args i)
  get_elem?-ArgBelow n [] i h = tt
  get_elem?-ArgBelow n (a ∷ args) zero h = h.0
  get_elem?-ArgBelow n (a ∷ args) (suc i) h = get_elem?-ArgBelow n args i (h.1)

  -- An index between two bounds.
  abbrev pub Between : {A : Type 0} → ℕ → ℕ → A × ℕ → Type 0
  Between lo len (a, index) = (lo ≤ index) × (index ≤ len)

  module _ (n lo len : ℕ) (decode : DecodeNested)
      (good : (id : TypeId) (i : ℕ)
        → rank id < n
        → lo ≤ i
        → i ≤ len
        → Meets (Between lo len) (decode id i)) where
    decode_type_arg-Meets :
        (o : Option GenericArg) (i : ℕ)
        → OptionBelow n o
        → lo ≤ i
        → i ≤ len
        → Meets (Between lo len) (decode_type_arg decode o i)
    decode_type_arg-Meets none i h p q = done-Meets (Between lo len) _ (p, q)
    decode_type_arg-Meets (some other_arg) i h p q = done-Meets (Between lo len) _ (p, q)
    decode_type_arg-Meets (some (type_arg id)) i h p q = good id i h p q

    on_value-Between :
        (f : DecodedValue → DecodedValue) (r : Option DecodedValue × ℕ)
        → Between lo len r
        → Between lo len (on_value f r)
    on_value-Between f (none, i) h = h
    on_value-Between f (some v, i) h = h

    push_element-Between :
        (o : Option DecodedValue) (r : Elements × ℕ)
        → Between lo len r
        → Between lo len (push_element o r)
    push_element-Between none r h = h
    push_element-Between (some v) (vs, i) h = h

    insert_decoded-Between :
        (k : ℕ) (o : Option DecodedValue) (r : Fields × ℕ)
        → Between lo len r
        → Between lo len (insert_decoded k o r)
    insert_decoded-Between k none r h = h
    insert_decoded-Between k (some v) (vs, i) h = h

    tuple_value-Between :
        (name : Text) (r : Elements × ℕ) → Between lo len r → Between lo len (tuple_value name r)
    tuple_value-Between name (nil, i) h = h
    tuple_value-Between name (cons v vs, i) h = h

    struct_value-Between :
        (name : Text) (r : Fields × ℕ) → Between lo len r → Between lo len (struct_value name r)
    struct_value-Between name (end, i) h = h
    struct_value-Between name (field k v vs, i) h = h

    array_value-Between :
        (name : Text) (r : Option Elements × ℕ)
        → Between lo len r
        → Between lo len (array_value name r)
    array_value-Between name (none, i) h = h
    array_value-Between name (some vs, i) h = h

    push_all-Between :
        (v : DecodedValue) (r : Option Elements × ℕ)
        → Between lo len r
        → Between lo len (push_all v r)
    push_all-Between v (none, i) h = h
    push_all-Between v (some vs, i) h = h

    tuple_elements-Meets :
        (args : List GenericArg) (i : ℕ)
        → All (ArgBelow n) args
        → lo ≤ i
        → i ≤ len
        → Meets (Between lo len) (tuple_elements decode args i)
    unfolding tuple_elements
    tuple_elements-Meets [] i h p q = done-Meets (Between lo len) _ (p, q)
    tuple_elements-Meets (a ∷ args) i h p q =
        >>=-Meets (Between lo len) (Between lo len) (decode_type_arg decode (some a) i) _
          (decode_type_arg-Meets (some a) i (h.0) p q)
          (λ found g.
            >>=-Meets (Between lo len) (Between lo len) (tuple_elements decode args (found.1)) _
              (tuple_elements-Meets args (found.1) (h.1) (g.0) (g.1))
              (λ others k. done-Meets (Between lo len) _ (push_element-Between (found.0) others k)))

    struct_values-Meets :
        (k : ℕ) (args : List GenericArg) (i : ℕ)
        → All (ArgBelow n) args
        → lo ≤ i
        → i ≤ len
        → Meets (Between lo len) (struct_values decode k args i)
    unfolding struct_values
    struct_values-Meets k [] i h p q = done-Meets (Between lo len) _ (p, q)
    struct_values-Meets k (a ∷ args) i h p q =
        >>=-Meets (Between lo len) (Between lo len) (decode_type_arg decode (some a) i) _
          (decode_type_arg-Meets (some a) i (h.0) p q)
          (λ found g.
            >>=-Meets (Between lo len) (Between lo len)
              (struct_values decode (suc k) args (found.1)) _
              (struct_values-Meets (suc k) args (found.1) (h.1) (g.0) (g.1))
              (λ others l.
                done-Meets (Between lo len) _ (insert_decoded-Between k (found.0) others l)))

    next_element-Meets :
        (rest : ℕ → Run (Option Elements × ℕ))
        → ((i : ℕ) → lo ≤ i → i ≤ len → Meets (Between lo len) (rest i))
        → (found : Option DecodedValue × ℕ) → Between lo len found
        → Meets (Between lo len) (next_element rest found)
    next_element-Meets rest h (none, i) g = done-Meets (Between lo len) _ g
    next_element-Meets rest h (some v, i) g =
        >>=-Meets (Between lo len) (Between lo len) (rest i) _ (h i (g.0) (g.1))
          (λ others k. done-Meets (Between lo len) _ (push_all-Between v others k))

    array_elements-Meets :
        (id : TypeId)
        → rank id < n
        → (count i : ℕ) → lo ≤ i
        → i ≤ len
        → Meets (Between lo len) (array_elements decode id count i)
    unfolding array_elements
    array_elements-Meets id h zero i p q = done-Meets (Between lo len) _ (p, q)
    array_elements-Meets id h (suc count) i p q =
        >>=-Meets (Between lo len) (Between lo len) (decode id i) _ (good id i h p q) (λ found g.
          next_element-Meets (array_elements decode id count)
            (λ j p' q'. array_elements-Meets id h count j p' q') found g)

    elements_of-Meets :
        (o : Option GenericArg) (count i : ℕ)
        → OptionBelow n o
        → lo ≤ i
        → i ≤ len
        → Meets (Between lo len) (elements_of decode o count i)
    elements_of-Meets none count i h p q = done-Meets (Between lo len) _ (p, q)
    elements_of-Meets (some other_arg) count i h p q = done-Meets (Between lo len) _ (p, q)
    elements_of-Meets (some (type_arg id)) count i h p q = array_elements-Meets id h count i p q

    decode_variant_type-Meets :
        (name : Text) (variant : ℕ) (o : Option GenericArg) (i : ℕ)
        → OptionBelow n o
        → lo ≤ i
        → i < len
        → Meets (Between lo len) (decode_variant_type decode name variant o i)
    decode_variant_type-Meets name variant none i h p q =
        done-Meets (Between lo len) _ (p, omega arith)
    decode_variant_type-Meets name variant (some other_arg) i h p q =
        done-Meets (Between lo len) _ (p, omega arith)
    decode_variant_type-Meets name variant (some (type_arg id)) i h p q =
        elim (Bool-cases (is_unit id)) [
          | inl e ↦ rw (e, decode_variant_type) (done-Meets (Between lo len) _ (omega arith, q))
          | inr e ↦
              rw (e, decode_variant_type)
                (>>=-Meets (Between lo len) (Between lo len) (decode id (suc i)) _
                  (good id (suc i) h (omega arith) q)
                  (λ found g.
                    done-Meets (Between lo len) _ (on_value-Between (enum_value name) found g)))
        ]

    decode_sierra_enum-Meets :
        (name : Text) (args : List GenericArg) (felt : Option ℕ) (i : ℕ)
        → All (ArgBelow n) args
        → lo ≤ i
        → i ≤ len
        → ((x : ℕ) → felt ≡ some x → i < len)
        → Meets (Between lo len) (decode_sierra_enum decode name args felt i)
    decode_sierra_enum-Meets name args none i h p q r = done-Meets (Between lo len) _ (p, q)
    decode_sierra_enum-Meets name args (some x) i h p q r = elim (Option-cases (to_usize x)) [
      | inl e ↦ rw (e, decode_sierra_enum) (done-Meets (Between lo len) _ (p, q))
      | inr (variant, e) ↦
          rw (e, decode_sierra_enum)
            (decode_variant_type-Meets name variant (type_at args ((variant + 1) % 2 ^ 64)) i
              (get_elem?-ArgBelow n args ((variant + 1) % 2 ^ 64) h) p (r x refl))
    ]

    decode_array_of-Meets :
        (capacity : ℕ) (name : Text) (args : List GenericArg) (o : Option ℕ) (i : ℕ)
        → All (ArgBelow n) args
        → lo ≤ i
        → i < len
        → Meets (Between lo len) (decode_array_of capacity decode name args o i)
    decode_array_of-Meets capacity name args none i h p q =
        done-Meets (Between lo len) _ (p, omega arith)
    decode_array_of-Meets capacity name args (some count) i h p q =
        elim (Bool-cases (ltb capacity count)) [
          | inl b ↦ rw (b, decode_array_of) ((λ c. cc), (λ a c. absurd cc))
          | inr b ↦
              rw (b, decode_array_of)
                (>>=-Meets (Between lo len) (Between lo len)
                  (elements_of decode (type_at args 0) count (suc i)) _
                  (elements_of-Meets (type_at args 0) count (suc i) (get_elem?-ArgBelow n args 0 h)
                    (omega arith) q)
                  (λ vs k. done-Meets (Between lo len) _ (array_value-Between name vs k)))
        ]

    decode_array-Meets :
        (capacity : ℕ) (name : Text) (args : List GenericArg) (felt : Option ℕ) (i : ℕ)
        → All (ArgBelow n) args
        → lo ≤ i
        → i ≤ len
        → ((x : ℕ) → felt ≡ some x → i < len)
        → Meets (Between lo len) (decode_sierra_array capacity decode name args felt i)
    decode_array-Meets capacity name args none i h p q r = done-Meets (Between lo len) _ (p, q)
    decode_array-Meets capacity name args (some x) i h p q r =
        decode_array_of-Meets capacity name args (to_usize x) i h p (r x refl)

    decode_struct_named-Meets :
        (args : List GenericArg) (i : ℕ) (name : Text)
        → All (ArgBelow n) args
        → lo ≤ i
        → i ≤ len
        → Meets (Between lo len) (decode_struct_named decode args i name)
    decode_struct_named-Meets args i name h p q =
        elim (Bool-cases (starts_with (codes "Span<") name)) [
          | inl e ↦
              rw (e, decode_struct_named)
                (>>=-Meets (Between lo len) (Between lo len)
                  (decode_type_arg decode (type_at args 1) i) _
                  (decode_type_arg-Meets (type_at args 1) i (get_elem?-ArgBelow n args 1 h) p q)
                  (λ found g.
                    done-Meets (Between lo len) _ (on_value-Between (span_value name) found g)))
          | inr e ↦ elim (Bool-cases (starts_with (codes "(") name && ends_with (codes ")") name)) [
            | inl e' ↦
                rw (e, e', decode_struct_named)
                  (>>=-Meets (Between lo len) (Between lo len) (tuple_elements decode args i) _
                    (tuple_elements-Meets args i h p q)
                    (λ vs k. done-Meets (Between lo len) _ (tuple_value-Between name vs k)))
            | inr e' ↦
                rw (e, e', decode_struct_named)
                  (>>=-Meets (Between lo len) (Between lo len) (struct_values decode 0 args i) _
                    (struct_values-Meets 0 args i h p q)
                    (λ vs k. done-Meets (Between lo len) _ (struct_value-Between name vs k)))
          ]
        ]

    if-Meets :
        (b : Bool) (m m' : Decoding)
        → Meets (Between lo len) m
        → Meets (Between lo len) m'
        → Meets (Between lo len) (if b then m else m')
    if-Meets true m m' h k = h
    if-Meets false m m' h k = k

    decode_generic-Meets :
        (event : EventData) (generic name : Text) (args : List GenericArg) (i : ℕ)
        → length (EventData.values event) ≡ len
        → All (ArgBelow n) args
        → lo ≤ i
        → i ≤ len
        → Meets (Between lo len) (decode_generic event decode generic name args i)
    unfolding decode_generic
    decode_generic-Meets event generic name args i e h p q =
        let read : (x : ℕ) → get_elem? (EventData.values event) i ≡ some x → i < len =
          λ x r. omega (arith, get_elem?_lt (EventData.values event) i r, e) in
        let inner = decode_type_arg-Meets (type_at args 0) i (get_elem?-ArgBelow n args 0 h) p q in
        if-Meets _ _ _
          (decode_sierra_enum-Meets name args (get_elem? (EventData.values event) i) i h p q read)
          (if-Meets _ _ _
            (>>=-Meets (λ a. Unit) (Between lo len) (simplify_type_name name) _
              (Ends-Meets _ (simplify_type_name-Ends name))
              (λ t _. decode_struct_named-Meets args i t h p q))
            (if-Meets _ _ _
              (decode_array-Meets (EventData.capacity event) name args
                (get_elem? (EventData.values event) i) i h p q read)
              (if-Meets _ _ _ inner (if-Meets _ _ _ inner (done-Meets (Between lo len) _ (p, q))))))

    decode_single-Meets :
        (name : Text) (felt : Option ℕ) (i : ℕ)
        → lo ≤ i
        → i ≤ len
        → ((x : ℕ) → felt ≡ some x → i < len)
        → Meets (Between lo len) (decode_single name felt i)
    decode_single-Meets name none i p q r = done-Meets (Between lo len) _ (p, q)
    decode_single-Meets name (some x) i p q r =
        done-Meets (Between lo len) _ (omega arith, r x refl)

    decode_by_args-Meets :
        (event : EventData) (generic name : Text) (args : List GenericArg) (i : ℕ)
        → length (EventData.values event) ≡ len
        → All (ArgBelow n) args
        → lo ≤ i
        → i ≤ len
        → Meets (Between lo len) (decode_by_args event decode generic name args i)
    decode_by_args-Meets event generic name [] i e h p q =
        decode_single-Meets name (get_elem? (EventData.values event) i) i p q
          (λ x r. omega (arith, get_elem?_lt (EventData.values event) i r, e))
    decode_by_args-Meets event generic name (a ∷ args) i e h p q =
        decode_generic-Meets event generic name (a ∷ args) i e h p q

    decode_declared-Meets :
        (event : EventData) (o : Option TypeDeclaration) (i : ℕ)
        → length (EventData.values event) ≡ len
        → ArgsBelow n o
        → lo ≤ i
        → i ≤ len
        → Meets (Between lo len) (decode_declared event decode o i)
    decode_declared-Meets event none i e h p q = done-Meets (Between lo len) _ (p, q)
    decode_declared-Meets event (some d) i e h p q =
        >>=-Meets (λ a. Unit) (Between lo len)
          (simplify_type_name (debug_name_or_empty (TypeDeclaration.debug_name d))) _
          (Ends-Meets _
            (simplify_type_name-Ends (debug_name_or_empty (TypeDeclaration.debug_name d))))
          (λ name _.
            if-Meets (is_skipped name (EventData.values event)) _ _
              (done-Meets (Between lo len) _ (p, q))
              (decode_by_args-Meets event (TypeDeclaration.generic_id d) name
                (TypeDeclaration.generic_args d) i e h p q))

  -- If the arguments of every declared type have a smaller rank than the type, `decode_event_datas`
  -- returns or panics on a fuel above the rank of the type. Whether it decodes a value or not, from a
  -- data index within the event's felts it leaves one that is not smaller and still within them.
  pub decode_event_datas-Between :
      (fuel : ℕ) (event : EventData) (id : TypeId) (index : ℕ)
      → ((a : TypeId) → ArgsBelow (rank a) (EventData.declaration event a))
      → rank id < fuel
      → index ≤ length (EventData.values event)
      → Meets
          (Between index (length (EventData.values event)))
          (decode_event_datas fuel event id index)
  unfolding decode_event_datas
  decode_event_datas-Between zero event id index h r q = absurd (omega arith)
  decode_event_datas-Between (suc fuel) event id index h r q =
      decode_declared-Meets (rank id) index (length (EventData.values event))
        (decode_event_datas fuel event)
        (λ a i ra p q'.
          let m = decode_event_datas-Between fuel event a i h (omega arith) q' in
          (m.0, λ o e. let k = m.1 o e in (omega (arith, k.0), k.1)))
        event (EventData.declaration event id) index refl (h id) (omega arith) q
