-- ===== src/Calls/Total.antt =====
-- The traversal never fails, and the map of the result is the preorder numbering of the trace.
use starkloupe_server.Common.{
  ℕ, ◌+◌, ◌≡◌, refl, true, false, some, [], ◌∷◌, arith, nat_eq, Bool-cases, inl, inr, ◌∙◌, sym,
}
use starkloupe_server.Common.Maps.{get}
use starkloupe_server.Calls.{
  CallTrace, CallTraceNodes, nil, entry_point_call, deploy_without_constructor, FlameChartNodes,
  leaf, is_err, push_flame,
}
use starkloupe_server.Calls.Builder.{
  Builder, is_strk_fee_token_address, register_call, close_flame, traverse,
}
use starkloupe_server.Calls.Spec.{size}
use starkloupe_server.Calls.Register.{
  IsReady, Traversed, append_children-nil, registered, register_call-eq, registered-Registered,
}
use starkloupe_server.Calls.Deepest.{deepest_of, note_all, note_all-append, record_failure_lem}
use starkloupe_server.Calls.Flame.{
  append_flames, chart_of, append_flames_assoc, append-push_flame, append_flames-leaf, failures,
}
use starkloupe_server.Calls.Lookup.{IsReady-inner, IsReady-rest, Traversed-call}

-- One node of the loop, once its parts have returned.
module _ (t : CallTrace) (inner rest : CallTraceNodes) (parent level : ℕ)
    (chart chart' : FlameChartNodes) (b b₁ b₂ : Builder)
    (reg : register_call t parent level b ≡ some b₁) where
  pub traverse-hidden :
      is_strk_fee_token_address t ≡ true
      → traverse b.next_call_id inner chart (level + 1) b₁ ≡ some (b₂, chart')
      → traverse parent (entry_point_call t inner rest) chart level b
        ≡ traverse parent rest chart' level b₂
  unfolding traverse
  traverse-hidden hidden e = ground arith

  pub traverse-shown :
      is_strk_fee_token_address t ≡ false
      → traverse b.next_call_id inner leaf (level + 1) b₁ ≡ some (b₂, chart')
      → traverse parent (entry_point_call t inner rest) chart level b
        ≡ traverse parent rest (push_flame chart b.next_call_id t.gas_consumed chart') level b₂
  unfolding traverse close_flame
  traverse-shown shown e = ground arith

-- What the traversal does to the failed calls and to the flame chart.
pub record Reported (nodes : CallTraceNodes) (level : ℕ) (b b' : Builder)
    (chart chart' : FlameChartNodes) : Type 0 where
  pub deepest : deepest_of b' ≡ note_all (deepest_of b) (failures b.next_call_id level nodes)
  pub flames : chart' ≡ append_flames chart (chart_of b.next_call_id nodes)

module _ (t : CallTrace) (inner rest : CallTraceNodes) (parent level : ℕ) (b b₂ b₃ : Builder)
    (chart children last : FlameChartNodes)
    (tr : Traversed b.next_call_id (level + 1) inner (registered t parent level b) b₂) where
  deepest-call :
      deepest_of b₂
        ≡ note_all
            (deepest_of (registered t parent level b))
            (failures (registered t parent level b).next_call_id (level + 1) inner)
      → deepest_of b₃ ≡ note_all (deepest_of b₂) (failures b₂.next_call_id level rest)
      → deepest_of b₃
        ≡ note_all (deepest_of b) (failures b.next_call_id level (entry_point_call t inner rest))
  deepest-call e e' = ground (
    arith,
    tr.next,
    record_failure_lem (is_err t.result) b.next_call_id (level + 1) b,
    note_all-append (note_all (deepest_of b) ((b.next_call_id, level + 1) ∷ []))
        (failures (b.next_call_id + 1) (level + 1) inner)
        (failures (b.next_call_id + 1 + size inner) level rest),
    note_all-append (deepest_of b) (failures (b.next_call_id + 1) (level + 1) inner)
        (failures (b.next_call_id + 1 + size inner) level rest),
  )

  Reported-hidden :
      is_strk_fee_token_address t ≡ true
      → Reported inner (level + 1) (registered t parent level b) b₂ chart children
      → Reported rest level b₂ b₃ children last
      → Reported (entry_point_call t inner rest) level b b₃ chart last
  Reported-hidden hidden s s' = record {
    deepest = deepest-call s.deepest s'.deepest;
    flames = ground (
      arith,
      tr.next,
      s.flames,
      s'.flames,
      append_flames_assoc chart (chart_of (b.next_call_id + 1) inner)
          (chart_of (b.next_call_id + 1 + size inner) rest),
    );
  }

  Reported-shown :
      is_strk_fee_token_address t ≡ false
      → Reported inner (level + 1) (registered t parent level b) b₂ leaf children
      → Reported rest level b₂ b₃ (push_flame chart b.next_call_id t.gas_consumed children) last
      → Reported (entry_point_call t inner rest) level b b₃ chart last
  Reported-shown shown s s' = record {
    deepest = deepest-call s.deepest s'.deepest;
    flames = ground (
      arith,
      tr.next,
      s.flames,
      s'.flames,
      append-push_flame chart b.next_call_id t.gas_consumed children
          (chart_of (b.next_call_id + 1 + size inner) rest),
    );
  }

-- The traversal returns, whatever the trace: every `unwrap` finds its key.
pub traverse_total :
    (nodes : CallTraceNodes) (parent level : ℕ) (chart : FlameChartNodes) (b : Builder)
    → IsReady parent b
    → (b' : Builder) × (chart' : FlameChartNodes) × (traverse parent nodes chart level b
        ≡ some (b', chart'))
      × Traversed parent level nodes b b'
      × Reported nodes level b b' chart chart'
unfolding traverse
traverse_total nil parent level chart b r = (
  b,
  chart,
  refl,
  record {
    next = omega arith;
    calls = λ k. ground (arith, r.fresh k, append_children-nil (get k b.contract_calls_map));
  },
  record { deepest = refl; flames = sym (append_flames-leaf chart) },
)
traverse_total (deploy_without_constructor rest) parent level chart b r =
    let (b', chart', e, tr, s) = traverse_total rest parent level chart b r in
    (
      b',
      chart',
      e,
      record { next = tr.next; calls = tr.calls },
      record { deepest = s.deepest; flames = s.flames },
    )
traverse_total (entry_point_call t inner rest) parent level chart b r =
    let b₁ = registered t parent level b in
    let eq = register_call-eq t parent level b r in
    let reg = registered-Registered t parent level b r in
    let ready = IsReady-inner t inner parent level r reg in
    elim (Bool-cases (is_strk_fee_token_address t)) [
      | inl hidden ↦
          let (b₂, c, e, tr, s) = traverse_total inner b.next_call_id (level + 1) chart b₁ ready in
          let (b₃, c', e', tr', s') =
            traverse_total rest parent level c b₂ (IsReady-rest t inner parent level r reg tr) in
          (
            b₃,
            c',
            traverse-hidden t inner rest parent level chart c b b₁ b₂ eq hidden e ∙ e',
            Traversed-call t inner parent level r reg tr rest tr',
            Reported-hidden t inner rest parent level b b₂ b₃ chart c c' tr hidden s s',
          )
      | inr shown ↦
          let (b₂, c, e, tr, s) = traverse_total inner b.next_call_id (level + 1) leaf b₁ ready in
          let chart₂ = push_flame chart b.next_call_id t.gas_consumed c in
          let (b₃, c', e', tr', s') =
            traverse_total rest parent level chart₂ b₂
              (IsReady-rest t inner parent level r reg tr) in
          (
            b₃,
            c',
            traverse-shown t inner rest parent level chart c b b₁ b₂ eq shown e ∙ e',
            Traversed-call t inner parent level r reg tr rest tr',
            Reported-shown t inner rest parent level b b₂ b₃ chart c c' tr shown s s',
          )
    ]
