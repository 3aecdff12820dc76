-- ===== src/Orchestration/Readiness/Stability.antt =====
-- Decisions on readiness do not change, and are made in the end.
use vimla_ai.Common.{
  ℕ, ◌≡◌, ◌≢◌, refl, ap, ◌⊎◌, inl, inr, Bool, true, false, some, List, [], ◌∷◌, all, any, map, All,
  arith, Bool-cases, Option-cases,
}
use vimla_ai.Orchestration.Readiness.{
  join, DependencyCondition, always, data_flow, on_success, on_failure, on_outcome, JoinPolicy,
  all_required, any_required, all_settled, InvocationDependency, SourceStates,
  DependencySourceRuntimeState, DependencyEvaluation, waiting, satisfied, impossible, is_settled,
  is_satisfied, is_impossible, is_terminal_invocation_status, evaluate, evaluate_kind,
  evaluate_condition, decide_join, wait, decide_dependency_readiness,
}

-- Later states, in which what was terminal is as it was.
abbrev pub Extends : SourceStates → SourceStates → Type 0
Extends states later =
    (id : ℕ) (source : DependencySourceRuntimeState)
    → states id ≡ some source
    → is_terminal_invocation_status source.status ≡ true
    → later id ≡ some source

evaluate_final :
    (states later : SourceStates) (d : InvocationDependency)
    → Extends states later
    → (evaluate states d ≡ waiting) ⊎ (evaluate later d ≡ evaluate states d)
unfolding evaluate_condition
evaluate_final states later d extends = elim (Option-cases (states d.from_invocation_id)) [
  | inl unknown_source ↦ inl (rw unknown_source refl)
  | inr (source, known) ↦ elim (Bool-cases (is_terminal_invocation_status source.status)) [
    | inl terminal ↦ inr (rw (known, extends d.from_invocation_id source known terminal) refl)
    | inr open_still ↦ inl (rw (known, open_still) refl)
  ]
]

module _ (states later : SourceStates) (extends : Extends states later)
    (p : DependencyEvaluation → Bool) (not_waiting : p waiting ≡ false) where
  -- A test that a waiting dependency fails, once passed by one, stays passed by it.
  any_final :
      (incoming : List InvocationDependency)
      → any p (map (evaluate states) incoming) ≡ true
      → any p (map (evaluate later) incoming) ≡ true
  any_final [] h = h
  any_final (d ∷ ds) h = elim (evaluate_final states later d extends) [
    | inl waits ↦
        let rest = any_final ds in
        let now : any p (map (evaluate states) ds) ≡ true = rw (waits, not_waiting) at h in
        elim (Bool-cases (p (evaluate later d))) [
          | inl passes ↦ rw passes refl
          | inr fails ↦ rw fails (rest now)
        ]
    | inr same ↦ elim (Bool-cases (p (evaluate states d))) [
      | inl passes ↦ rw (same, passes) refl
      | inr fails ↦ rw (same, fails) (any_final ds (rw fails at h))
    ]
  ]

  -- Once passed by all, nothing changes any more.
  all_final :
      (incoming : List InvocationDependency)
      → all p (map (evaluate states) incoming) ≡ true
      → map (evaluate later) incoming ≡ map (evaluate states) incoming
  all_final [] h = refl
  all_final (d ∷ ds) h = elim (evaluate_final states later d extends) [
    | inl waits ↦ cc (rw (waits, not_waiting) at h)
    | inr same ↦ elim (Bool-cases (p (evaluate states d))) [
      | inl passes ↦ rw (same, all_final ds (rw passes at h)) refl
      | inr fails ↦ cc (rw fails at h)
    ]
  ]

-- A decision to run or to skip an invocation is final: whatever the sources that were not yet
-- terminal come to, the same decision is made again, for the same reason.
pub decide_dependency_readiness_final :
    (policy : JoinPolicy) (incoming : List InvocationDependency) (states later : SourceStates)
    → Extends states later
    → (decide_dependency_readiness policy incoming states).decision ≢ wait
    → decide_dependency_readiness policy incoming later
      ≡ decide_dependency_readiness policy incoming states
unfolding decide_dependency_readiness decide_join
decide_dependency_readiness_final policy [] states later extends decided = refl
decide_dependency_readiness_final all_settled (d ∷ ds) states later extends decided =
    elim (Bool-cases (all is_settled (map (evaluate states) (d ∷ ds)))) [
      | inl settled ↦
          ap (decide_join all_settled)
            (all_final states later extends is_settled refl (d ∷ ds) settled)
      | inr open_still ↦ absurd (decided (rw open_still refl))
    ]
decide_dependency_readiness_final any_required (d ∷ ds) states later extends decided =
    elim (Bool-cases (any is_satisfied (map (evaluate states) (d ∷ ds)))) [
      | inl one ↦ rw (one, any_final states later extends is_satisfied refl (d ∷ ds) one) refl
      | inr not_one ↦ elim (Bool-cases (all is_impossible (map (evaluate states) (d ∷ ds)))) [
        | inl no_way ↦
            ap (decide_join any_required)
              (all_final states later extends is_impossible refl (d ∷ ds) no_way)
        | inr open_still ↦ absurd (decided (rw (not_one, open_still) refl))
      ]
    ]
decide_dependency_readiness_final all_required (d ∷ ds) states later extends decided =
    elim (Bool-cases (any is_impossible (map (evaluate states) (d ∷ ds)))) [
      | inl one ↦ rw (one, any_final states later extends is_impossible refl (d ∷ ds) one) refl
      | inr not_one ↦ elim (Bool-cases (all is_satisfied (map (evaluate states) (d ∷ ds)))) [
        | inl every ↦
            ap (decide_join all_required)
              (all_final states later extends is_satisfied refl (d ∷ ds) every)
        | inr open_still ↦ absurd (decided (rw (not_one, open_still) refl))
      ]
    ]

-- The sources of all dependencies are known and terminal.
abbrev pub AllTerminal : SourceStates → List InvocationDependency → Type 0
AllTerminal states incoming =
    All
      (λ d.
        (source : DependencySourceRuntimeState) × (states d.from_invocation_id ≡ some source)
        × (is_terminal_invocation_status source.status ≡ true))
      incoming

kind_settled :
    (condition : DependencyCondition) (source : DependencySourceRuntimeState)
    → evaluate_kind condition source ≢ waiting
kind_settled always source h = cc
kind_settled data_flow source h = ground arith
kind_settled on_success source h = ground arith
kind_settled on_failure source h = ground arith
kind_settled (on_outcome o) source h = ground arith

evaluate_settled :
    (states : SourceStates) (incoming : List InvocationDependency)
    → AllTerminal states incoming
    → All (λ e. e ≢ waiting) (map (evaluate states) incoming)
unfolding evaluate_condition
evaluate_settled states [] h = tt
evaluate_settled states (d ∷ ds) h =
    let (source, known, terminal) = h.0 in
    (rw (known, terminal) (kind_settled d.condition source), evaluate_settled states ds h.1)

-- Of evaluations none of which waits.
all_settled_lem :
    (es : List DependencyEvaluation) → All (λ e. e ≢ waiting) es → all is_settled es ≡ true
all_settled_lem [] h = refl
all_settled_lem (waiting ∷ es) h = absurd (h.0 refl)
all_settled_lem (satisfied ∷ es) h = all_settled_lem es h.1
all_settled_lem (impossible ∷ es) h = all_settled_lem es h.1

none_satisfied :
    (es : List DependencyEvaluation)
    → All (λ e. e ≢ waiting) es
    → any is_satisfied es ≡ false
    → all is_impossible es ≡ true
none_satisfied [] h k = refl
none_satisfied (waiting ∷ es) h k = absurd (h.0 refl)
none_satisfied (satisfied ∷ es) h k = cc
none_satisfied (impossible ∷ es) h k = none_satisfied es h.1 k

none_impossible :
    (es : List DependencyEvaluation)
    → All (λ e. e ≢ waiting) es
    → any is_impossible es ≡ false
    → all is_satisfied es ≡ true
none_impossible [] h k = refl
none_impossible (waiting ∷ es) h k = absurd (h.0 refl)
none_impossible (satisfied ∷ es) h k = none_impossible es h.1 k
none_impossible (impossible ∷ es) h k = cc

join_decides :
    (policy : JoinPolicy) (es : List DependencyEvaluation)
    → All (λ e. e ≢ waiting) es
    → (join policy es).decision ≢ wait
join_decides all_settled es h w = ground (arith, rw (all_settled_lem es h) at w)
join_decides any_required es h w = elim (Bool-cases (any is_satisfied es)) [
  | inl one ↦ ground (arith, rw one at w)
  | inr not_one ↦ ground (arith, rw (not_one, none_satisfied es h not_one) at w)
]
join_decides all_required es h w = elim (Bool-cases (any is_impossible es)) [
  | inl one ↦ ground (arith, rw one at w)
  | inr not_one ↦ ground (arith, rw (not_one, none_impossible es h not_one) at w)
]

-- No invocation waits for ever: when the sources of all its dependencies are known and terminal, it
-- is decided whether it runs or is skipped.
pub decide_dependency_readiness_decides :
    (policy : JoinPolicy) (incoming : List InvocationDependency) (states : SourceStates)
    → AllTerminal states incoming
    → (decide_dependency_readiness policy incoming states).decision ≢ wait
unfolding decide_dependency_readiness decide_join
decide_dependency_readiness_decides policy [] states h w = cc
decide_dependency_readiness_decides policy (d ∷ ds) states h w =
    join_decides policy (map (evaluate states) (d ∷ ds)) (evaluate_settled states (d ∷ ds) h) w
