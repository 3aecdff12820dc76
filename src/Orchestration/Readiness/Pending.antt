-- ===== src/Orchestration/Readiness/Pending.antt =====
-- Which invocations are decided on.
use vimla_ai.Common.{ℕ, ◌≡◌, inl, inr, true, List, [], ◌∷◌, All, ◌==◌, Bool-cases}
use vimla_ai.Orchestration.Readiness.{
  Invocation, InvocationDependency, InvocationReadinessResult, SourceStates, is_pending, set_result,
  pending_transitions, compute_pending_invocation_transitions,
}

abbrev pub IsPendingEntry : SourceStates → ℕ × InvocationReadinessResult → Type 0
IsPendingEntry states entry = is_pending (states entry.0) ≡ true

IsPendingEntry-set_result :
    (states : SourceStates) (id : ℕ) (result : InvocationReadinessResult)
    (entries : List (ℕ × InvocationReadinessResult))
    → is_pending (states id) ≡ true
    → All (IsPendingEntry states) entries
    → All (IsPendingEntry states) (set_result id result entries)
unfolding set_result
IsPendingEntry-set_result states id result [] p h = (p, tt)
IsPendingEntry-set_result states id result (entry ∷ entries) p h =
    elim (Bool-cases (entry.0 == id)) [
      | inl same ↦ rw same (p, h.1)
      | inr other ↦ rw other (h.0, IsPendingEntry-set_result states id result entries p h.1)
    ]

pending_transitions-IsPendingEntry :
    (invocations : List Invocation) (dependencies : List InvocationDependency)
    (states : SourceStates) (results : List (ℕ × InvocationReadinessResult))
    → All (IsPendingEntry states) results
    → All (IsPendingEntry states) (pending_transitions invocations dependencies states results)
unfolding pending_transitions
pending_transitions-IsPendingEntry [] dependencies states results h = h
pending_transitions-IsPendingEntry (i ∷ later) dependencies states results h =
    pending_transitions-IsPendingEntry later dependencies states _
      (elim (Bool-cases (is_pending (states i.id))) [
        | inl waits ↦ rw waits (IsPendingEntry-set_result states i.id _ results waits h)
        | inr started ↦ rw started h
      ])

-- Only invocations that are pending, or of which nothing is known, are given a transition: one that
-- has started, waits for an approval or has ended is never decided on again.
pub compute_pending_invocation_transitions-IsPendingEntry :
    (invocations : List Invocation) (dependencies : List InvocationDependency)
    (states : SourceStates)
    → All
        (IsPendingEntry states)
        (compute_pending_invocation_transitions invocations dependencies states)
unfolding compute_pending_invocation_transitions
compute_pending_invocation_transitions-IsPendingEntry invocations dependencies states =
    pending_transitions-IsPendingEntry invocations dependencies states [] tt
