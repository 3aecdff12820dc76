-- ===== src/Orchestration/PlanChecks/Indexed.antt =====
-- What the checks of the invocations and dependencies leave behind.
use mathlib.Core.List.{append-nil, append_assoc}
use vimla_ai.Common.{
  ℕ, ◌≡◌, refl, sym, ap, ◌∙◌, true, false, List, [], ◌∷◌, ◌++◌, map, All, arith, inl, inr,
}
use vimla_ai.Billing.Result.{ok, for_each, >>=-returns, Result-cases}
use vimla_ai.Orchestration.Plan.{contains, Invocation, InvocationDependency}
use vimla_ai.Orchestration.Ordering.Relaxing.{IsUnique, IsUnique-snoc}
use vimla_ai.Orchestration.PlanChecks.{
  IndexedInvocation, is_some, find_indexed, unique_outputs, add_invocation, index_invocations,
  CheckedDependencies, check_dependency,
}

abbrev pub indexed_ids : List IndexedInvocation → List ℕ
indexed_ids xs = map (λ x. x.invocation.id) xs

find_indexed-ids :
    (v : ℕ) (xs : List IndexedInvocation)
    → is_some (find_indexed v xs) ≡ contains v (indexed_ids xs)
find_indexed-ids v [] = refl
find_indexed-ids v (x ∷ xs) = ground (arith, find_indexed-ids v xs)

indexed_ids-snoc :
    (xs : List IndexedInvocation) (x : IndexedInvocation)
    → indexed_ids (xs ++ x ∷ []) ≡ indexed_ids xs ++ x.invocation.id ∷ []
indexed_ids-snoc [] x = refl
indexed_ids-snoc (y ∷ xs) x = ap (λ l. y.invocation.id ∷ l) (indexed_ids-snoc xs x)

add_invocation-ids :
    (i : Invocation) (seen next : List IndexedInvocation)
    → add_invocation i seen ≡ ok next
    → (indexed_ids next ≡ indexed_ids seen ++ i.id ∷ [])
      × (contains i.id (indexed_ids seen) ≡ false)
unfolding add_invocation
add_invocation-ids i seen next h = elim (Result-cases (unique_outputs i)) [
  | inl (output_map, e) ↦
      let indexed : IndexedInvocation = record { invocation = i; output_map = output_map } in
      let same : next ≡ seen ++ indexed ∷ [] = ground arith in
      (
        ap indexed_ids same ∙ indexed_ids-snoc seen indexed,
        ground (arith, find_indexed-ids i.id seen),
      )
  | inr (e, thrown) ↦ absurd (ground arith)
]

index_from-ids :
    (is : List Invocation) (seen out : List IndexedInvocation)
    → for_each add_invocation is seen ≡ ok out
    → IsUnique (indexed_ids seen)
    → (indexed_ids out ≡ indexed_ids seen ++ map (λ i. i.id) is) × IsUnique (indexed_ids out)
unfolding for_each
index_from-ids [] seen out h u =
    let same : seen ≡ out = ground arith in rw (← same) (sym (append-nil (indexed_ids seen)), u)
index_from-ids (i ∷ is) seen out h u =
    let (mid, first, later) = >>=-returns (add_invocation i seen) (for_each add_invocation is) h in
    let (ids, new) = add_invocation-ids i seen mid first in
    let (all_ids, unique) =
      index_from-ids is mid out later (rw ids (IsUnique-snoc (indexed_ids seen) i.id u new)) in
    (all_ids ∙ ap (λ l. l ++ map (λ j. j.id) is) ids ∙ append_assoc (indexed_ids seen) _ _, unique)

pub index_invocations-ids :
    (is : List Invocation) (out : List IndexedInvocation)
    → index_invocations is ≡ ok out
    → (indexed_ids out ≡ map (λ i. i.id) is) × IsUnique (map (λ i. i.id) is)
unfolding index_invocations
index_invocations-ids is out h =
    let (ids, unique) = index_from-ids is [] out h tt in (ids, rw ids at unique)

-- The ends of a dependency are ids of invocations.
abbrev pub HasEnds : List ℕ → InvocationDependency → Type 0
HasEnds ids d =
    (contains d.from_invocation_id ids ≡ true) × (contains d.to_invocation_id ids ≡ true)

module _ (by_id : List IndexedInvocation) where
  check_dependency-ends :
      (d : InvocationDependency) (s s' : CheckedDependencies)
      → check_dependency by_id d s ≡ ok s'
      → (s'.accepted ≡ s.accepted ++ d ∷ []) × HasEnds (indexed_ids by_id) d
  unfolding check_dependency
  check_dependency-ends d s s' h =
      let from = find_indexed-ids d.from_invocation_id by_id in
      let to = find_indexed-ids d.to_invocation_id by_id in
      (ground arith, (ground arith, ground arith))

  pub check_dependencies-ends :
      (ds : List InvocationDependency) (s s' : CheckedDependencies)
      → for_each (check_dependency by_id) ds s ≡ ok s'
      → (s'.accepted ≡ s.accepted ++ ds) × All (HasEnds (indexed_ids by_id)) ds
  unfolding for_each
  check_dependencies-ends [] s s' h = (ground (arith, append-nil s.accepted), tt)
  check_dependencies-ends (d ∷ ds) s s' h =
      let (mid, first, later) =
        >>=-returns (check_dependency by_id d s) (for_each (check_dependency by_id) ds) h in
      let (one, ends) = check_dependency-ends d s mid first in
      let (more, all_ends) = check_dependencies-ends ds mid s' later in
      (more ∙ ap (λ l. l ++ ds) one ∙ append_assoc s.accepted _ _, (ends, all_ends))
