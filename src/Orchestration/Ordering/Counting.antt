-- ===== src/Orchestration/Ordering/Counting.antt =====
-- Counting the dependencies that are still to be met.
use vimla_ai.Common.{
  ℕ, ◌+◌, ◌≤◌, ◌≡◌, refl, Bool, false, not, ◌&&◌, ◌||◌, List, [], ◌∷◌, ◌++◌, length, ◌==◌,
  if◌then◌else◌, arith, Bool-cases, inl, inr,
}
use vimla_ai.Billing.Tables.{filter_rows}
use vimla_ai.Orchestration.Plan.{InvocationDependency, contains}
use vimla_ai.Orchestration.Ordering.{incoming, outgoing}

abbrev pub one_if : Bool → ℕ
one_if b = if b then 1 else 0

-- How many of the dependencies of `v` have a source outside `done`.
abbrev pub remaining : List ℕ → List InvocationDependency → ℕ → ℕ
remaining done [] v = 0
remaining done (d ∷ ds) v =
    one_if (d.to_invocation_id == v && not (contains d.from_invocation_id done))
    + remaining done ds v

abbrev pub count_to : ℕ → List InvocationDependency → ℕ
count_to v [] = 0
count_to v (d ∷ ds) = one_if (d.to_invocation_id == v) + count_to v ds

pub contains-append :
    (x : ℕ) (xs ys : List ℕ) → contains x (xs ++ ys) ≡ (contains x xs || contains x ys)
contains-append x [] ys = refl
contains-append x (z ∷ xs) ys = ground (arith, contains-append x xs ys)

pub length-incoming :
    (ds : List InvocationDependency) (v : ℕ) → length (incoming ds v) ≡ count_to v ds
unfolding incoming filter_rows
length-incoming [] v = refl
length-incoming (d ∷ ds) v = ground (arith, length-incoming ds v)

pub remaining-nil : (ds : List InvocationDependency) (v : ℕ) → remaining [] ds v ≡ count_to v ds
remaining-nil [] v = refl
remaining-nil (d ∷ ds) v = ground (arith, remaining-nil ds v)

-- What a visited invocation is the source of is no longer to be met.
pub remaining-visited :
    (done : List ℕ) (id : ℕ) (ds : List InvocationDependency) (v : ℕ)
    → contains id done ≡ false
    → remaining (done ++ id ∷ []) ds v + count_to v (outgoing ds id) ≡ remaining done ds v
unfolding outgoing filter_rows
remaining-visited done id [] v h = refl
remaining-visited done id (d ∷ ds) v h =
    let rest = remaining-visited done id ds v h in
    let split = contains-append d.from_invocation_id done (id ∷ []) in
    elim (Bool-cases (d.from_invocation_id == id)) [
      | inl same ↦ ground (arith, rest)
      | inr other ↦ ground (arith, rest)
    ]

pub remaining-more :
    (done more : List ℕ) (ds : List InvocationDependency) (v : ℕ)
    → remaining (done ++ more) ds v ≤ remaining done ds v
remaining-more done more [] v = ground arith
remaining-more done more (d ∷ ds) v =
    let rest = remaining-more done more ds v in
    let split = contains-append d.from_invocation_id done more in ground (arith, rest)
