-- ===== src/Orchestration/Ordering/Relaxing.antt =====
-- What the loops of the ordering keep.
use mathlib.Core.List.{append-nil, append_assoc}
use vimla_ai.Common.{
  ℕ, ◌+◌, ◌≡◌, refl, sym, ap, ◌∙◌, Bool, true, false, Option, List, [], ◌∷◌, ◌++◌, All, arith,
  Bool-cases, inl, inr,
}
use vimla_ai.Common.Int.{pos, ◌-ℤ◌, eqb_ℤ, eqb_ℤ→eq}
use vimla_ai.Billing.Tables.{filter_rows}
use vimla_ai.Orchestration.Plan.{InvocationDependency, contains}
use vimla_ai.Orchestration.Ordering.{Traversal, relax, relax_all, outgoing, visit, or_zero, put}
use vimla_ai.Orchestration.Ordering.Counting.{
  remaining, count_to, contains-append, remaining-visited, remaining-more,
}

abbrev pub IsUnique : List ℕ → Type 0
IsUnique [] = Unit
IsUnique (x ∷ xs) = (contains x xs ≡ false) × IsUnique xs

-- Every id of the list has its sources in `seen` or before it.
abbrev pub IsTopological : List InvocationDependency → List ℕ → List ℕ → Type 0
IsTopological ds seen [] = Unit
IsTopological ds seen (x ∷ xs) = (remaining seen ds x ≡ 0) × IsTopological ds (seen ++ x ∷ []) xs

abbrev pub started : ℕ → List ℕ → Traversal → Traversal
started id rest t = record t { queue = rest; order = t.order ++ id ∷ [] }

abbrev pub reached : Traversal → List ℕ
reached t = t.order ++ t.queue

-- The traversal when the dependencies `left` of the invocation at the cursor are still to be relaxed.
pub record IsOrderly (ids : List ℕ) (ds left : List InvocationDependency) (t : Traversal)
    : Type 0 where
  pub unique : IsUnique (reached t)
  pub known : All (λ v. contains v ids ≡ true) (reached t)
  pub met : (v : ℕ) → contains v (reached t) ≡ true → t.indegree v ≡ pos 0
  pub ready : (v : ℕ) → contains v ids ≡ true → t.indegree v ≡ pos 0 → contains v (reached t) ≡ true
  pub degree : (v : ℕ) → t.indegree v ≡ pos (remaining t.order ds v + count_to v left)
  pub forward : IsTopological ds [] (reached t)

pub IsUnique-snoc :
    (xs : List ℕ) (v : ℕ) → IsUnique xs → contains v xs ≡ false → IsUnique (xs ++ v ∷ [])
IsUnique-snoc [] v u h = (refl, tt)
IsUnique-snoc (x ∷ xs) v u h =
    let split = contains-append x xs (v ∷ []) in
    (ground arith, IsUnique-snoc xs v u.1 (ground arith))

pub All-snoc {κ} : (P : ℕ → Type κ) (xs : List ℕ) (v : ℕ) → All P xs → P v → All P (xs ++ v ∷ [])
All-snoc P [] v h p = (p, tt)
All-snoc P (x ∷ xs) v h p = (h.0, All-snoc P xs v h.1 p)

-- An id stands nowhere else in a list without repetitions.
pub IsUnique-middle :
    (xs : List ℕ) (v : ℕ) (ys : List ℕ) → IsUnique (xs ++ v ∷ ys) → contains v xs ≡ false
IsUnique-middle [] v ys u = refl
IsUnique-middle (x ∷ xs) v ys u =
    let rest = IsUnique-middle xs v ys u.1 in
    let split = contains-append x xs (v ∷ ys) in ground arith

IsTopological-snoc :
    (ds : List InvocationDependency) (seen xs : List ℕ) (v : ℕ)
    → IsTopological ds seen xs
    → remaining (seen ++ xs) ds v ≡ 0
    → IsTopological ds seen (xs ++ v ∷ [])
IsTopological-snoc ds seen [] v h r = (rw append-nil at r, tt)
IsTopological-snoc ds seen (x ∷ xs) v h r =
    (h.0, IsTopological-snoc ds (seen ++ x ∷ []) xs v h.1 (rw append_assoc r))

filter_rows-All {κ} :
    (P : InvocationDependency → Type κ) (test : InvocationDependency → Bool)
    (ds : List InvocationDependency)
    → All P ds
    → All P (filter_rows test ds)
unfolding filter_rows
filter_rows-All P test [] h = tt
filter_rows-All P test (d ∷ ds) h = elim (Bool-cases (test d)) [
  | inl e ↦ rw e (h.0, filter_rows-All P test ds h.1)
  | inr e ↦ rw e (filter_rows-All P test ds h.1)
]

pub outgoing-All {κ} :
    (P : InvocationDependency → Type κ) (ds : List InvocationDependency) (id : ℕ)
    → All P ds
    → All P (outgoing ds id)
unfolding outgoing
outgoing-All P ds id h = filter_rows-All P _ ds h

relax_all-order :
    (current : ℕ) (left : List InvocationDependency) (t : Traversal)
    → (relax_all current left t).order ≡ t.order
unfolding relax_all relax
relax_all-order current [] t = refl
relax_all-order current (d ∷ left) t = relax_all-order current left (relax current d t)

pub visit-order :
    (ds : List InvocationDependency) (id : ℕ) (rest : List ℕ) (t : Traversal)
    → (visit ds id rest t).order ≡ t.order ++ id ∷ []
unfolding visit
visit-order ds id rest t = relax_all-order _ (outgoing ds id) _

module _ (ids : List ℕ) (ds : List InvocationDependency) where
  module _ (d : InvocationDependency) (left : List InvocationDependency) (t : Traversal) where
    degree_after :
        IsOrderly ids ds (d ∷ left) t
        → (v : ℕ)
        → put d.to_invocation_id (t.indegree d.to_invocation_id -ℤ pos 1) t.indegree v
          ≡ pos (remaining t.order ds v + count_to v left)
    unfolding ◌-ℤ◌
    degree_after o v = ground (arith, o.degree v, o.degree d.to_invocation_id)

    pub not_reached :
        IsOrderly ids ds (d ∷ left) t → contains d.to_invocation_id (reached t) ≡ false
    not_reached o = elim (Bool-cases (contains d.to_invocation_id (reached t))) [
      | inl old ↦ absurd (ground (arith, o.met d.to_invocation_id old, o.degree d.to_invocation_id))
      | inr new ↦ new
    ]

    relax-kept :
        (depth : ℕ → Option ℕ)
        → eqb_ℤ (t.indegree d.to_invocation_id -ℤ pos 1) (pos 0) ≡ false
        → IsOrderly ids ds (d ∷ left) t
        → IsOrderly ids ds left (record t {
          indegree = put d.to_invocation_id (t.indegree d.to_invocation_id -ℤ pos 1) t.indegree;
          depth = depth;
        })
    relax-kept depth more o =
        let new = not_reached o in
        record {
          unique = o.unique;
          known = o.known;
          met = λ v h. ground (arith, o.met v h);
          ready = λ v m h. ground (arith, o.ready v);
          degree = degree_after o;
          forward = o.forward;
        }

    relax-pushed :
        (depth : ℕ → Option ℕ)
        → contains d.to_invocation_id ids ≡ true
        → t.indegree d.to_invocation_id -ℤ pos 1 ≡ pos 0
        → IsOrderly ids ds (d ∷ left) t
        → IsOrderly ids ds left (record t {
          queue = t.queue ++ d.to_invocation_id ∷ [];
          indegree = put d.to_invocation_id (t.indegree d.to_invocation_id -ℤ pos 1) t.indegree;
          depth = depth;
        })
    relax-pushed depth in_ids zero_left o =
        let next = d.to_invocation_id in
        let new = not_reached o in
        let same : t.order ++ (t.queue ++ next ∷ []) ≡ reached t ++ next ∷ [] =
          sym (append_assoc t.order t.queue (next ∷ [])) in
        let fewer = remaining-more t.order t.queue ds next in
        let none_left : remaining (reached t) ds next ≡ 0 =
          ground (arith, degree_after o next, fewer) in
        record {
          unique = rw same (IsUnique-snoc (reached t) next o.unique new);
          known = rw same (All-snoc _ (reached t) next o.known in_ids);
          met = λ v h.
              ground
                (arith, o.met v, ap (contains v) same, contains-append v (reached t) (next ∷ []));
          ready = λ v m h.
              ground
                (arith, o.ready v, ap (contains v) same, contains-append v (reached t) (next ∷ []));
          degree = degree_after o;
          forward = rw same (IsTopological-snoc ds [] (reached t) next o.forward none_left);
        }

  pub relax-IsOrderly :
      (current : ℕ) (d : InvocationDependency) (left : List InvocationDependency) (t : Traversal)
      → contains d.to_invocation_id ids ≡ true
      → IsOrderly ids ds (d ∷ left) t
      → IsOrderly ids ds left (relax current d t)
  unfolding relax
  relax-IsOrderly current d left t in_ids o =
      let nothing_left = eqb_ℤ (t.indegree d.to_invocation_id -ℤ pos 1) (pos 0) in
      elim (Bool-cases nothing_left) [
        | inl e ↦ rw e (relax-pushed d left t _ in_ids (eqb_ℤ→eq _ _ e) o)
        | inr e ↦ rw e (relax-kept d left t _ e o)
      ]

  relax_all-IsOrderly :
      (current : ℕ) (left : List InvocationDependency) (t : Traversal)
      → All (λ d. contains d.to_invocation_id ids ≡ true) left
      → IsOrderly ids ds left t
      → IsOrderly ids ds [] (relax_all current left t)
  unfolding relax_all
  relax_all-IsOrderly current [] t tos o = o
  relax_all-IsOrderly current (d ∷ left) t tos o =
      relax_all-IsOrderly current left (relax current d t) tos.1
        (relax-IsOrderly current d left t tos.0 o)

  -- The id at the cursor moves from the queue to the order, with its dependencies still to relax.
  pub started-IsOrderly :
      (id : ℕ) (rest : List ℕ) (t : Traversal)
      → t.queue ≡ id ∷ rest
      → IsOrderly ids ds [] t
      → IsOrderly ids ds (outgoing ds id) (started id rest t)
  started-IsOrderly id rest t q o =
      let same : (t.order ++ id ∷ []) ++ rest ≡ reached t =
        append_assoc t.order (id ∷ []) rest ∙ ap (λ q. t.order ++ q) (sym q) in
      let new : contains id t.order ≡ false = IsUnique-middle t.order id rest (rw q at o.unique) in
      record {
        unique = rw same o.unique;
        known = rw same o.known;
        met = λ v h. o.met v (rw same at h);
        ready = λ v m h. rw same (o.ready v m h);
        degree = λ v. o.degree v ∙ ap pos (omega (arith, remaining-visited t.order id ds v new));
        forward = rw same o.forward;
      }

  pub visit-IsOrderly :
      (id : ℕ) (rest : List ℕ) (t : Traversal)
      → t.queue ≡ id ∷ rest
      → All (λ d. contains d.to_invocation_id ids ≡ true) ds
      → IsOrderly ids ds [] t
      → IsOrderly ids ds [] (visit ds id rest t)
  unfolding visit
  visit-IsOrderly id rest t q tos o =
      relax_all-IsOrderly (or_zero (t.depth id)) (outgoing ds id) (started id rest t)
        (outgoing-All _ ds id tos) (started-IsOrderly id rest t q o)
