-- ===== src/Orchestration/Ordering.antt =====
-- packages/orchestration/src/graph.ts: the loop of `validateExecutionPlanGraph` that orders the
-- invocations. A map is the function that looks a key up.
pub mod Counting
pub mod Relaxing
pub mod Covering
pub mod Levels
use vimla_ai.Common.{
  ℕ, zero, suc, ◌+◌, Bool, true, false, Option, none, some, List, [], ◌∷◌, ◌++◌, length, leb, ◌==◌,
  if◌then◌else◌,
}
use vimla_ai.Common.Int.{ℤ, pos, ◌-ℤ◌, eqb_ℤ}
use vimla_ai.Billing.Tables.{filter_rows}
use vimla_ai.Orchestration.Plan.{InvocationDependency}

-- `incoming.get(id)` and `outgoing.get(id)`, which are filled in the order of the dependencies.
unfoldable pub incoming : List InvocationDependency → ℕ → List InvocationDependency
incoming dependencies id = filter_rows (λ d. d.to_invocation_id == id) dependencies

unfoldable pub outgoing : List InvocationDependency → ℕ → List InvocationDependency
outgoing dependencies id = filter_rows (λ d. d.from_invocation_id == id) dependencies

abbrev pub put : {V : Type 0} → ℕ → V → (ℕ → V) → ℕ → V
put key value m k = if k == key then value else m k

abbrev pub or_zero : Option ℕ → ℕ
or_zero none = 0
or_zero (some n) = n

abbrev pub max : ℕ → ℕ → ℕ
max a b = if leb a b then b else a

-- The queue from the cursor on. A degree that is absent reads as 0, as it does in the code.
pub record Traversal : Type 0 where
  pub queue : List ℕ
  pub order : List ℕ
  pub indegree : ℕ → ℤ
  pub depth : ℕ → Option ℕ

-- One round of the inner loop.
unfoldable pub relax : ℕ → InvocationDependency → Traversal → Traversal
relax current_depth d t =
    let next = d.to_invocation_id in
    let next_degree = t.indegree next -ℤ pos 1 in
    record t {
      queue = if eqb_ℤ next_degree (pos 0) then t.queue ++ next ∷ [] else t.queue;
      indegree = put next next_degree t.indegree;
      depth = put next (some (max (or_zero (t.depth next)) (current_depth + 1))) t.depth;
    }

unfoldable pub relax_all : ℕ → List InvocationDependency → Traversal → Traversal
relax_all current_depth [] t = t
relax_all current_depth (d ∷ ds) t = relax_all current_depth ds (relax current_depth d t)

-- The body of the outer loop for the id at the cursor.
unfoldable pub visit : List InvocationDependency → ℕ → List ℕ → Traversal → Traversal
visit dependencies id rest t =
    relax_all (or_zero (t.depth id)) (outgoing dependencies id)
      (record t { queue = rest; order = t.order ++ id ∷ [] })

-- The outer loop, for at most the given number of rounds.
unfoldable pub traverse : ℕ → List InvocationDependency → Traversal → Traversal
traverse zero dependencies t = t
traverse (suc rounds) dependencies t = elim t.queue [
  | [] ↦ t
  | id ∷ rest ↦ traverse rounds dependencies (visit dependencies id rest t)
]

-- The ids of the entries with degree 0, in the order of the invocations.
abbrev pub roots : List ℕ → (ℕ → ℤ) → List ℕ
roots ids indegree = filter_rows (λ id. eqb_ℤ (indegree id) (pos 0)) ids

abbrev pub depth_of_roots : List ℕ → ℕ → Option ℕ
depth_of_roots [] id = none
depth_of_roots (root ∷ rest) id = if id == root then some 0 else depth_of_roots rest id

unfoldable pub initial_traversal : List ℕ → List InvocationDependency → Traversal
initial_traversal ids dependencies =
    let indegree = λ (id : ℕ). pos (length (incoming dependencies id)) in
    let queue = roots ids indegree in
    record { queue = queue; order = []; indegree = indegree; depth = depth_of_roots queue }

-- A round for each invocation is enough: see Covering.
unfoldable pub topological_traversal : List ℕ → List InvocationDependency → Traversal
topological_traversal ids dependencies =
    traverse (length ids) dependencies (initial_traversal ids dependencies)
