-- ===== src/Orchestration.antt =====
-- packages/orchestration: the invocations of an execution plan.
pub mod Readiness
pub mod Plan
pub mod Ordering
pub mod PlanChecks
pub mod Evaluators
pub mod Graph
