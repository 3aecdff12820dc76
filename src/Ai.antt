-- ===== src/Ai.antt =====
-- packages/ai: what a call to a model may cost.
pub mod Cost
pub mod ExecutionBudget
