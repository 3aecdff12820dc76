-- ===== src/Tests.antt =====
-- Concrete runs, and the properties at concrete inputs.
mod Usage
mod Amounts
mod Payments
mod Estimates
mod Readiness
mod Entitlements
mod Lease
mod Plans
mod Granting
mod Blocks
mod Budgets
mod Serving
mod Messages
