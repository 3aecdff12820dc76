-- ===== src/Billing.antt =====
-- packages/billing: usage buckets, reservations, payments and their money.
pub mod Result
pub mod Money
pub mod Tables
pub mod Bucket
pub mod Allocation
pub mod Database
pub mod Engine
pub mod Payments
pub mod Retry
pub mod Fees
pub mod Tariff
pub mod Entitlements
pub mod PaymentTables
pub mod PaymentEconomics
pub mod Granting
pub mod Refunding
pub mod PaymentEvents
pub mod PaymentService
