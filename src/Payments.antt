-- ===== src/Payments.antt =====
-- Payments: the tables that the adapters share, the ledger, the payment operations, the outbox, the
-- payment repositories and the reconciler.
pub mod Database
pub mod Ledger
pub mod Operations
pub mod Outbox
pub mod Repository
pub mod Reconciliation
