-- ===== src/Store.antt =====
-- services/api/internal/postgres/store.go, and the tables of services/api/migrations.
pub mod Addresses
pub mod Available
pub mod Failures
pub mod Tables
pub mod Outbox
pub mod Deliveries
pub mod Machine
pub mod Publishing
pub mod Confirmation
pub mod Reconciler
pub mod Service
pub mod Allocation
pub mod Accounts
pub mod Opening
mod Tests
mod OutboxTests
mod TestData
mod PublishingTests
mod AllocationTests
mod OpeningTests
