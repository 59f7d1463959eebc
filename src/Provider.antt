-- ===== src/Provider.antt =====
-- The Terraform provider of internal/provider: what it stores of an instance or a disk, and what its
-- handlers make of a plan, a state and Lima's answers.
pub mod Attr
pub mod Diagnostics
pub mod Models
pub mod Planned
pub mod Document
pub mod Reconcile
pub mod Refresh
pub mod Changes
pub mod Records
pub mod Instances
pub mod DiskHandlers
pub mod Validators
pub mod Config
pub mod Sources
