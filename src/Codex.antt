-- ===== src/Codex.antt =====
-- The direct Codex provider: src/sentinelx_core/direct_codex_transport.py and
-- src/sentinelx_core/direct_codex_persistence.py.
pub mod Site
pub mod Command
pub mod Journal
pub mod Program
pub mod Canonical
pub mod Inventory
pub mod Candidate
pub mod Recover
pub mod Persist
pub mod Ends
pub mod Silent
pub mod Quietly
pub mod Advance
pub mod Publishes
pub mod Phases
pub mod Once
pub mod Turns
pub mod Persisted
pub mod Reports
pub mod Own
pub mod Staging
pub mod Eligible
pub mod HeadMoved
pub mod Tests
