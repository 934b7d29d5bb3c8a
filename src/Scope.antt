-- ===== src/Scope.antt =====
-- src/sentinelx_core/mutation_scope.py: the durable store of mutation scopes. One module holds the
-- record, one the authority file, one the store's transactions, and one each of admission,
-- runtime bindings and terminalization. The proofs stand in modules of their own.
pub mod Record
pub mod Authority
pub mod Transaction
pub mod Runtime
pub mod Admission
pub mod Terminalize
pub mod Stored
pub mod Lifecycle
pub mod Safe
pub mod Update
pub mod RuntimeSafe
pub mod Exclusive
pub mod Durable
pub mod AdmissionSafe
pub mod ProvisionSafe
pub mod TerminalizeSafe
pub mod Calls
pub mod History
pub mod Returns
pub mod Outcome
pub mod Reserved
pub mod CleanupOrder
pub mod Minted
pub mod Granted
pub mod Tests
