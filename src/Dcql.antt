-- ===== src/Dcql.antt =====
-- internal/wallet/dcql.go: matching stored credentials against a DCQL query (OID4VP 1.0 §6).
pub mod Value
pub mod Path
pub mod Selector
pub mod Claims
pub mod Meta
pub mod Trust
pub mod Match
pub mod Order
pub mod Batch
pub mod Sets
pub mod Findings
pub mod Options
pub mod Evaluate
pub mod Examples
mod Tests
