-- ===== src/Api.antt =====
-- frontend/services/api.js, the services layer: `createApi` over a data source and an app store.
pub mod Types
pub mod Actions
pub mod Weeks
pub mod Snapshot
pub mod Table
pub mod Explain
pub mod Bootstrap
pub mod Evaluate
pub mod Digest
pub mod Standing
pub mod Writes
pub mod Access
pub mod Load
pub mod Contract
pub mod Interleave
pub mod Create
