-- ===== src/ContextStore.antt =====
-- The context store of crates/context-store/src.
pub mod Entries
pub mod Store
pub mod Calls
pub mod Expiry
pub mod Recovery
