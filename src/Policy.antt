-- ===== src/Policy.antt =====
-- crates/policy-engine/src: the local engine, the policy document and the cache.
pub mod Engine
pub mod Json
pub mod Document
pub mod Cache
