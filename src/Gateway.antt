-- ===== src/Gateway.antt =====
-- crates/llm-gateway/src: the circuit breaker, the result cache and the routing of a request.
pub mod Breaker
pub mod Providers
pub mod Failover
pub mod Routing
pub mod Cache
pub mod Manager
