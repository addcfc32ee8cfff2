-- ===== src/Breaker.antt =====
-- Circuit breakers (src/utils/circuitBreaker.ts): the plain breaker of the outbound calls in
-- `Plain`, the retrying breaker of the Stellar RPC client in `Retrying`.
pub mod Plain
pub mod Retrying
