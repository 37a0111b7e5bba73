-- ===== src/Gateway.antt =====
-- services/api-gateway/ancora_api: the Idempotency-Key middleware, and the checks of the chaos
-- experiments.
pub mod Idempotency
pub mod ChaosInvariants
pub mod History
pub mod Ticks
pub mod Graph
pub mod Recovery
