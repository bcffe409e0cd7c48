-- ===== src/Gateway.antt =====
-- The api-gateway.
pub mod RateLimit
