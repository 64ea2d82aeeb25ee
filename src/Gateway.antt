-- ===== src/Gateway.antt =====
-- internal/gateway: the hub between the sessions and the agents' connections.
pub mod Bridge
pub mod Access
