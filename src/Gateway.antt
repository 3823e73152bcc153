-- ===== src/Gateway.antt =====
-- gateway/: the connection to the Staykey gateway.
pub mod Protocol
pub mod Auth
pub mod Client
