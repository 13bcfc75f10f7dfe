-- ===== src/KisIngestion.antt =====
-- services/kis_ingestion: the intake of ticks from the broker's WebSocket.
pub mod Pool
pub mod Connection
pub mod RateLimiter
pub mod Tokens
pub mod Parser
pub mod MarketSession
pub mod News
