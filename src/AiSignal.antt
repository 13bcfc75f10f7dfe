-- ===== src/AiSignal.antt =====
-- services/ai_signal: the consumers of events and the calls of language models.
pub mod ConsumerLoop
pub mod RouteHealth
pub mod Fallback
pub mod Outbox
pub mod Cache
pub mod Moves
pub mod SignalWorker
