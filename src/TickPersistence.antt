-- ===== src/TickPersistence.antt =====
-- services/tick_persistence: ticks from Kafka become bronze rows, snapshots and 5-minute bars.
pub mod Bar
pub mod Aggregator
pub mod Ledger
pub mod Consumer
pub mod EventId
pub mod Handler
