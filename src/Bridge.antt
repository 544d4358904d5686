-- ===== src/Bridge.antt =====
-- The package src/fdb_kafka_bridge/bridge.
pub mod Config
pub mod Construct
pub mod CursorFile
pub mod Daemon
pub mod Pipeline
pub mod Monitor
pub mod Ledger
pub mod Sound
