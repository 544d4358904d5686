-- ===== src/Cdc.antt =====
-- The package src/fdb_kafka_bridge/cdc.
pub mod Client
pub mod Construct
pub mod KeyRange
pub mod Listener
