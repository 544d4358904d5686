-- ===== src/Kafka.antt =====
-- The package src/fdb_kafka_bridge/kafka.
pub mod Faults
pub mod Settings
pub mod Producer
