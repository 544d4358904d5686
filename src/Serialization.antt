-- ===== src/Serialization.antt =====
-- The package src/fdb_kafka_bridge/serialization.
pub mod Checked
pub mod Model
pub mod Message
pub mod Checks
pub mod Wire
pub mod Serializer
pub mod VersionGroup
pub mod Deserializer
pub mod RoundTrip
pub mod BatchRoundTrip
pub mod RecordRoundTrip
pub mod Decoded
