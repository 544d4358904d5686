-- ===== src/Serialization/Message.antt =====
-- The messages of protobuf/proto/fdbkafka/cdc/v1/mutations.proto as values, with field presence, and
-- the protobuf runtime as a parameter: it writes a message to bytes, reads bytes, and gives the size of
-- a mutation message.
use kafka_fdb_streamline.Common.{ℕ, Option, List, ℤ}
use kafka_fdb_streamline.Serialization.Model.{Text, Bytes}

-- google.protobuf.Timestamp
pub record Timestamp : Type 0 where
  pub seconds : ℤ
  pub nanos : ℤ

pub record FdbVersionIndex : Type 0 where
  pub fdb_version : ℕ
  pub sequence_no : ℕ

-- The oneof `mutation`: FDBSingleKeyMutation (key, value, mutation_type) or FDBClearRange.
pub data MutationArm : Type 0 where
  single_key_mutation : Bytes → Bytes → ℤ → MutationArm
  clear_range : Bytes → Bytes → MutationArm

pub record FdbMutation : Type 0 where
  pub version_index : Option FdbVersionIndex
  pub mutation : Option MutationArm

pub record VersionEndMessage : Type 0 where
  pub fdb_version : ℕ
  pub total_mutations : ℕ
  pub bridge_timestamp : Option Timestamp

-- The oneof `record`; a batch is its repeated field `mutations`.
pub data RecordArm : Type 0 where
  mutation : FdbMutation → RecordArm
  version_end : VersionEndMessage → RecordArm
  batch : List FdbMutation → RecordArm

pub record FdbMutationRecord : Type 0 where
  pub stream_name : Text
  pub bridge_timestamp : Option Timestamp
  pub record_arm : Option RecordArm

-- The protobuf runtime. `parse` gives `none` where ParseFromString raises.
pub record Protobuf : Type 0 where
  pub serialize : FdbMutationRecord → Bytes
  pub parse : Bytes → Option FdbMutationRecord
  pub byte_size : FdbMutation → ℕ
