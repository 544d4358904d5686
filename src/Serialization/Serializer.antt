-- ===== src/Serialization/Serializer.antt =====
-- serialization/serializer.py
use kafka_fdb_streamline.Common.{Option, none, some, List, is_empty}
use kafka_fdb_streamline.Errors.{Field, input_value}
use kafka_fdb_streamline.Serialization.Checked.{Checked, valid, ◌>>=◌, ◌>>◌, refuse}
use kafka_fdb_streamline.Serialization.Model.{Bytes, Value, NativeMutation}
use kafka_fdb_streamline.Serialization.Message.{RecordArm, Protobuf}
use kafka_fdb_streamline.Serialization.Checks
use kafka_fdb_streamline.Serialization.Wire.{
  timestamp, record_bytes, mutation_message, mutation_messages,
}

module _ (pb : Protobuf) where
  unfoldable pub serialize_mutation : NativeMutation → Value → Value → Value → Value → Checked Bytes
  serialize_mutation mutation fdb_version sequence_no stream_name bridge_timestamp_ns = do
    version ← Checks.fdb_version fdb_version
    sequence ← Checks.sequence_no sequence_no Field.sequence_no
    (name, timestamp_ns) ← Checks.envelope stream_name bridge_timestamp_ns
    native ← Checks.native mutation none
    valid (
        record_bytes pb name timestamp_ns
          (some (RecordArm.mutation (mutation_message native version sequence))))

  unfoldable pub serialize_batch :
      Option (List NativeMutation) → Value → Value → Value → Value → Checked Bytes
  serialize_batch mutations fdb_version first_sequence_no stream_name bridge_timestamp_ns = do
    version ← Checks.fdb_version fdb_version
    first ← Checks.sequence_no first_sequence_no Field.first_sequence_no
    (name, timestamp_ns) ← Checks.envelope stream_name bridge_timestamp_ns
    natives ← Checks.natives mutations first
    refuse (is_empty natives) (input_value Field.mutations none)
    valid (
        record_bytes pb name timestamp_ns
          (some (RecordArm.batch (mutation_messages natives version first))))

  unfoldable pub serialize_version_end : Value → Value → Value → Value → Checked Bytes
  serialize_version_end fdb_version total_mutations stream_name bridge_timestamp_ns = do
    version ← Checks.fdb_version fdb_version
    total ← Checks.total_mutations total_mutations
    (name, timestamp_ns) ← Checks.envelope stream_name bridge_timestamp_ns
    valid (
        record_bytes pb name timestamp_ns (
          some (
            RecordArm.version_end (record {
              fdb_version = version;
              total_mutations = total;
              bridge_timestamp = some (timestamp timestamp_ns);
            }))))
