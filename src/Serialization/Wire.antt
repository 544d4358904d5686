-- ===== src/Serialization/Wire.antt =====
-- serialization/_wire.py: messages built from checked inputs.
use kafka_fdb_streamline.Common.{
  ℕ, ◌+◌, ◌/◌, ◌%◌, Option, some, List, [], ◌∷◌, pos, ◌==◌, if◌then◌else◌,
}
use kafka_fdb_streamline.Serialization.Model.{Text, Bytes, Native, MutationType, code}
use kafka_fdb_streamline.Serialization.Message.{
  Timestamp, FdbMutation, MutationArm, RecordArm, FdbMutationRecord, Protobuf,
}

-- `divmod` by 10 ** 9 of a number that is not negative.
unfoldable pub timestamp : ℕ → Timestamp
timestamp bridge_timestamp_ns = record {
  seconds = pos (bridge_timestamp_ns / 1000000000);
  nanos = pos (bridge_timestamp_ns % 1000000000);
}

-- The message of `record`; `body` is the keyword argument of the oneof, if any.
unfoldable pub record_message : Text → ℕ → Option RecordArm → FdbMutationRecord
unfolding timestamp
record_message stream_name bridge_timestamp_ns body = record {
  stream_name = stream_name;
  bridge_timestamp = some (timestamp bridge_timestamp_ns);
  record_arm = body;
}

-- `record`
unfoldable pub record_bytes : Protobuf → Text → ℕ → Option RecordArm → Bytes
record_bytes pb stream_name bridge_timestamp_ns body =
    pb.serialize (record_message stream_name bridge_timestamp_ns body)

unfoldable pub mutation_message : Native → ℕ → ℕ → FdbMutation
mutation_message native fdb_version sequence_no =
    if native.type_code == code MutationType.clear_range
    then record {
      version_index = some (record { fdb_version = fdb_version; sequence_no = sequence_no });
      mutation = some (MutationArm.clear_range native.param1 native.param2);
    }
    else record {
      version_index = some (record { fdb_version = fdb_version; sequence_no = sequence_no });
      mutation =
          some (MutationArm.single_key_mutation native.param1 native.param2 (pos native.type_code));
    }

-- Mutation i at version index (fdb_version, first_sequence_no + i).
unfoldable pub mutation_messages : List Native → ℕ → ℕ → List FdbMutation
mutation_messages [] fdb_version first_sequence_no = []
mutation_messages (native ∷ natives) fdb_version first_sequence_no =
    mutation_message native fdb_version first_sequence_no
    ∷ mutation_messages natives fdb_version (first_sequence_no + 1)
