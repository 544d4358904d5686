-- ===== src/Serialization/Deserializer.antt =====
-- serialization/deserializer.py: record bytes to output values.
use kafka_fdb_streamline.Common.{
  ℕ, ◌+◌, ◌&&◌, ◌||◌, not, Option, none, some, List, [], ◌∷◌, ltb, ◌==◌, if◌then◌else◌, ℤ, pos,
  pos_part, ltb_ℤ, ◌+ℤ◌, ◌*ℕ◌,
}
use kafka_fdb_streamline.Errors.{
  Field, input_type, record_decode, malformed_wire, no_record_arm, no_mutation_arm,
  missing_version_index, type_code_out_of_range, version_out_of_range, empty_batch,
  inconsistent_batch,
}
use kafka_fdb_streamline.Serialization.Checked.{Checked, valid, invalid, ◌>>=◌, ◌>>◌, refuse}
use kafka_fdb_streamline.Serialization.Model.{
  Bytes, Value, VersionIndex, Mutation, RecordBody, Record, MutationType, code, max_type_code,
  max_version,
}
use kafka_fdb_streamline.Serialization.Message.{
  Timestamp, FdbVersionIndex, FdbMutation, MutationArm, single_key_mutation, RecordArm,
  FdbMutationRecord, Protobuf,
}

-- `_check_version`
unfoldable pub check_version : ℕ → Option ℕ → Checked (Unit {0})
check_version fdb_version index =
    refuse (ltb max_version fdb_version) (record_decode version_out_of_range index)

-- `if not message.HasField("version_index"): raise`
unfoldable pub require_version_index : FdbMutation → Option ℕ → Checked FdbVersionIndex
require_version_index message index = elim message.version_index [
  | none ↦ invalid (record_decode missing_version_index index)
  | some version_index ↦ valid version_index
]

-- The oneof arm, with its payload.
unfoldable pub mutation_arm : Option MutationArm → VersionIndex → Option ℕ → Checked Mutation
mutation_arm none version_index index = invalid (record_decode no_mutation_arm index)
mutation_arm (some (MutationArm.clear_range begin_key end_key)) version_index index =
    valid (record {
      type = code MutationType.clear_range;
      param1 = begin_key;
      param2 = end_key;
      version_index = version_index;
    })
mutation_arm (some (single_key_mutation key value type_code)) version_index index =
    if ltb_ℤ type_code (pos 0) || ltb_ℤ (pos max_type_code) type_code
    then invalid (record_decode type_code_out_of_range index)
    else valid (record {
      type = pos_part type_code;
      param1 = key;
      param2 = value;
      version_index = version_index;
    })

-- `_mutation`
unfoldable pub decode_mutation : FdbMutation → Option ℕ → Checked Mutation
unfolding check_version require_version_index mutation_arm
decode_mutation message index = do
  wire_index ← require_version_index message index
  check_version wire_index.fdb_version index
  mutation_arm message.mutation
      (record { fdb_version = wire_index.fdb_version; sequence_no = wire_index.sequence_no }) index

-- The generator of `_batch`, from position `index` on.
unfoldable pub decode_mutations : List FdbMutation → ℕ → Checked (List Mutation)
decode_mutations [] index = valid []
decode_mutations (message ∷ rest) index = do
  mutation ← decode_mutation message (some index)
  others ← decode_mutations rest (index + 1)
  valid (mutation ∷ others)

-- The second loop of `_batch`: position `i` holds version index (first.fdb_version, first.sequence_no + i).
unfoldable pub check_consistent : VersionIndex → List Mutation → ℕ → Checked (Unit {0})
check_consistent first [] i = valid tt
check_consistent first (mutation ∷ rest) i = do
  refuse
      (not (
        mutation.version_index.fdb_version == first.fdb_version
        && mutation.version_index.sequence_no == first.sequence_no + i))
      (record_decode inconsistent_batch (some i))
  check_consistent first rest (i + 1)

unfoldable pub check_batch : List Mutation → Checked RecordBody
check_batch [] = invalid (record_decode empty_batch none)
check_batch (first ∷ rest) = do
  check_consistent first.version_index (first ∷ rest) 0
  valid (RecordBody.batch (first ∷ rest))

-- `_batch`
unfoldable pub decode_batch : List FdbMutation → Checked RecordBody
unfolding check_batch
decode_batch messages = do mutations ← decode_mutations messages 0; check_batch mutations

-- `_bridge_timestamp_ns`
unfoldable pub read_timestamp : Option Timestamp → Option ℤ
read_timestamp none = none
read_timestamp (some timestamp) = some (timestamp.seconds *ℕ 1000000000 +ℤ timestamp.nanos)

-- `_body`
unfoldable pub decode_body : Option RecordArm → Checked RecordBody
unfolding check_version
decode_body none = invalid (record_decode no_record_arm none)
decode_body (some (RecordArm.batch messages)) = decode_batch messages
decode_body (some (RecordArm.version_end end)) = do
  check_version end.fdb_version none
  valid (
      RecordBody.version_end (record {
        fdb_version = end.fdb_version;
        total_mutations = end.total_mutations;
        bridge_timestamp_ns = read_timestamp end.bridge_timestamp;
      }))
decode_body (some (RecordArm.mutation message)) = do
  mutation ← decode_mutation message none
  valid (RecordBody.mutation mutation)

unfoldable pub decode_message : FdbMutationRecord → Checked Record
decode_message message = do
  body ← decode_body message.record_arm
  valid (record {
    stream_name = message.stream_name;
    bridge_timestamp_ns = read_timestamp message.bridge_timestamp;
    body = body;
  })

module _ (pb : Protobuf) where
  parse_message : Bytes → Checked FdbMutationRecord
  parse_message content = elim (pb.parse content) [
    | none ↦ invalid (record_decode malformed_wire none)
    | some message ↦ valid message
  ]

  unfoldable pub deserialize_record : Value → Checked Record
  unfolding parse_message
  deserialize_record (Value.bytes content) = do
    message ← parse_message content
    decode_message message
  deserialize_record _ = invalid (input_type Field.serialized none)
