-- ===== src/Serialization/RecordRoundTrip.antt =====
-- serialize_mutation and serialize_version_end, each followed by deserialize_record.
use kafka_fdb_streamline.Common.{ℕ, ◌≤◌, none, some, ◌≡◌, refl, ap, ◌∙◌, pos}
use kafka_fdb_streamline.Errors.{Field}
use kafka_fdb_streamline.Serialization.Checked.{valid, ◌>>=◌}
use kafka_fdb_streamline.Serialization.Model.{
  Text, Value, Mutation, RecordBody, max_version, max_sequence_no, max_total_mutations, as_native,
}
use kafka_fdb_streamline.Serialization.Message.{RecordArm, FdbMutationRecord, Protobuf}
use kafka_fdb_streamline.Serialization.Checks
use kafka_fdb_streamline.Serialization.Wire.{
  timestamp, record_message, record_bytes, mutation_message,
}
use kafka_fdb_streamline.Serialization.Serializer.{serialize_mutation, serialize_version_end}
use kafka_fdb_streamline.Serialization.Deserializer.{
  check_version, decode_message, decode_body, deserialize_record,
}
use kafka_fdb_streamline.Serialization.RoundTrip.{
  HasTypeCode, native_of, ltb-false, integer-valid, native-valid, decode_mutation-mutation_message,
  read-timestamp, envelope-valid,
}
use kafka_fdb_streamline.Serialization.BatchRoundTrip.{IsEnvelope, deserialize-parsed}

-- A mutation that the wire can carry: its type code is a byte, and its version index is within bounds.
pub record IsWireMutation (m : Mutation) : Type 0 where
  pub code_fits : HasTypeCode m
  pub version_fits : m.version_index.fdb_version ≤ max_version
  pub sequence_fits : m.version_index.sequence_no ≤ max_sequence_no

-- The messages that the serializers write.
abbrev pub mutation_record : Mutation → Text → ℕ → FdbMutationRecord
mutation_record m name t = record_message name t (
    some (
      RecordArm.mutation
        (mutation_message (native_of m) m.version_index.fdb_version m.version_index.sequence_no)))

abbrev pub version_end_record : ℕ → ℕ → Text → ℕ → FdbMutationRecord
version_end_record version total name t = record_message name t (
    some (
      RecordArm.version_end (record {
        fdb_version = version;
        total_mutations = total;
        bridge_timestamp = some (timestamp t);
      })))

module _ (pb : Protobuf) (name : Text) (t : ℕ) (envelope : IsEnvelope name t) where
  serialize_mutation-valid :
      (m : Mutation)
      → IsWireMutation m
      → serialize_mutation pb
          (as_native m)
          (Value.int (pos m.version_index.fdb_version))
          (Value.int (pos m.version_index.sequence_no))
          (Value.str name)
          (Value.int (pos t))
        ≡ valid (pb.serialize (mutation_record m name t))
  unfolding serialize_mutation record_bytes Checks.fdb_version Checks.sequence_no
  serialize_mutation-valid m on_wire = rw (
    integer-valid m.version_index.fdb_version Field.fdb_version max_version none
        on_wire.version_fits,
    integer-valid m.version_index.sequence_no Field.sequence_no max_sequence_no none
        on_wire.sequence_fits,
    envelope-valid name t envelope.named envelope.encodes envelope.in_time,
    native-valid m none on_wire.code_fits,
  )

  serialize_version_end-valid :
      (version total : ℕ)
      → version ≤ max_version
      → total ≤ max_total_mutations
      → serialize_version_end pb
          (Value.int (pos version))
          (Value.int (pos total))
          (Value.str name)
          (Value.int (pos t))
        ≡ valid (pb.serialize (version_end_record version total name t))
  unfolding serialize_version_end record_bytes Checks.fdb_version Checks.total_mutations
  serialize_version_end-valid version total version_fits total_fits = rw (
    integer-valid version Field.fdb_version max_version none version_fits,
    integer-valid total Field.total_mutations max_total_mutations none total_fits,
    envelope-valid name t envelope.named envelope.encodes envelope.in_time,
  )

decode-mutation_record :
    (m : Mutation) (name : Text) (t : ℕ)
    → IsWireMutation m
    → decode_message (mutation_record m name t)
      ≡ valid (record {
        stream_name = name;
        bridge_timestamp_ns = some (pos t);
        body = RecordBody.mutation m;
      })
unfolding decode_message decode_body record_message
decode-mutation_record m name t on_wire = rw (
  decode_mutation-mutation_message m m.version_index.fdb_version m.version_index.sequence_no none
      on_wire.code_fits on_wire.version_fits refl,
  read-timestamp t,
)

decode-version_end_record :
    (version total : ℕ) (name : Text) (t : ℕ)
    → version ≤ max_version
    → decode_message (version_end_record version total name t)
      ≡ valid (record {
        stream_name = name;
        bridge_timestamp_ns = some (pos t);
        body = RecordBody.version_end (record {
          fdb_version = version;
          total_mutations = total;
          bridge_timestamp_ns = some (pos t);
        });
      })
unfolding decode_message decode_body record_message check_version
decode-version_end_record version total name t version_fits =
    rw (ltb-false max_version version version_fits, read-timestamp t)

-- A mutation that the wire can carry, serialized on its own under a stream name and a timestamp and
-- decoded again, comes back as it was, if the protobuf runtime parses the message that it wrote.
pub deserialize_record-serialize_mutation :
    (pb : Protobuf) (m : Mutation) (name : Text) (t : ℕ)
    → pb.parse (pb.serialize (mutation_record m name t)) ≡ some (mutation_record m name t)
    → IsWireMutation m
    → IsEnvelope name t
    → (serialize_mutation pb
          (as_native m)
          (Value.int (pos m.version_index.fdb_version))
          (Value.int (pos m.version_index.sequence_no))
          (Value.str name)
          (Value.int (pos t))
        >>= λ content. deserialize_record pb (Value.bytes content))
      ≡ valid (record {
        stream_name = name;
        bridge_timestamp_ns = some (pos t);
        body = RecordBody.mutation m;
      })
deserialize_record-serialize_mutation pb m name t law on_wire envelope =
    ap (λ written. written >>= λ content. deserialize_record pb (Value.bytes content))
      (serialize_mutation-valid pb name t envelope m on_wire)
    ∙ deserialize-parsed pb law
    ∙ decode-mutation_record m name t on_wire

-- A version end within the wire's bounds, serialized and decoded again, comes back as it was, its own
-- timestamp that of the record, if the protobuf runtime parses the message that it wrote.
pub deserialize_record-serialize_version_end :
    (pb : Protobuf) (version total : ℕ) (name : Text) (t : ℕ)
    → pb.parse (pb.serialize (version_end_record version total name t))
      ≡ some (version_end_record version total name t)
    → version ≤ max_version
    → total ≤ max_total_mutations
    → IsEnvelope name t
    → (serialize_version_end pb
          (Value.int (pos version))
          (Value.int (pos total))
          (Value.str name)
          (Value.int (pos t))
        >>= λ content. deserialize_record pb (Value.bytes content))
      ≡ valid (record {
        stream_name = name;
        bridge_timestamp_ns = some (pos t);
        body = RecordBody.version_end (record {
          fdb_version = version;
          total_mutations = total;
          bridge_timestamp_ns = some (pos t);
        });
      })
deserialize_record-serialize_version_end pb version total name t law version_fits total_fits
      envelope =
    ap (λ written. written >>= λ content. deserialize_record pb (Value.bytes content))
      (serialize_version_end-valid pb name t envelope version total version_fits total_fits)
    ∙ deserialize-parsed pb law
    ∙ decode-version_end_record version total name t version_fits
