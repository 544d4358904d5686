-- ===== src/Serialization/BatchRoundTrip.antt =====
-- serialize_batch and deserialize_record, one after the other.
use kafka_fdb_streamline.Common.{
  ℕ, suc, ◌+◌, ◌≤◌, true, false, Option, none, some, List, [], ◌∷◌, map, ◌≡◌, refl, ap, ◌∙◌, arith,
  is_empty, length, pos, All,
}
use kafka_fdb_streamline.Errors.{Field, record_decode, malformed_wire}
use kafka_fdb_streamline.Serialization.Checked.{valid, invalid, ◌>>=◌}
use kafka_fdb_streamline.Serialization.Model.{
  Text, Bytes, Value, Mutation, RecordBody, max_version, max_sequence_no, max_bridge_timestamp_ns,
  as_native,
}
use kafka_fdb_streamline.Serialization.Message.{RecordArm, FdbMutationRecord, Protobuf}
use kafka_fdb_streamline.Serialization.Checks
use kafka_fdb_streamline.Serialization.Wire.{record_message, record_bytes, mutation_messages}
use kafka_fdb_streamline.Serialization.Serializer.{serialize_batch}
use kafka_fdb_streamline.Serialization.Deserializer.{
  decode_message, decode_body, deserialize_record,
}
use kafka_fdb_streamline.Serialization.RoundTrip.{
  IsNumbered, HasTypeCode, native_of, integer-valid, natives-valid, decode_batch-mutation_messages,
  read-timestamp, envelope-valid,
}

-- A batch that the wire can carry: not empty, each type code a byte, each version index within its bounds.
pub record IsBatch (version first : ℕ) (ms : List Mutation) : Type 0 where
  pub nonempty : is_empty ms ≡ false
  pub codes : All HasTypeCode ms
  pub version_fits : version ≤ max_version
  pub sequence_fits : first + length ms ≤ suc max_sequence_no
  pub numbered : IsNumbered version first ms

pub record IsEnvelope (name : Text) (t : ℕ) : Type 0 where
  pub named : is_empty name ≡ false
  pub encodes : Checks.encodes_as_utf8 name ≡ true
  pub in_time : t ≤ max_bridge_timestamp_ns

first-fits :
    (first : ℕ) (ms : List Mutation)
    → is_empty ms ≡ false
    → first + length ms ≤ suc max_sequence_no
    → first ≤ max_sequence_no
first-fits first [] some_ms room = cc some_ms
first-fits first (m ∷ ms) some_ms room = omega arith

map-nonempty : (ms : List Mutation) → is_empty ms ≡ false → is_empty (map native_of ms) ≡ false
map-nonempty [] h = h
map-nonempty (m ∷ ms) h = refl

pub deserialize-parsed :
    (pb : Protobuf) {content : Bytes} {message : FdbMutationRecord}
    → pb.parse content ≡ some message
    → deserialize_record pb (Value.bytes content) ≡ decode_message message
unfolding deserialize_record
deserialize-parsed pb parsed =
    ap
      (λ (reading : Option FdbMutationRecord).
        (elim reading [
          | none ↦ invalid (record_decode malformed_wire none)
          | some message ↦ valid message
        ])
        >>= decode_message)
      parsed

module _ (pb : Protobuf) (version first : ℕ) (ms : List Mutation) (name : Text) (t : ℕ)
    (batch : IsBatch version first ms) (envelope : IsEnvelope name t) where
  serialize_batch-valid :
      serialize_batch pb
        (some (map as_native ms))
        (Value.int (pos version))
        (Value.int (pos first))
        (Value.str name)
        (Value.int (pos t))
      ≡ valid (
          record_bytes pb name t
            (some (RecordArm.batch (mutation_messages (map native_of ms) version first))))
  unfolding serialize_batch Checks.fdb_version Checks.sequence_no Checks.natives
  serialize_batch-valid = rw (
    integer-valid version Field.fdb_version max_version none batch.version_fits,
    integer-valid first Field.first_sequence_no max_sequence_no none
        (first-fits first ms batch.nonempty batch.sequence_fits),
    envelope-valid name t envelope.named envelope.encodes envelope.in_time,
    natives-valid ms first 0 batch.codes (omega (arith, batch.sequence_fits)),
    map-nonempty ms batch.nonempty,
  )

  decode-record_message :
      decode_message (
        record_message name t
          (some (RecordArm.batch (mutation_messages (map native_of ms) version first))))
      ≡ valid (record {
        stream_name = name;
        bridge_timestamp_ns = some (pos t);
        body = RecordBody.batch ms;
      })
  unfolding decode_message decode_body record_message
  decode-record_message = rw (
    decode_batch-mutation_messages ms version first batch.nonempty batch.codes batch.version_fits
        batch.numbered,
    read-timestamp t,
  )

-- The message of such a batch.
abbrev pub batch_message : ℕ → ℕ → List Mutation → Text → ℕ → FdbMutationRecord
batch_message version first ms name t =
    record_message name t
      (some (RecordArm.batch (mutation_messages (map native_of ms) version first)))

-- A batch of mutations that the wire can carry, serialized under a stream name and a timestamp and
-- decoded again, comes back as it was, if the protobuf runtime parses the message that it wrote.
pub deserialize_record-serialize_batch :
    (pb : Protobuf) (version first : ℕ) (ms : List Mutation) (name : Text) (t : ℕ)
    → pb.parse (pb.serialize (batch_message version first ms name t))
      ≡ some (batch_message version first ms name t)
    → IsBatch version first ms
    → IsEnvelope name t
    → (serialize_batch pb
          (some (map as_native ms))
          (Value.int (pos version))
          (Value.int (pos first))
          (Value.str name)
          (Value.int (pos t))
        >>= λ content. deserialize_record pb (Value.bytes content))
      ≡ valid (record {
        stream_name = name;
        bridge_timestamp_ns = some (pos t);
        body = RecordBody.batch ms;
      })
unfolding record_bytes
deserialize_record-serialize_batch pb version first ms name t law batch envelope =
    ap (λ written. written >>= λ content. deserialize_record pb (Value.bytes content))
      (serialize_batch-valid pb version first ms name t batch envelope)
    ∙ deserialize-parsed pb law
    ∙ decode-record_message pb version first ms name t batch envelope
