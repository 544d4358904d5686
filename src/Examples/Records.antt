-- ===== src/Examples/Records.antt =====
-- Records that are serialized and read back.
use kafka_fdb_streamline.Common.{some, [], ◌∷◌, map, ◌≡◌, refl, arith, pos}
use kafka_fdb_streamline.Serialization.Checked.{valid, ◌>>=◌}
use kafka_fdb_streamline.Serialization.Model.{Value, Mutation, RecordBody, as_native}
use kafka_fdb_streamline.Serialization.Message.{Protobuf}
use kafka_fdb_streamline.Serialization.Checks
use kafka_fdb_streamline.Serialization.Serializer.{serialize_batch, serialize_version_end}
use kafka_fdb_streamline.Serialization.Deserializer.{deserialize_record}
use kafka_fdb_streamline.Serialization.BatchRoundTrip.{
  batch_message, IsBatch, IsEnvelope, deserialize_record-serialize_batch,
}
use kafka_fdb_streamline.Common.Texts.{codes}
use kafka_fdb_streamline.Serialization.Serializer.{serialize_mutation, serialize_version_end}
use kafka_fdb_streamline.Serialization.RecordRoundTrip.{
  mutation_record, version_end_record, IsWireMutation, deserialize_record-serialize_mutation,
  deserialize_record-serialize_version_end,
}
use kafka_fdb_streamline.Examples.Batches.{sized, three_mutations}

-- A runtime that reads one message, whatever the bytes.
abbrev reads_three : Protobuf
reads_three = record sized { parse = λ _. some (batch_message 7 0 three_mutations (115 ∷ []) 5) }

three-IsBatch : IsBatch 7 0 three_mutations
three-IsBatch = record {
  nonempty = refl;
  codes = (omega arith, (omega arith, (omega arith, tt)));
  version_fits = omega arith;
  sequence_fits = omega arith;
  numbered = (refl, (refl, (refl, tt)));
}

stream-IsEnvelope : IsEnvelope (115 ∷ []) 5
unfolding Checks.encodes_as_utf8
stream-IsEnvelope = record { named = refl; encodes = refl; in_time = omega arith }

round_trip_example :
    (serialize_batch reads_three
        (some (map as_native three_mutations))
        (Value.int (pos 7))
        (Value.int (pos 0))
        (Value.str (115 ∷ []))
        (Value.int (pos 5))
      >>= λ content. deserialize_record reads_three (Value.bytes content))
    ≡ valid (record {
      stream_name = 115 ∷ [];
      bridge_timestamp_ns = some (pos 5);
      body = RecordBody.batch three_mutations;
    })
round_trip_example =
    deserialize_record-serialize_batch reads_three 7 0 three_mutations (115 ∷ []) 5 refl
      three-IsBatch stream-IsEnvelope

-- A clear of the keys from "a" to "b".
abbrev cleared : Mutation
cleared = record {
  type = 1;
  param1 = codes "a";
  param2 = codes "b";
  version_index = record { fdb_version = 7; sequence_no = 3 };
}

abbrev reads_cleared : Protobuf
reads_cleared = record sized { parse = λ _. some (mutation_record cleared (115 ∷ []) 5) }

cleared-IsWireMutation : IsWireMutation cleared
cleared-IsWireMutation = record {
  code_fits = omega arith;
  version_fits = omega arith;
  sequence_fits = omega arith;
}

serialize_mutation_example :
    (serialize_mutation reads_cleared
        (as_native cleared)
        (Value.int (pos 7))
        (Value.int (pos 3))
        (Value.str (115 ∷ []))
        (Value.int (pos 5))
      >>= λ content. deserialize_record reads_cleared (Value.bytes content))
    ≡ valid (record {
      stream_name = 115 ∷ [];
      bridge_timestamp_ns = some (pos 5);
      body = RecordBody.mutation cleared;
    })
serialize_mutation_example =
    deserialize_record-serialize_mutation reads_cleared cleared (115 ∷ []) 5 refl
      cleared-IsWireMutation stream-IsEnvelope

abbrev reads_end : Protobuf
reads_end = record sized { parse = λ _. some (version_end_record 7 3 (115 ∷ []) 5) }

serialize_version_end_example :
    (serialize_version_end reads_end
        (Value.int (pos 7))
        (Value.int (pos 3))
        (Value.str (115 ∷ []))
        (Value.int (pos 5))
      >>= λ content. deserialize_record reads_end (Value.bytes content))
    ≡ valid (record {
      stream_name = 115 ∷ [];
      bridge_timestamp_ns = some (pos 5);
      body =
          RecordBody.version_end
            (record { fdb_version = 7; total_mutations = 3; bridge_timestamp_ns = some (pos 5) });
    })
serialize_version_end_example =
    deserialize_record-serialize_version_end reads_end 7 3 (115 ∷ []) 5 refl (omega arith)
      (omega arith) stream-IsEnvelope
