-- ===== src/Examples/Batches.antt =====
-- The serialization of batches at concrete inputs.
use kafka_fdb_streamline.Common.{
  concat, ℕ, zero, suc, ◌+◌, ◌≤◌, Option, none, some, List, [], ◌∷◌, map, ◌≡◌, refl, ap, ◌∙◌, arith,
  length, All, pos,
}
use kafka_fdb_streamline.Serialization.Checked.{valid}
use kafka_fdb_streamline.Serialization.Model.{Value, NativeMutation, Mutation, RecordBody, Bytes}
use kafka_fdb_streamline.Serialization.Message.{FdbMutation, MutationArm, RecordArm, Protobuf}
use kafka_fdb_streamline.Serialization.Checks
use kafka_fdb_streamline.Serialization.Wire
use kafka_fdb_streamline.Serialization.Serializer.{serialize_version_end}
use kafka_fdb_streamline.Serialization.VersionGroup.{
  framed_bytes, batch_tag_bytes, mutations_tag_bytes, batch_record_bytes, slices, slice_of,
  slice_from, close_slice, grow_slice, mutation_frame, batch_record, serialize_version_group,
}
use kafka_fdb_streamline.Serialization.VersionGroup.Cut.{IsCut}
use kafka_fdb_streamline.Serialization.VersionGroup.Slices.{FitsIn}
use kafka_fdb_streamline.Serialization.VersionGroup.Fits.{slices-IsCut}
use kafka_fdb_streamline.Serialization.VersionGroup.Records.{
  HasBatchSizes, framed_mutations, serialize_version_group-fits, slices-concat,
}
use kafka_fdb_streamline.Serialization.Deserializer.{
  decode_batch, decode_mutations, decode_mutation, check_batch, check_consistent,
}
use kafka_fdb_streamline.Serialization.Decoded.{IsConsecutive, decode_batch-IsConsecutive}

abbrev zeros : ℕ → Bytes
zeros zero = []
zeros (suc n) = 0 ∷ zeros n

length-zeros : (n : ℕ) → length (zeros n) ≡ n
length-zeros zero = refl
length-zeros (suc n) = ap suc (length-zeros n)

-- Framed mutations of ten bytes each.
abbrev sized_total : List FdbMutation → ℕ
sized_total [] = 0
sized_total (m ∷ rest) = framed_bytes mutations_tag_bytes 10 + sized_total rest

-- A protobuf runtime that writes zeros, as many as the wire format takes for a batch.
abbrev sized_payload : Option RecordArm → Bytes
sized_payload none = []
sized_payload (some (RecordArm.batch messages)) =
    zeros (framed_bytes batch_tag_bytes (sized_total messages))
sized_payload _ = []

abbrev pub sized : Protobuf
sized = record {
  serialize = λ message. sized_payload message.record_arm;
  parse = λ _. some (record { stream_name = []; bridge_timestamp = none; record_arm = none });
  byte_size = λ _. 10;
}

sized-total : (messages : List FdbMutation) → sized_total messages ≡ framed_mutations sized messages
sized-total [] = refl
sized-total (m ∷ rest) = ap (λ n. framed_bytes mutations_tag_bytes 10 + n) (sized-total rest)

zero_plus : (n : ℕ) → n ≡ 0 + n
zero_plus n = omega arith

sized-HasBatchSizes : HasBatchSizes sized
unfolding Wire.record_bytes Wire.record_message
sized-HasBatchSizes name t messages =
    length-zeros _ ∙ ap (λ n. framed_bytes batch_tag_bytes n) (sized-total messages) ∙ zero_plus _

abbrev set_key : Value → Value → NativeMutation
set_key key value = record {
  type = some (Value.int (pos 0));
  param1 = some key;
  param2 = some value;
}

abbrev pub three : Option (List NativeMutation)
three = some (
    set_key (Value.bytes (1 ∷ [])) (Value.bytes [])
    ∷ set_key (Value.bytes (2 ∷ [])) (Value.bytes [])
    ∷ set_key (Value.bytes (3 ∷ [])) (Value.bytes [])
    ∷ [])

abbrev message_at : ℕ → FdbMutation
message_at n = record {
  version_index = some (record { fdb_version = 7; sequence_no = n });
  mutation = some (MutationArm.single_key_mutation (n ∷ []) [] (pos 0));
}

abbrev three_messages : List FdbMutation
three_messages = message_at 0 ∷ message_at 1 ∷ message_at 2 ∷ []

-- Two mutations of twelve framed bytes fit into thirty bytes beside an envelope of four.
sliced_three : slices sized three_messages 4 30 ≡ valid ((0, 2) ∷ (2, 3) ∷ [])
unfolding slices slice_from close_slice grow_slice mutation_frame framed_bytes batch_tag_bytes
    batch_record_bytes mutations_tag_bytes
sliced_three = refl

slices-IsCut_example :
    IsCut 0 ((0, 2) ∷ (2, 3) ∷ []) (length three_messages)
    × All (FitsIn 4 30 sized three_messages) ((0, 2) ∷ (2, 3) ∷ [])
slices-IsCut_example = slices-IsCut sized three_messages 4 30 ((0, 2) ∷ (2, 3) ∷ []) sliced_three

slices-concat_example :
    concat (map (slice_of three_messages) ((0, 2) ∷ (2, 3) ∷ [])) ≡ three_messages
slices-concat_example = slices-concat sized three_messages 4 30 ((0, 2) ∷ (2, 3) ∷ []) sliced_three

abbrev stream : Value
stream = Value.str (115 ∷ [])

-- What `serialize_version_group` returns for three mutations within a hundred bytes.
abbrev one_group : List Bytes
one_group = zeros 38 ∷ [] ∷ []

grouped_three :
    serialize_version_group sized three
      (Value.int (pos 7))
      (Value.int (pos 100))
      stream
      (Value.int (pos 5))
    ≡ valid one_group
unfolding serialize_version_group slices slice_from close_slice grow_slice mutation_frame
    framed_bytes batch_tag_bytes batch_record_bytes mutations_tag_bytes Checks.fdb_version
    Checks.max_record_bytes Checks.envelope Checks.natives Checks.natives_from Checks.native
    Checks.assigned_sequence_no Wire.record_bytes Wire.record_message Wire.mutation_messages
    Wire.mutation_message serialize_version_end Checks.total_mutations batch_record slice_of
grouped_three = refl

budget_of_100 : Checks.max_record_bytes (Value.int (pos 100)) ≡ valid 100
unfolding Checks.max_record_bytes
budget_of_100 = refl

serialize_version_group-fits_example : All (λ content. length content ≤ 100) one_group
serialize_version_group-fits_example =
    serialize_version_group-fits sized three 100 (Value.int (pos 7)) (Value.int (pos 100)) stream
      (Value.int (pos 5)) one_group sized-HasBatchSizes budget_of_100 grouped_three

abbrev mutation_at : ℕ → Mutation
mutation_at n = record {
  type = 0;
  param1 = n ∷ [];
  param2 = [];
  version_index = record { fdb_version = 7; sequence_no = n };
}

abbrev pub three_mutations : List Mutation
three_mutations = mutation_at 0 ∷ mutation_at 1 ∷ mutation_at 2 ∷ []

decoded_three : decode_batch three_messages ≡ valid (RecordBody.batch three_mutations)
unfolding decode_batch decode_mutations decode_mutation check_batch check_consistent
decoded_three = refl

decode_batch-IsConsecutive_example : IsConsecutive (RecordBody.batch three_mutations)
decode_batch-IsConsecutive_example =
    decode_batch-IsConsecutive three_messages (RecordBody.batch three_mutations) decoded_three
