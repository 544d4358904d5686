-- ===== src/Serialization/VersionGroup.antt =====
-- serialization/version_group.py: a whole version group as batch records and its version end.
pub mod Cut
pub mod Slices
pub mod Fits
pub mod Records
use kafka_fdb_streamline.Common.{
  ℕ, zero, suc, ◌+◌, ◌-◌, ◌*◌, ◌/◌, true, false, ◌&&◌, Option, none, some, List, [], ◌∷◌, ◌++◌, map,
  ltb, ◌==◌, if◌then◌else◌, is_empty, length, take, drop, pos,
}
use kafka_fdb_streamline.Errors.{record_too_large}
use kafka_fdb_streamline.Serialization.Checked.{Checked, valid, invalid, ◌>>=◌, ◌>>◌, refuse}
use kafka_fdb_streamline.Serialization.Model.{Text, Bytes, Value, NativeMutation}
use kafka_fdb_streamline.Serialization.Message.{FdbMutation, RecordArm, Protobuf}
use kafka_fdb_streamline.Serialization.Checks
use kafka_fdb_streamline.Serialization.Wire.{record_bytes, mutation_messages}
use kafka_fdb_streamline.Serialization.Serializer.{serialize_version_end}

-- `int.bit_length`; the first argument bounds the halvings, and the number itself is enough.
bit_length_within : ℕ → ℕ → ℕ
bit_length_within zero value = 0
bit_length_within (suc fuel) value = elim (value == 0) [
  | true ↦ 0
  | false ↦ suc (bit_length_within fuel (value / 2))
]

unfoldable pub bit_length : ℕ → ℕ
unfolding bit_length_within
bit_length value = bit_length_within value value

-- `_varint_bytes`
unfoldable pub varint_bytes : ℕ → ℕ
unfolding bit_length
varint_bytes value = let groups = (bit_length value + 6) / 7 in if ltb groups 1 then 1 else groups

-- `_tag_bytes`, of the field's number in mutations.proto.
unfoldable pub tag_bytes : ℕ → ℕ
unfolding varint_bytes
tag_bytes field_number = varint_bytes (field_number * 8)

-- `FDBMutationRecord.batch` is field 5, and `FDBMutationBatch.mutations` is field 1.
unfoldable pub batch_tag_bytes : ℕ
unfolding tag_bytes
batch_tag_bytes = tag_bytes 5

unfoldable pub mutations_tag_bytes : ℕ
unfolding tag_bytes
mutations_tag_bytes = tag_bytes 1

-- `_framed_bytes`
unfoldable pub framed_bytes : ℕ → ℕ → ℕ
framed_bytes tag payload = tag + varint_bytes payload + payload

-- The variables of the slicing loop.
pub record Slicing : Type 0 where
  pub slices : List (ℕ × ℕ)
  pub start : ℕ
  pub batch_bytes : ℕ

module _ (envelope_bytes max_record_bytes : ℕ) where
  -- The size of a batch record whose framed mutations take `payload` bytes.
  unfoldable pub batch_record_bytes : ℕ → ℕ
  batch_record_bytes payload = envelope_bytes + framed_bytes batch_tag_bytes payload

  -- `if batch_bytes and grown > max_record_bytes:`
  unfoldable pub close_slice : ℕ → ℕ → Slicing → Slicing
  close_slice i mutation_bytes s =
      if ltb 0 s.batch_bytes
        && ltb max_record_bytes (batch_record_bytes (s.batch_bytes + mutation_bytes))
      then record { slices = s.slices ++ (s.start, i) ∷ []; start = i; batch_bytes = 0 }
      else s

  -- `if not batch_bytes:`, and the sum of the loop's last line.
  unfoldable pub grow_slice : ℕ → ℕ → Slicing → Checked Slicing
  grow_slice i mutation_bytes s =
      if s.batch_bytes == 0 && ltb max_record_bytes (batch_record_bytes mutation_bytes)
      then invalid (record_too_large (some i) (batch_record_bytes mutation_bytes) max_record_bytes)
      else valid (record s { batch_bytes = s.batch_bytes + mutation_bytes })

  module _ (pb : Protobuf) where
    unfoldable pub mutation_frame : FdbMutation → ℕ
    mutation_frame message = framed_bytes mutations_tag_bytes (pb.byte_size message)

    -- The loop over `enumerate(messages)`, from position `i` on.
    unfoldable pub slice_from : List FdbMutation → ℕ → Slicing → Checked Slicing
    slice_from [] i s = valid s
    slice_from (message ∷ rest) i s = do
      grown ← grow_slice i (mutation_frame message) (close_slice i (mutation_frame message) s)
      slice_from rest (i + 1) grown

-- `messages[a:b]`
unfoldable pub slice_of : List FdbMutation → ℕ × ℕ → List FdbMutation
slice_of messages (a, b) = take (b - a) (drop a messages)

-- The slices of the group, the last one included.
unfoldable pub last_slice : List FdbMutation → Slicing → List (ℕ × ℕ)
last_slice messages s =
    if is_empty messages then s.slices else s.slices ++ (s.start, length messages) ∷ []

module _ (pb : Protobuf) where
  unfoldable pub slices : List FdbMutation → ℕ → ℕ → Checked (List (ℕ × ℕ))
  unfolding last_slice
  slices messages envelope_bytes max_record_bytes = do
    s ←
        slice_from envelope_bytes max_record_bytes pb messages 0
          (record { slices = []; start = 0; batch_bytes = 0 })
    valid (last_slice messages s)

  unfoldable pub batch_record : Text → ℕ → List FdbMutation → Bytes
  batch_record name timestamp_ns messages =
      record_bytes pb name timestamp_ns (some (RecordArm.batch messages))

  unfoldable pub serialize_version_group :
      Option (List NativeMutation) → Value → Value → Value → Value → Checked (List Bytes)
  serialize_version_group mutations fdb_version max_record_bytes stream_name bridge_timestamp_ns =
      do
        version ← Checks.fdb_version fdb_version
        budget ← Checks.max_record_bytes max_record_bytes
        (name, timestamp_ns) ← Checks.envelope stream_name bridge_timestamp_ns
        natives ← Checks.natives mutations 0
        let messages = mutation_messages natives version 0
        let envelope_bytes = length (record_bytes pb name timestamp_ns none)
        ranges ← slices messages envelope_bytes budget
        version_end ←
            serialize_version_end pb fdb_version (Value.int (pos (length messages))) stream_name
              bridge_timestamp_ns
        refuse (ltb budget (length version_end)) (record_too_large none (length version_end) budget)
        valid (
            map (λ range. batch_record name timestamp_ns (slice_of messages range)) ranges
            ++ version_end ∷ [])
