-- ===== src/Serialization/RoundTrip.antt =====
-- What the decoder makes of the bytes that the serializer writes.
use kafka_fdb_streamline.Common.{
  ℕ, suc, ◌+◌, ◌/◌, ◌%◌, ◌≤◌, true, false, ◌&&◌, Option, none, some, List, [], ◌∷◌, map, ltb, ◌==◌,
  ◌≡◌, refl, sym, subst, ap, ◌∙◌, arith, is_empty, length, pos, pos_scale_add, All, Bool-cases, inl,
  inr,
}
use kafka_fdb_streamline.Errors.{Field}
use kafka_fdb_streamline.Serialization.Checked.{valid}
use kafka_fdb_streamline.Serialization.Model.{
  Text, Value, Native, VersionIndex, Mutation, RecordBody, max_type_code, max_version,
  max_sequence_no, max_bridge_timestamp_ns, as_native,
}
use kafka_fdb_streamline.Serialization.Message.{FdbMutation, MutationArm}
use kafka_fdb_streamline.Serialization.Checks
use kafka_fdb_streamline.Serialization.Wire.{timestamp, mutation_message, mutation_messages}
use kafka_fdb_streamline.Serialization.Deserializer.{
  mutation_arm, decode_mutation, decode_mutations, check_consistent, decode_batch, read_timestamp,
}

-- Mutation i stands at version index (version, first + i).
abbrev pub IsNumbered : ℕ → ℕ → List Mutation → Type 0
IsNumbered version first [] = Unit
IsNumbered version first (m ∷ rest) =
    (m.version_index ≡ record { fdb_version = version; sequence_no = first })
    × IsNumbered version (first + 1) rest

abbrev pub HasTypeCode : Mutation → Type 0
HasTypeCode m = m.type ≤ max_type_code

abbrev pub native_of : Mutation → Native
native_of m = record { type_code = m.type; param1 = m.param1; param2 = m.param2 }

pub ltb-false : (a b : ℕ) → b ≤ a → ltb a b ≡ false
ltb-false a b h = ground arith

pub integer-valid :
    (value : ℕ) (field : Field) (maximum : ℕ) (index : Option ℕ)
    → value ≤ maximum
    → Checks.integer (Value.int (pos value)) field (some maximum) 0 index ≡ valid value
unfolding Checks.integer
integer-valid value field maximum index h = ground arith

type_code-valid :
    (value : ℕ) (index : Option ℕ)
    → value ≤ max_type_code
    → Checks.type_code (Value.int (pos value)) index ≡ valid value
unfolding Checks.type_code
type_code-valid value index h = ground arith

pub native-valid :
    (m : Mutation) (index : Option ℕ)
    → HasTypeCode m
    → Checks.native (as_native m) index ≡ valid (native_of m)
unfolding Checks.native
native-valid m index h = rw (type_code-valid m.type index h)

pub natives-valid :
    (ms : List Mutation) (first index : ℕ)
    → All HasTypeCode ms
    → first + index + length ms ≤ suc max_sequence_no
    → Checks.natives_from (map as_native ms) first index ≡ valid (map native_of ms)
unfolding Checks.natives_from Checks.assigned_sequence_no
natives-valid [] first index h room = refl
natives-valid (m ∷ rest) first index h room = rw (
  integer-valid (first + index) Field.sequence_no max_sequence_no (some index) (omega arith),
  native-valid m (some index) h.0,
  natives-valid rest first (index + 1) h.1 (omega arith),
)

wire_index : (m : Mutation) (version sequence : ℕ) → FdbMutation
wire_index m version sequence = mutation_message (native_of m) version sequence

clear_range_code : (m : Mutation) → (m.type == 1) ≡ true → m.type ≡ 1
clear_range_code m h = ground arith

single_key-valid :
    (m : Mutation) (at : VersionIndex) (index : Option ℕ)
    → HasTypeCode m
    → mutation_arm (some (MutationArm.single_key_mutation m.param1 m.param2 (pos m.type))) at index
      ≡ valid (record m { version_index = at })
unfolding mutation_arm
single_key-valid m at index h = ground arith

pub decode_mutation-mutation_message :
    (m : Mutation) (version sequence : ℕ) (index : Option ℕ)
    → HasTypeCode m
    → version ≤ max_version
    → m.version_index ≡ record { fdb_version = version; sequence_no = sequence }
    → decode_mutation (mutation_message (native_of m) version sequence) index ≡ valid m
unfolding mutation_message decode_mutation
decode_mutation-mutation_message m version sequence index code_ok version_ok stands =
    elim (Bool-cases (m.type == 1)) [
      | inl is_clear ↦ rw (
        is_clear,
        ltb-false max_version version version_ok,
        sym stands,
        sym (clear_range_code m is_clear),
      )
      | inr other ↦
          rw (other, ltb-false max_version version version_ok)
            (single_key-valid m (record { fdb_version = version; sequence_no = sequence }) index
                code_ok
              ∙ ap (λ (i : VersionIndex). valid (record m { version_index = i })) (sym stands))
    ]

decode-mutation_messages :
    (ms : List Mutation) (version first index : ℕ)
    → All HasTypeCode ms
    → version ≤ max_version
    → IsNumbered version first ms
    → decode_mutations (mutation_messages (map native_of ms) version first) index ≡ valid ms
unfolding decode_mutations mutation_messages
decode-mutation_messages [] version first index codes ok numbered = refl
decode-mutation_messages (m ∷ rest) version first index codes ok numbered = rw (
  decode_mutation-mutation_message m version first (some index) codes.0 ok numbered.0,
  decode-mutation_messages rest version (first + 1) (index + 1) codes.1 ok numbered.1,
)

check_one :
    (m : Mutation) (first : VersionIndex) (i : ℕ)
    → m.version_index
      ≡ record { fdb_version = first.fdb_version; sequence_no = first.sequence_no + i }
    → (m.version_index.fdb_version == first.fdb_version
        && m.version_index.sequence_no == first.sequence_no + i)
      ≡ true
check_one m first i h = ground arith

numbered-consistent :
    (ms : List Mutation) (first : VersionIndex) (i : ℕ)
    → IsNumbered first.fdb_version (first.sequence_no + i) ms
    → check_consistent first ms i ≡ valid tt
unfolding check_consistent
numbered-consistent [] first i numbered = refl
numbered-consistent (m ∷ rest) first i numbered = rw (
  check_one m first i numbered.0,
  numbered-consistent rest first (i + 1)
      (subst (λ n. IsNumbered first.fdb_version n rest) (omega arith) numbered.1),
)

pub decode_batch-mutation_messages :
    (ms : List Mutation) (version first : ℕ)
    → is_empty ms ≡ false
    → All HasTypeCode ms
    → version ≤ max_version
    → IsNumbered version first ms
    → decode_batch (mutation_messages (map native_of ms) version first)
      ≡ valid (RecordBody.batch ms)
unfolding decode_batch
decode_batch-mutation_messages [] version first some_ms codes ok numbered = cc
decode_batch-mutation_messages (m ∷ rest) version first some_ms codes ok numbered = rw (
  decode-mutation_messages (m ∷ rest) version first 0 codes ok numbered,
  numbered-consistent (m ∷ rest) m.version_index 0 (
      subst (λ (i : VersionIndex). IsNumbered i.fdb_version (i.sequence_no + 0) (m ∷ rest))
        (sym numbered.0) (subst (λ n. IsNumbered version n (m ∷ rest)) (omega arith) numbered)),
)

pub read-timestamp : (t : ℕ) → read_timestamp (some (timestamp t)) ≡ some (pos t)
unfolding read_timestamp timestamp
read-timestamp t =
    ap some (pos_scale_add (t / 1000000000) 1000000000 (t % 1000000000) ∙ ap pos (omega arith))

pub envelope-valid :
    (name : Text) (t : ℕ)
    → is_empty name ≡ false
    → Checks.encodes_as_utf8 name ≡ true
    → t ≤ max_bridge_timestamp_ns
    → Checks.envelope (Value.str name) (Value.int (pos t)) ≡ valid (name, t)
unfolding Checks.envelope
envelope-valid name t named encodes in_time =
    rw (
      named,
      encodes,
      integer-valid t Field.bridge_timestamp_ns max_bridge_timestamp_ns none in_time,
    )
