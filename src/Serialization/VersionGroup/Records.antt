-- ===== src/Serialization/VersionGroup/Records.antt =====
-- The records that serialize_version_group returns.
use kafka_fdb_streamline.Common.{
  concat, ℕ, ◌+◌, ◌-◌, ◌≤◌, Bool, true, false, ltb, Option, none, some, List, [], ◌∷◌, ◌++◌, map,
  ◌≡◌, refl, sym, subst, ap, ◌∙◌, arith, length, take, All, All-append, pos,
}
use kafka_fdb_streamline.Errors.{SerializationError}
use kafka_fdb_streamline.Serialization.Checked.{valid, ◌>>=◌, refuse, bind_valid}
use kafka_fdb_streamline.Serialization.Model.{Text, Bytes, Value, NativeMutation}
use kafka_fdb_streamline.Serialization.Message.{FdbMutation, RecordArm, Protobuf}
use kafka_fdb_streamline.Serialization.Checks
use kafka_fdb_streamline.Serialization.Wire.{record_bytes, mutation_messages}
use kafka_fdb_streamline.Serialization.Serializer.{serialize_version_end}
use kafka_fdb_streamline.Serialization.VersionGroup.{
  framed_bytes, batch_tag_bytes, mutations_tag_bytes, batch_record_bytes, mutation_frame, slice_of,
  slices, batch_record, serialize_version_group,
}
use kafka_fdb_streamline.Serialization.VersionGroup.Cut.{concat-slices, take_all}
use kafka_fdb_streamline.Serialization.VersionGroup.Slices.{payload, FitsIn, valid-injective}
use kafka_fdb_streamline.Serialization.VersionGroup.Fits.{slices-IsCut}

-- The bytes of the framed mutations of a batch, by the sizes that the protobuf runtime gives.
abbrev pub framed_mutations : Protobuf → List FdbMutation → ℕ
framed_mutations pb [] = 0
framed_mutations pb (m ∷ rest) =
    framed_bytes mutations_tag_bytes (pb.byte_size m) + framed_mutations pb rest

-- The wire format's law for a batch record: its bytes are those of the envelope and the framed batch.
abbrev pub HasBatchSizes : Protobuf → Type 0
HasBatchSizes pb =
    (name : Text) (timestamp_ns : ℕ) (messages : List FdbMutation)
    → length (record_bytes pb name timestamp_ns (some (RecordArm.batch messages)))
      ≡ length (record_bytes pb name timestamp_ns none)
        + framed_bytes batch_tag_bytes (framed_mutations pb messages)

payload-framed :
    (envelope budget : ℕ) (pb : Protobuf) (messages : List FdbMutation)
    → payload envelope budget pb messages ≡ framed_mutations pb messages
unfolding mutation_frame
payload-framed envelope budget pb [] = refl
payload-framed envelope budget pb (m ∷ rest) =
    ap (λ n. framed_bytes mutations_tag_bytes (pb.byte_size m) + n)
      (payload-framed envelope budget pb rest)

refused :
    {A : Type 0} (b : Bool) (e : SerializationError) {x y : A}
    → (refuse b e >>= λ _. valid x) ≡ valid y
    → (b ≡ false) × (x ≡ y)
refused true e h = cc
refused false e h = (refl, valid-injective h)

-- What a successful call went through: its version end and the ranges of its batches.
pub record Group (pb : Protobuf) (budget : ℕ) (contents : List Bytes) : Type 0 where
  pub name : Text
  pub timestamp_ns : ℕ
  pub messages : List FdbMutation
  pub ranges : List (ℕ × ℕ)
  pub version_end : Bytes
  pub sliced :
      slices pb messages (length (record_bytes pb name timestamp_ns none)) budget ≡ valid ranges
  pub end_fits : length version_end ≤ budget
  pub written :
      map (λ range. batch_record pb name timestamp_ns (slice_of messages range)) ranges
        ++ version_end ∷ []
      ≡ contents

minus_zero : (n : ℕ) → n - 0 ≡ n
minus_zero n = omega arith

within : (a b : ℕ) → ltb b a ≡ false → a ≤ b
within a b h = ground arith

serialize_version_group-Group :
    (pb : Protobuf) (mutations : Option (List NativeMutation)) (budget : ℕ)
    (fdb_version max_record_bytes stream_name bridge_timestamp_ns : Value) (contents : List Bytes)
    → Checks.max_record_bytes max_record_bytes ≡ valid budget
    → serialize_version_group pb mutations fdb_version max_record_bytes stream_name
        bridge_timestamp_ns
      ≡ valid contents
    → Group pb budget contents
unfolding serialize_version_group
serialize_version_group-Group pb mutations budget v m s t contents known h =
    let (version, _, h1) = bind_valid (Checks.fdb_version v) _ h in
    let (allowed, is_allowed, h2) = bind_valid (Checks.max_record_bytes m) _ h1 in
    let ((name, timestamp_ns), _, h3) = bind_valid (Checks.envelope s t) _ h2 in
    let (natives, _, h4) = bind_valid (Checks.natives mutations 0) _ h3 in
    let (ranges, sliced, h5) =
      bind_valid
        (slices pb (mutation_messages natives version 0)
          (length (record_bytes pb name timestamp_ns none)) allowed)
        _ h4 in
    let (version_end, _, h6) =
      bind_valid
        (serialize_version_end pb v (Value.int (pos (length (mutation_messages natives version 0))))
          s t)
        _ h5 in
    let (fits, written) = refused (ltb allowed (length version_end)) _ h6 in
    let same = valid-injective (sym is_allowed ∙ known) in
    record {
      name = name;
      timestamp_ns = timestamp_ns;
      messages = mutation_messages natives version 0;
      ranges = ranges;
      version_end = version_end;
      sliced =
          subst
            (λ n.
              slices pb (mutation_messages natives version 0)
                (length (record_bytes pb name timestamp_ns none)) n
              ≡ valid ranges)
            same sliced;
      end_fits = subst (λ n. length version_end ≤ n) same (within _ allowed fits);
      written = written;
    }

all-map :
    {A B : Type 0} (P : A → Type 0) (Q : B → Type 0) (f : A → B) (xs : List A)
    → ((x : A) → P x → Q (f x))
    → All P xs
    → All Q (map f xs)
all-map P Q f [] h all = tt
all-map P Q f (x ∷ xs) h all = (h x all.0, all-map P Q f xs h all.1)

-- Whatever the mutations, a version group that serialize_version_group accepts within a budget comes out
-- as records that each fit the budget, if batch records have the sizes of the wire format.
pub serialize_version_group-fits :
    (pb : Protobuf) (mutations : Option (List NativeMutation)) (budget : ℕ)
    (fdb_version max_record_bytes stream_name bridge_timestamp_ns : Value) (contents : List Bytes)
    → HasBatchSizes pb
    → Checks.max_record_bytes max_record_bytes ≡ valid budget
    → serialize_version_group pb mutations fdb_version max_record_bytes stream_name
        bridge_timestamp_ns
      ≡ valid contents
    → All (λ content. length content ≤ budget) contents
unfolding batch_record batch_record_bytes
serialize_version_group-fits pb mutations budget v m s t contents sizes known h =
    let g = serialize_version_group-Group pb mutations budget v m s t contents known h in
    let envelope = length (record_bytes pb g.name g.timestamp_ns none) in
    subst (All (λ content. length content ≤ budget)) g.written (
      All-append (λ content. length content ≤ budget) _ (g.version_end ∷ [])
        (all-map (FitsIn envelope budget pb g.messages) (λ content. length content ≤ budget)
          (λ range. batch_record pb g.name g.timestamp_ns (slice_of g.messages range)) g.ranges
          (λ range fits.
            subst (λ n. n ≤ budget)
              (sym (
                sizes g.name g.timestamp_ns (slice_of g.messages range)
                ∙ ap (λ n. envelope + framed_bytes batch_tag_bytes n)
                    (sym (payload-framed envelope budget pb (slice_of g.messages range)))))
              fits)
          (slices-IsCut pb g.messages envelope budget g.ranges g.sliced).1)
        (g.end_fits, tt))

-- The slices that `slices` cuts hold all the messages, each once and in order.
pub slices-concat :
    (pb : Protobuf) (messages : List FdbMutation) (envelope budget : ℕ) (ranges : List (ℕ × ℕ))
    → slices pb messages envelope budget ≡ valid ranges
    → concat (map (slice_of messages) ranges) ≡ messages
slices-concat pb messages envelope budget ranges h =
    concat-slices ranges 0 (length messages) messages
      (slices-IsCut pb messages envelope budget ranges h).0
    ∙ ap (λ n. take n messages) (minus_zero (length messages))
    ∙ take_all messages
