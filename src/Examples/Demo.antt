-- ===== src/Examples/Demo.antt =====
-- The demo's writes, what they arrive as and what is consumed, at concrete inputs.
use kafka_fdb_streamline.Common.{
  ◌<◌, not, ◌&&◌, ℕ, ◌-◌, ◌≤◌, none, some, List, [], ◌∷◌, ◌++◌, length, take, concat, All, ltb,
  false, if◌then◌else◌, ◌≡◌, refl, ap, ◌∙◌, arith, append_assoc, length-append, take-length_append,
  ℤ, pos,
}
use kafka_fdb_streamline.Common.Texts.{codes, starts_with, bytes_lt}
use kafka_fdb_streamline.Bridge.Config.{BridgeConfig, is_blank, is_space}
use kafka_fdb_streamline.Demo.Config.{prefix_of, demo_config}
use kafka_fdb_streamline.Demo.Config.Range.{demo_config-range}
use kafka_fdb_streamline.Errors.{timeout_error}
use kafka_fdb_streamline.Exec.{ok, err}
use kafka_fdb_streamline.Serialization.Model.{Bytes}
use kafka_fdb_streamline.Serialization.Message.{MutationArm, FdbMutationRecord, Protobuf}
use kafka_fdb_streamline.Demo.Workload.{expected_mutation}
use kafka_fdb_streamline.Demo.Workload.Verifier.{verify_workload}
use kafka_fdb_streamline.Demo.Workload.Accepted.{mutations_of, Answered, IsWritten}
use kafka_fdb_streamline.Demo.Workload.Delivery.{Version, delivery}
use kafka_fdb_streamline.Demo.Writer
use kafka_fdb_streamline.Demo.Writer.{Write, write_of, write_samples, seed_clear_targets}
use kafka_fdb_streamline.Demo.Writer.Chunks.{IsBounded, write_samples-IsChunked}
use kafka_fdb_streamline.Demo.Writer.Seeds.{IsSeeded, write_of-IsSeeded}
use kafka_fdb_streamline.Demo.Native.{IsNative, native_type}
use kafka_fdb_streamline.Demo.Native.Matches.{Matches}
use kafka_fdb_streamline.Demo.Native.Expected.{Matches-emitted}
use kafka_fdb_streamline.Demo.EndToEnd.{emitted, verify_workload-write_samples}
use kafka_fdb_streamline.Demo.Consumer
use kafka_fdb_streamline.Demo.Consumer.{Polled, no_message, message, consume_records}
use kafka_fdb_streamline.Demo.Consumer.Received.{
  received, mutations_in, consume_records-received, consume_records-timeout,
}
use kafka_fdb_streamline.Demo.Runner.{check_run, check_run-written}
use kafka_fdb_streamline.Examples.Workload.{consumed, counts, accepted}

abbrev prefix : Bytes
prefix = codes "w/"

-- A stamp of sevens.
abbrev sevens : Bytes
sevens = 7 ∷ 7 ∷ 7 ∷ 7 ∷ 7 ∷ 7 ∷ 7 ∷ 7 ∷ 7 ∷ 7 ∷ []

abbrev stamp_over : Bytes → Bytes
stamp_over parameter = take (length parameter - 14) parameter ++ sevens

abbrev emit : ℕ → Write → MutationArm
emit i (Write.set key value) = MutationArm.single_key_mutation key value (pos 0)
emit i (Write.clear_range b e) = MutationArm.clear_range b e
emit i (Write.atomic op key operand) =
    MutationArm.single_key_mutation key operand (pos (native_type op))
emit i (Write.set_versionstamped_key key value) =
    MutationArm.single_key_mutation (stamp_over key) value (pos 0)
emit i (Write.set_versionstamped_value key value) =
    MutationArm.single_key_mutation key (stamp_over value) (pos 0)

stamp_over-text :
    (text placeholder offset : Bytes)
    → length placeholder ≡ 10
    → length offset ≡ 4
    → stamp_over ((text ++ placeholder) ++ offset) ≡ text ++ sevens
stamp_over-text text placeholder offset ten four =
    let size : length ((text ++ placeholder) ++ offset) - 14 ≡ length text =
      omega (arith, length-append (text ++ placeholder) offset, length-append text placeholder) in
    rw size (
      ap (λ l. l ++ sevens)
        (ap (take (length text)) (append_assoc text placeholder offset)
          ∙ take-length_append text (placeholder ++ offset)))

emit-IsNative : IsNative emit
emit-IsNative = record {
  sets = λ i key value. refl;
  clears = λ i b e. refl;
  keeps_atomic = λ i op key operand. refl;
  stamps_key = λ i text placeholder offset value ten four _. (
    sevens,
    refl,
    ap (λ key. MutationArm.single_key_mutation key value (pos 0))
        (stamp_over-text text placeholder offset ten four),
  );
  stamps_value = λ i key text placeholder offset ten four _. (
    sevens,
    refl,
    ap (λ value. MutationArm.single_key_mutation key value (pos 0))
        (stamp_over-text text placeholder offset ten four),
  );
}

Matches-emitted_example : Matches (expected_mutation prefix 9) (emit 9 (write_of prefix 9))
Matches-emitted_example = Matches-emitted emit emit-IsNative prefix 9 (omega arith) (omega arith)

-- Two batches of one version, and a later version.
abbrev versions : List Version
versions =
    (
      5,
      emitted emit 0 (write_of prefix 0 ∷ write_of prefix 1 ∷ [])
          ∷ emitted emit 2 (write_of prefix 2 ∷ [])
          ∷ [],
    )
    ∷ (8, [])
    ∷ (9, emitted emit 3 (write_of prefix 3 ∷ []) ∷ [])
    ∷ []

verify_workload-write_samples_example :
    (counts : ℤ → ℕ) × (verify_workload (delivery (codes "w") versions) prefix 4 ≡ ok counts)
unfolding write_samples Writer.commit_chunks Writer.commit_chunk
verify_workload-write_samples_example =
    verify_workload-write_samples emit emit-IsNative prefix (omega arith) 4 (omega arith)
      (codes "w") versions (omega arith) refl

write_samples-IsChunked_example :
    All IsBounded (write_samples prefix 1001)
    × (concat (write_samples prefix 1001) ≡ Writer.commit_chunk prefix 0 1001)
write_samples-IsChunked_example = write_samples-IsChunked prefix 1001

write_of-IsSeeded_example : IsSeeded (concat (seed_clear_targets prefix 20)) (write_of prefix 15)
write_of-IsSeeded_example = write_of-IsSeeded prefix 20 15 (omega arith) refl

-- A runtime for which the first byte says which record it is.
abbrev pb : Protobuf
pb = record {
  serialize = λ _. [];
  parse = λ bytes. elim bytes [
    | [] ↦ none
    | b ∷ _ ↦ elim consumed [
      | [] ↦ none
      | m ∷ rest ↦ elim rest [ [] ↦ none | n ∷ _ ↦ some (if ltb b 1 then m else n) ]
    ]
  ];
  byte_size = λ _. 0;
}

abbrev rounds : List Polled
rounds =
    message (some (0 ∷ []))
    ∷ no_message
    ∷ message (some (1 ∷ []))
    ∷ no_message
    ∷ no_message
    ∷ no_message
    ∷ []

polled : consume_records pb 1 rounds ≡ ok consumed
unfolding consume_records Consumer.consume_loop Consumer.parsed Consumer.add_record Consumer.idle
    Consumer.added_mutations
polled = refl

consume_records-received_example :
    (n : ℕ) × (received pb (take n rounds) ≡ some consumed) × (1 ≤ mutations_in consumed)
consume_records-received_example = consume_records-received pb 1 rounds consumed polled

consume_records-timeout_example :
    (records : List FdbMutationRecord) × (consume_records pb 2 rounds
      ≡ (if ltb (mutations_in consumed) 2 then err timeout_error else ok records))
consume_records-timeout_example = consume_records-timeout pb 2 rounds consumed refl

passed : check_run pb prefix 1 1 false false rounds ≡ ok counts
unfolding check_run
passed = rw polled accepted

check_run-written_example :
    (n : ℕ) × (records : List FdbMutationRecord) × (received pb (take n rounds) ≡ some records)
    × (length (mutations_of records) ≡ 1)
    × All (IsWritten prefix 1) (mutations_of records)
    × ((index : ℕ) → index < 1 → Answered prefix (mutations_of records) index)
check_run-written_example = check_run-written pb prefix 1 1 false false rounds counts passed

not_blank : is_blank (codes "kafka:19092") ≡ false
unfolding is_blank is_space
not_blank = refl

demo_config-range_example :
    (c : BridgeConfig) × (demo_config (codes "a1") (codes "kafka:19092") ≡ ok c)
    × ((k : Bytes)
        → All (λ b. b < 256) k
        → starts_with (prefix_of (codes "a1")) k
          ≡ (not (bytes_lt k c.cdc.begin_key) && bytes_lt k c.cdc.end_key))
demo_config-range_example =
    demo_config-range (codes "a1") (omega arith) (codes "kafka:19092") not_blank
