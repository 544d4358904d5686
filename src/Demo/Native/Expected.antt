-- ===== src/Demo/Native/Expected.antt =====
-- expected_mutation against the writes of _write_samples.
use kafka_fdb_streamline.Common.{
  append-nil, ℕ, zero, suc, ◌%◌, ◌^◌, ◌<◌, some, [], ◌∷◌, ◌++◌, length, ◌==◌, ◌≡◌, refl, ap, sym,
  ◌∙◌, arith, length-append, Bool-cases, inl, inr, subst,
}
use kafka_fdb_streamline.Common.Texts.{codes}
use kafka_fdb_streamline.Serialization.Model.{Bytes}
use kafka_fdb_streamline.Serialization.Message.{MutationArm}
use kafka_fdb_streamline.Demo.Workload.{
  in_param1, in_param2, expected_mutation, exactly, plain, plain_operation, eight_digits,
  in_decimal, little_endian, stamp_bytes,
}
use kafka_fdb_streamline.Demo.Workload.Verifier.{native, workload_index}
use kafka_fdb_streamline.Demo.Writer.{Atomic, Write, write_of, stamped}
use kafka_fdb_streamline.Demo.Native.{IsNative, native_type}
use kafka_fdb_streamline.Demo.Native.Digits.{
  IsTag, all_tags, workload_index-key, length-eight_digits, read_little_endian-little_endian,
  length-little_endian, length-stamp_bytes,
}
use kafka_fdb_streamline.Demo.Native.Matches.{
  Matches, Matches-single, Matches-clear, Matches-stamp1, Matches-stamp2,
}

-- What holds at each number below a bound.
abbrev AllBelow : (ℕ → Type 0) → ℕ → Type 0
AllBelow P zero = Unit
AllBelow P (suc n) = P n × AllBelow P n

AllBelow-at : (P : ℕ → Type 0) (n k : ℕ) → AllBelow P n → k < n → P k
AllBelow-at P zero k all small = absurd (omega arith)
AllBelow-at P (suc n) k (last, all) small = elim (Bool-cases (k == n)) [
  | inl same ↦ subst P (ground arith) last
  | inr other ↦ AllBelow-at P n k all (ground arith)
]

module _ (emit : ℕ → Write → MutationArm) (cdc : IsNative emit) (prefix : Bytes) (index : ℕ) where
  -- The mutation is the expected one, and its key has the index.
  abbrev pub IsExpected : Type 0
  IsExpected =
      Matches (expected_mutation prefix index) (emit index (write_of prefix index))
      × (workload_index prefix (native (some (emit index (write_of prefix index)))).1 ≡ some index)

  module _ (small : index < 100000000) where
    abbrev key_with : Bytes → Bytes
    key_with tag = prefix ++ tag ++ eight_digits index

    indexed :
        (tag rest : Bytes) → IsTag tag → workload_index prefix (key_with tag ++ rest) ≡ some index
    indexed tag rest tags = workload_index-key prefix tag rest index tags small

    indexed_whole : (tag : Bytes) → IsTag tag → workload_index prefix (key_with tag) ≡ some index
    indexed_whole tag tags =
        ap (workload_index prefix) (sym (append-nil (key_with tag))) ∙ indexed tag [] tags

    set_kind :
        (tag value : Bytes)
        → IsTag tag
        → write_of prefix index ≡ Write.set (key_with tag) value
        → expected_mutation prefix index ≡ exactly 0 (key_with tag) value
        → IsExpected
    unfolding native
    set_kind tag value tags written expected =
        rw (written, expected)
          (rw (cdc.sets index (key_with tag) value)
            (Matches-single 0 (key_with tag) value, indexed_whole tag tags))

    clear_kind :
        (tag b e : Bytes)
        → IsTag tag
        → write_of prefix index ≡ Write.clear_range (key_with tag ++ b) (key_with tag ++ e)
        → expected_mutation prefix index ≡ exactly 1 (key_with tag ++ b) (key_with tag ++ e)
        → IsExpected
    unfolding native
    clear_kind tag b e tags written expected =
        rw (written, expected)
          (rw (cdc.clears index (key_with tag ++ b) (key_with tag ++ e))
            (Matches-clear (key_with tag ++ b) (key_with tag ++ e), indexed tag b tags))

    atomic_kind :
        (op : Atomic) (tag operand : Bytes)
        → IsTag tag
        → write_of prefix index ≡ Write.atomic op (key_with tag) operand
        → expected_mutation prefix index ≡ exactly (native_type op) (key_with tag) operand
        → IsExpected
    unfolding native
    atomic_kind op tag operand tags written expected =
        rw (written, expected)
          (rw (cdc.keeps_atomic index op (key_with tag) operand)
            (Matches-single (native_type op) (key_with tag) operand, indexed_whole tag tags))

    key_kind :
        (tag value : Bytes)
        → IsTag tag
        → length (key_with tag) < 2 ^ 32
        → write_of prefix index ≡ Write.set_versionstamped_key (stamped (key_with tag)) value
        → expected_mutation prefix index ≡ record {
          type_code = 0;
          param1 = key_with tag ++ stamp_bytes 10;
          param2 = value;
          stamp = some (in_param1 (length (key_with tag)));
        }
        → IsExpected
    unfolding stamped native
    key_kind tag value tags fits written expected =
        let text = key_with tag in
        let (stamp, size, emitted) =
          cdc.stamps_key index text (stamp_bytes 10) (little_endian 4 (length text)) value
            (length-stamp_bytes 10) (length-little_endian 4 (length text))
            (read_little_endian-little_endian (length text) fits) in
        rw written (
          rw emitted (
            Matches-stamp1 text stamp value (expected_mutation prefix index) expected size,
            indexed tag stamp tags,
          ))

    value_kind :
        (tag text : Bytes)
        → IsTag tag
        → length text < 2 ^ 32
        → write_of prefix index ≡ Write.set_versionstamped_value (key_with tag) (stamped text)
        → expected_mutation prefix index ≡ record {
          type_code = 0;
          param1 = key_with tag;
          param2 = text ++ stamp_bytes 10;
          stamp = some (in_param2 (length text));
        }
        → IsExpected
    unfolding stamped native
    value_kind tag text tags fits written expected =
        let (stamp, size, emitted) =
          cdc.stamps_value index (key_with tag) text (stamp_bytes 10)
            (little_endian 4 (length text)) (length-stamp_bytes 10)
            (length-little_endian 4 (length text))
            (read_little_endian-little_endian (length text) fits) in
        rw written (
          rw emitted (
            Matches-stamp2 (key_with tag) text stamp (expected_mutation prefix index) expected size,
            indexed_whole tag tags,
          ))

  pub emitted-IsExpected : index < 100000000 → length prefix < 4294967000 → IsExpected
  unfolding write_of expected_mutation plain plain_operation all_tags
  emitted-IsExpected small short =
      let idx = eight_digits index in
      let le8 = little_endian 8 (index % 2 ^ 32) in
      let key_fits : length (prefix ++ codes "vsk_" ++ idx) < 2 ^ 32 = omega (
        arith,
        length-append (prefix ++ codes "vsk_") idx,
        length-append prefix (codes "vsk_"),
        length-eight_digits index small,
      ) in
      let value_fits : length (codes "vsv_" ++ idx) < 2 ^ 32 =
        omega (arith, length-eight_digits index small) in
      AllBelow-at (λ kind. index % 14 ≡ kind → IsExpected) 14 (index % 14)
        (
          λ e.
              set_kind small (codes "set_b_") (codes "val-b-" ++ in_decimal index) refl (rw e refl)
                (rw e refl),
          (
            λ e.
                atomic_kind small Atomic.byte_max (codes "bmax_") (0xFE ∷ []) refl (rw e refl)
                  (rw e refl),
            (
              λ e.
                  atomic_kind small Atomic.byte_min (codes "bmin_") (0x10 ∷ []) refl (rw e refl)
                    (rw e refl),
              (
                λ e.
                    value_kind small (codes "vsv_") (codes "vsv_" ++ idx) refl value_fits
                      (rw e refl) (rw e refl),
                (
                  λ e.
                      key_kind small (codes "vsk_") (codes "vsk_payload") refl key_fits (rw e refl)
                        (rw e refl),
                  (
                    λ e.
                        atomic_kind small Atomic.min (codes "min_") le8 refl (rw e refl)
                          (rw e refl),
                    (
                      λ e.
                          atomic_kind small Atomic.max (codes "max_") le8 refl (rw e refl)
                            (rw e refl),
                      (
                        λ e.
                            atomic_kind small Atomic.append_if_fits (codes "app_") (codes "chunk")
                              refl (rw e refl) (rw e refl),
                        (
                          λ e.
                              atomic_kind small Atomic.bit_xor (codes "xor_") (0xAA ∷ []) refl
                                (rw e refl) (rw e refl),
                          (
                            λ e.
                                atomic_kind small Atomic.bit_or (codes "or_") (0xF0 ∷ []) refl
                                  (rw e refl) (rw e refl),
                            (
                              λ e.
                                  atomic_kind small Atomic.bit_and (codes "and_") (0x0F ∷ []) refl
                                    (rw e refl) (rw e refl),
                              (
                                λ e.
                                    atomic_kind small Atomic.add (codes "add_") le8 refl (rw e refl)
                                      (rw e refl),
                                (
                                  λ e.
                                      clear_kind small (codes "clr_") (codes "/a") (codes "/z") refl
                                        (rw e refl) (rw e refl),
                                  (
                                    λ e.
                                        set_kind small (codes "set_")
                                          (codes "val-" ++ in_decimal index) refl (rw e refl)
                                          (rw e refl),
                                    tt,
                                  ),
                                ),
                              ),
                            ),
                          ),
                        ),
                      ),
                    ),
                  ),
                ),
              ),
            ),
          ),
        )
        (omega arith) refl

  -- Whatever native CDC emits for the write of an index, within its documented behaviour, is the mutation that
  -- expected_mutation gives for that index, up to the bytes of a stamp. The index has eight digits at most, and
  -- the prefix is short enough for a four-byte offset behind it.
  pub Matches-emitted :
      index < 100000000
      → length prefix < 4294967000
      → Matches (expected_mutation prefix index) (emit index (write_of prefix index))
  Matches-emitted small short = (emitted-IsExpected small short).0
