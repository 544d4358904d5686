-- ===== src/Serialization/Decoded.antt =====
-- What a batch that the decoder returns is like.
use kafka_fdb_streamline.Common.{
  ℕ, ◌+◌, not, ◌&&◌, ◌==◌, some, List, [], ◌∷◌, ◌≡◌, subst, ap, arith,
}
use kafka_fdb_streamline.Errors.{SerializationError, record_decode, inconsistent_batch}
use kafka_fdb_streamline.Serialization.Checked.{valid, invalid, refuse, bind_valid}
use kafka_fdb_streamline.Serialization.Model.{VersionIndex, Mutation, RecordBody}
use kafka_fdb_streamline.Serialization.Message.{FdbMutation}
use kafka_fdb_streamline.Serialization.Deserializer.{
  decode_mutations, check_consistent, check_batch, decode_batch,
}
use kafka_fdb_streamline.Serialization.RoundTrip.{IsNumbered}

agrees :
    (a b c d : ℕ) (e : SerializationError) (x : Unit {0})
    → refuse (not (a == b && c == d)) e ≡ valid x
    → (a ≡ b) × (c ≡ d)
agrees a b c d e x h = ground arith

index_is :
    (i : VersionIndex) (v s : ℕ)
    → (i.fdb_version ≡ v) × (i.sequence_no ≡ s)
    → i ≡ record { fdb_version = v; sequence_no = s }
index_is i v s h = cc (h.0, h.1)

plus_assoc : (a i : ℕ) → a + (i + 1) ≡ a + i + 1
plus_assoc a i = omega arith

consistent-IsNumbered :
    (ms : List Mutation) (first : VersionIndex) (i : ℕ)
    → check_consistent first ms i ≡ valid tt
    → IsNumbered first.fdb_version (first.sequence_no + i) ms
unfolding check_consistent
consistent-IsNumbered [] first i h = tt
consistent-IsNumbered (m ∷ rest) first i h =
    let (_, agreed, others) =
      bind_valid
        (refuse
          (not (
            m.version_index.fdb_version == first.fdb_version
            && m.version_index.sequence_no == first.sequence_no + i))
          (record_decode inconsistent_batch (some i)))
        _ h in
    (
      index_is m.version_index _ _ (agrees _ _ _ _ _ _ agreed),
      subst (λ n. IsNumbered first.fdb_version n rest) (plus_assoc first.sequence_no i)
          (consistent-IsNumbered rest first (i + 1) others),
    )

-- A batch with mutations, whose version indexes are consecutive from that of the first.
abbrev pub IsConsecutive : RecordBody → Type 0
IsConsecutive (RecordBody.batch (m ∷ rest)) =
    IsNumbered m.version_index.fdb_version m.version_index.sequence_no (m ∷ rest)
IsConsecutive _ = ⊥

valid-injective : {A : Type 0} {x y : A} → valid x ≡ valid y → x ≡ y
valid-injective {x} h = ap (λ r. elim r [ valid a ↦ a | invalid _ ↦ x ]) h

plus_zero : (n : ℕ) → n + 0 ≡ n
plus_zero n = omega arith

check_batch-IsConsecutive :
    (ms : List Mutation) (body : RecordBody) → check_batch ms ≡ valid body → IsConsecutive body
unfolding check_batch
check_batch-IsConsecutive [] body h = cc h
check_batch-IsConsecutive (m ∷ rest) body h =
    let (_, consistent, same) = bind_valid (check_consistent m.version_index (m ∷ rest) 0) _ h in
    subst IsConsecutive (valid-injective same) (
      subst (λ n. IsNumbered m.version_index.fdb_version n (m ∷ rest))
        (plus_zero m.version_index.sequence_no)
        (consistent-IsNumbered (m ∷ rest) m.version_index 0 consistent))

-- A batch that the decoder accepts is not empty, and its mutations stand at consecutive sequence numbers
-- of one version.
pub decode_batch-IsConsecutive :
    (messages : List FdbMutation) (body : RecordBody)
    → decode_batch messages ≡ valid body
    → IsConsecutive body
unfolding decode_batch
decode_batch-IsConsecutive messages body h =
    let (ms, _, checked) = bind_valid (decode_mutations messages 0) _ h in
    check_batch-IsConsecutive ms body checked
