-- ===== src/Demo/Consumer.antt =====
-- demo/run_demo.py, _consume_records. The rounds of its loop are the answers of the polls that begin before the
-- deadline, in order: the loop ends where they do.
pub mod Received
use kafka_fdb_streamline.Common.{
  ℕ, suc, ◌+◌, ◌-◌, Bool, true, false, ◌&&◌, Option, none, some, List, [], ◌∷◌, ◌++◌, length, ltb,
  leb, if◌then◌else◌,
}
use kafka_fdb_streamline.Errors.{
  KafkaError, kafka_exception, runtime_error, no_record_value, timeout_error, other_error,
}
use kafka_fdb_streamline.Exec.{Result, ok, err}
use kafka_fdb_streamline.Exec.Outcome.{◌>>=◌, ◌>>◌, refuse_if}
use kafka_fdb_streamline.Serialization.Model.{Bytes}
use kafka_fdb_streamline.Serialization.Message.{RecordArm, FdbMutationRecord, Protobuf}

-- What a poll gives: None, a message with an error, or a message with its value.
pub data Polled : Type 0 where
  no_message : Polled
  failed : KafkaError → Polled
  message : Option Bytes → Polled

-- The local variables of the loop.
pub record Consumed : Type 0 where
  pub records : List FdbMutationRecord
  pub total_mutations : ℕ
  pub idle_streak : ℕ

unfoldable pub added_mutations : Option RecordArm → ℕ
added_mutations (some (RecordArm.batch mutations)) = length mutations
added_mutations (some (RecordArm.mutation _)) = 1
added_mutations _ = 0

module _ (pb : Protobuf) (min_expected : ℕ) where
  -- `FDBMutationRecord.FromString(value)`, which raises a DecodeError.
  unfoldable pub parsed : Option Bytes → Result FdbMutationRecord
  parsed none = err (runtime_error no_record_value)
  parsed (some value) = elim (pb.parse value) [ none ↦ err other_error | some m ↦ ok m ]

  -- A message that has been read.
  unfoldable pub add_record : Consumed → FdbMutationRecord → Consumed
  add_record c m = record {
    records = c.records ++ m ∷ [];
    total_mutations = c.total_mutations + added_mutations m.record_arm;
    idle_streak = 0;
  }

  -- A poll without a message.
  unfoldable pub idle : Consumed → Consumed
  idle c =
      if leb min_expected c.total_mutations then record c { idle_streak = c.idle_streak + 1 } else c

  unfoldable pub consume_loop : List Polled → Consumed → Result Consumed
  consume_loop [] c = ok c
  consume_loop (no_message ∷ rounds) c =
      let rest = consume_loop rounds (idle c) in
      if leb min_expected c.total_mutations && leb 3 (c.idle_streak + 1) then ok (idle c) else rest
  consume_loop (failed error ∷ rounds) c = err (kafka_exception (some error))
  consume_loop (message value ∷ rounds) c = do
    m ← parsed value
    let c' = add_record c m
    let rest = consume_loop rounds c'
    if leb min_expected c'.total_mutations && leb 2 c'.idle_streak then ok c' else rest

  unfoldable pub consume_records : List Polled → Result (List FdbMutationRecord)
  consume_records rounds = do
    c ← consume_loop rounds (record { records = []; total_mutations = 0; idle_streak = 0 })
    refuse_if (ltb c.total_mutations min_expected) timeout_error
    ok c.records
