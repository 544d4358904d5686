-- ===== src/Examples/Workload.antt =====
-- The verifier of the demo workload at concrete records.
use kafka_fdb_streamline.Common.{ℕ, none, some, List, [], ◌∷◌, ℤ, pos, ◌≡◌, refl, arith, inl}
use kafka_fdb_streamline.Common.Texts.{codes, text_eq, starts_with}
use kafka_fdb_streamline.Exec.{ok}
use kafka_fdb_streamline.Serialization.Message.{
  MutationArm, RecordArm, FdbMutation, FdbMutationRecord,
}
use kafka_fdb_streamline.Demo.Workload
use kafka_fdb_streamline.Demo.Workload.Verifier
use kafka_fdb_streamline.Demo.Workload.Totals.{count_version, verify_workload-count_version}
use kafka_fdb_streamline.Demo.Workload.Accepted.{mutations_of, Answered, verify_workload-Answered}

abbrev pub written : FdbMutation
written = record {
  version_index = some (record { fdb_version = 5; sequence_no = 0 });
  mutation =
      some (MutationArm.single_key_mutation (codes "w/set_00000000") (codes "val-0") (pos 0));
}

abbrev pub consumed : List FdbMutationRecord
consumed =
    record {
      stream_name = codes "w";
      bridge_timestamp = none;
      record_arm = some (
          RecordArm.version_end
            (record { fdb_version = 5; total_mutations = 1; bridge_timestamp = none }));
    }
    ∷ record {
      stream_name = codes "w";
      bridge_timestamp = none;
      record_arm = some (RecordArm.mutation written);
    }
    ∷ []

abbrev pub counts : ℤ → ℕ
counts code = Verifier.type_count code (pos 0 ∷ [])

pub accepted : Verifier.verify_workload consumed (codes "w/") 1 ≡ ok counts
unfolding Verifier.verify_workload Verifier.verify_all Verifier.check_records Verifier.check_record
    Verifier.check_all Verifier.check Verifier.add_total Verifier.assert_complete Verifier.all_ended
    Verifier.all_below Verifier.all_there Verifier.reconciled Verifier.sum_totals
    Verifier.has_version Verifier.has_pair Verifier.has Verifier.version_of Verifier.found
    Verifier.workload_index Verifier.index_in_key Verifier.or_else Verifier.digits Verifier.is_tag
    Verifier.native Verifier.is_unexpected Workload.matches Workload.params_match
    Workload.same_outside Workload.expected_mutation Workload.plain Workload.plain_operation
    Workload.exactly Workload.eight_digits Workload.in_decimal Workload.decimal Workload.zeros
    Workload.little_endian Workload.stamp_bytes text_eq starts_with
accepted = refl

verify_workload-Answered_example : Answered (codes "w/") (mutations_of consumed) 0
verify_workload-Answered_example =
    verify_workload-Answered consumed (codes "w/") 1 counts 0 accepted (omega arith)

verify_workload-count_version_example : count_version 5 consumed ≡ 1
verify_workload-count_version_example =
    verify_workload-count_version consumed (codes "w/") 1 counts 5 1 accepted (inl (refl, refl))
