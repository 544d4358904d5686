-- ===== src/Demo/Workload/Delivery.antt =====
-- Records as they are delivered: versions that ascend, each with its batches and its end.
use kafka_fdb_streamline.Common.{ℕ, suc, ◌+◌, ◌≤◌, none, some, List, [], ◌∷◌, ◌++◌, length, concat}
use kafka_fdb_streamline.Serialization.Model.{Text}
use kafka_fdb_streamline.Serialization.Message.{
  MutationArm, FdbMutation, RecordArm, FdbMutationRecord,
}

-- A version with the batches of its mutations.
abbrev pub Version : Type 0
Version = ℕ × List (List MutationArm)

-- The mutations of a version, numbered from a number on.
abbrev pub numbered : ℕ → ℕ → List MutationArm → List FdbMutation
numbered version n [] = []
numbered version n (arm ∷ rest) =
    record {
      version_index = some (record { fdb_version = version; sequence_no = n });
      mutation = some arm;
    }
    ∷ numbered version (suc n) rest

abbrev pub number_after : ℕ → List (List MutationArm) → ℕ
number_after n [] = n
number_after n (batch ∷ rest) = number_after (n + length batch) rest

-- The records of a version: its batches, then its end with the number of its mutations.
abbrev pub version_records : Text → ℕ → ℕ → List (List MutationArm) → List FdbMutationRecord
version_records stream version n [] =
    record {
      stream_name = stream;
      bridge_timestamp = none;
      record_arm = some (
          RecordArm.version_end
            (record { fdb_version = version; total_mutations = n; bridge_timestamp = none }));
    }
    ∷ []
version_records stream version n (batch ∷ rest) =
    record {
      stream_name = stream;
      bridge_timestamp = none;
      record_arm = some (RecordArm.batch (numbered version n batch));
    }
    ∷ version_records stream version (n + length batch) rest

abbrev pub delivery : Text → List Version → List FdbMutationRecord
delivery stream [] = []
delivery stream ((version, batches) ∷ rest) =
    version_records stream version 0 batches ++ delivery stream rest

-- The mutations of the versions, in order.
abbrev pub arms_of : List Version → List MutationArm
arms_of [] = []
arms_of ((version, batches) ∷ rest) = concat batches ++ arms_of rest

-- Each version is later than the one before, and none is before `low`.
abbrev pub Ascending : ℕ → List Version → Type 0
Ascending low [] = Unit
Ascending low ((version, batches) ∷ rest) = (low ≤ version) × Ascending (suc version) rest
