-- ===== src/Demo/EndToEnd.antt =====
-- From _write_samples of demo/run_demo.py, through what native CDC emits, to verify_workload of demo/workload.py.
use kafka_fdb_streamline.Common.{
  ℕ, zero, suc, ◌+◌, ◌≤◌, ◌<◌, List, [], ◌∷◌, length, concat, ◌≡◌, refl, ap, subst, sym, ◌∙◌, arith,
  ℤ,
}
use kafka_fdb_streamline.Exec.{ok}
use kafka_fdb_streamline.Serialization.Model.{Bytes, Text}
use kafka_fdb_streamline.Serialization.Message.{MutationArm}
use kafka_fdb_streamline.Demo.Workload.Verifier.{verify_workload}
use kafka_fdb_streamline.Demo.Workload.Delivery.{Version, Ascending, arms_of, delivery}
use kafka_fdb_streamline.Demo.Workload.Complete.{AllAccepted, verify_workload-delivery}
use kafka_fdb_streamline.Demo.Writer.{Write, commit_chunk, write_samples}
use kafka_fdb_streamline.Demo.Writer.Chunks.{write_samples-concat}
use kafka_fdb_streamline.Demo.Native.{IsNative}
use kafka_fdb_streamline.Demo.Native.Expected.{emitted-IsExpected}

-- What is emitted for writes, the first of which has the index.
abbrev pub emitted : (ℕ → Write → MutationArm) → ℕ → List Write → List MutationArm
emitted emit index [] = []
emitted emit index (write ∷ rest) = emit index write ∷ emitted emit (suc index) rest

module _ (emit : ℕ → Write → MutationArm) (cdc : IsNative emit) (prefix : Bytes)
    (short : length prefix < 4294967000) (count : ℕ) (few : count ≤ 100000000) where
  emitted-AllAccepted :
      (index size : ℕ)
      → index + size ≤ count
      → AllAccepted prefix count index (emitted emit index (commit_chunk prefix index size))
  unfolding commit_chunk
  emitted-AllAccepted index zero within = tt
  emitted-AllAccepted index (suc size) within =
      let (matching, read) = emitted-IsExpected emit cdc prefix index (omega arith) short in
      ((omega arith, matching, read), emitted-AllAccepted (suc index) size (omega arith))

  length-emitted :
      (index size : ℕ) → length (emitted emit index (commit_chunk prefix index size)) ≡ size
  unfolding commit_chunk
  length-emitted index zero = refl
  length-emitted index (suc size) = ap suc (length-emitted (suc index) size)

  -- The verifier accepts the workload that was written: if the records have what native CDC emits for the
  -- transactions of _write_samples, in order, in versions that ascend, in any batches and each version with its end,
  -- then verify_workload returns. The count is at most 10 ^ 8, and the prefix leaves room for a four-byte offset.
  pub verify_workload-write_samples :
      (stream : Text) (versions : List Version)
      → Ascending 0 versions
      → arms_of versions ≡ emitted emit 0 (concat (write_samples prefix count))
      → (counts : ℤ → ℕ) × (verify_workload (delivery stream versions) prefix count ≡ ok counts)
  verify_workload-write_samples stream versions ascending arrived =
      let arms : arms_of versions ≡ emitted emit 0 (commit_chunk prefix 0 count) =
        arrived ∙ ap (emitted emit 0) (write_samples-concat prefix count) in
      verify_workload-delivery prefix count stream versions ascending
        (subst (AllAccepted prefix count 0) (sym arms) (emitted-AllAccepted 0 count (omega arith)))
        (ap length arms ∙ length-emitted 0 count)
