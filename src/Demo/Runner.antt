-- ===== src/Demo/Runner.antt =====
-- demo/run_demo.py: _stop_bridge, and what run_demo checks once all is published.
use kafka_fdb_streamline.Common.{
  ◌<◌, ⊤, ℕ, Bool, not, Option, none, some, List, [], ◌∷◌, length, take, ltb, ◌==◌, All, ◌≡◌,
  if◌then◌else◌, ℤ,
}
use kafka_fdb_streamline.Errors.{runtime_error, bridge_failed, timeout_error, other_error}
use kafka_fdb_streamline.Exec.{Result, ok, err, pure}
use kafka_fdb_streamline.Exec.Outcome.{◌>>=◌, ◌>>◌, refuse_if, bind_ok, guard_ok}
use kafka_fdb_streamline.Serialization.Model.{Bytes}
use kafka_fdb_streamline.Serialization.Message.{FdbMutationRecord, Protobuf}
use kafka_fdb_streamline.Bridge.Daemon.{Setup, D, logged}
use kafka_fdb_streamline.Bridge.Daemon.Stop
use kafka_fdb_streamline.Demo.Consumer.{Polled, consume_records}
use kafka_fdb_streamline.Demo.Consumer.Received.{received, consume_records-received}
use kafka_fdb_streamline.Demo.Workload.Verifier.{verify_workload}
use kafka_fdb_streamline.Demo.Workload.Accepted.{
  mutations_of, IsWritten, verify_workload-written, Answered, verify_workload-Answered,
}

-- One look of run_demo's wait at the bridge: what it has published, whether its thread failed, and whether the
-- deadline has passed.
pub record Look : Type 0 where
  pub published : ℕ
  pub has_failed : Bool
  pub is_late : Bool

-- `while bridge.mutations_published < count`; `none` if it still waits after these looks.
unfoldable pub wait_published : ℕ → List Look → Option (Result ⊤)
wait_published count [] = none
wait_published count (look ∷ looks) =
    let rest = wait_published count looks in
    if not (ltb look.published count)
    then some (ok tt)
    else if look.has_failed
    then some (err (runtime_error bridge_failed))
    else if look.is_late
    then some (err timeout_error)
    else rest

-- The checks of run_demo after the wait: on the thread, on what Kafka has, and on the workload.
unfoldable pub check_run : Protobuf → Bytes → ℕ → ℕ → Bool → Bool → List Polled → Result (ℤ → ℕ)
check_run pb prefix count published is_alive has_failed rounds = do
  refuse_if is_alive timeout_error
  refuse_if has_failed (runtime_error bridge_failed)
  records ← consume_records pb published rounds
  refuse_if (not (published == count)) other_error
  verify_workload records prefix count

-- `_stop_bridge`, where `is_alive` is whether the thread that runs the bridge is there and alive.
unfoldable pub stop_bridge : Setup → Bool → Bool → Bool → Bool → ℕ → D ⊤
stop_bridge setup has_bridge is_alive at_once later timeout =
    if not has_bridge
    then pure tt
    else if is_alive
    then pure tt
    else logged (Stop.stop setup at_once later timeout)

-- If the checks of run_demo pass, the messages of the first polls are records with as many mutations as the
-- count, each of which the workload writes under an index below it, and for each such index there is one
-- that the workload writes under that index.
pub check_run-written :
    (pb : Protobuf) (prefix : Bytes) (count published : ℕ) (is_alive has_failed : Bool)
    (rounds : List Polled) (counts : ℤ → ℕ)
    → check_run pb prefix count published is_alive has_failed rounds ≡ ok counts
    → (n : ℕ) × (records : List FdbMutationRecord) × (received pb (take n rounds) ≡ some records)
      × (length (mutations_of records) ≡ count)
      × All (IsWritten prefix count) (mutations_of records)
      × ((index : ℕ) → index < count → Answered prefix (mutations_of records) index)
unfolding check_run
check_run-written pb prefix count published is_alive has_failed rounds counts passed =
    let (_, h1) = guard_ok is_alive timeout_error _ passed in
    let (_, h2) = guard_ok has_failed (runtime_error bridge_failed) _ h1 in
    let (records, consumed, h3) = bind_ok (consume_records pb published rounds) _ h2 in
    let (_, h4) = guard_ok (not (published == count)) other_error _ h3 in
    let (n, read, _) = consume_records-received pb published rounds records consumed in
    let (all, written) = verify_workload-written records prefix count counts h4 in
    (
      n,
      records,
      read,
      all,
      written,
      λ index small. verify_workload-Answered records prefix count counts index h4 small,
    )
