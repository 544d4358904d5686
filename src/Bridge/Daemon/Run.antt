-- ===== src/Bridge/Daemon/Run.antt =====
-- bridge/pipeline.py, class Bridge: run and _needs_rebuild.
use kafka_fdb_streamline.Common.{
  ⊤, ℕ, zero, suc, ◌+◌, Bool, true, false, ◌&&◌, ◌||◌, not, Option, some, List, [], ◌∷◌, is_empty,
  if◌then◌else◌, length,
}
use kafka_fdb_streamline.Errors.{
  Exn, runtime_error, not_started, value_error, cdc, terminal, kafka_exception, buffer_error,
}
use kafka_fdb_streamline.Exec.{pure, raise, gets, catch, raise_if, ◌>>=◌, ◌>>◌}
use kafka_fdb_streamline.Serialization.Message.{FdbMutationRecord, RecordArm}
use kafka_fdb_streamline.Kafka.Faults.{is_fatal_kafka_error}
use kafka_fdb_streamline.Bridge.Daemon.{Setup, Daemon, D, change, request_shutdown}
use kafka_fdb_streamline.Bridge.Daemon.Build.{rebuild, step}

-- `len(record.batch.mutations)`, or 1 for a single mutation.
unfoldable pub mutations_in : Option RecordArm → ℕ
mutations_in (some (RecordArm.batch mutations)) = length mutations
mutations_in (some (RecordArm.mutation _)) = 1
mutations_in _ = 0

unfoldable pub mutations_of : List FdbMutationRecord → ℕ
mutations_of [] = 0
mutations_of (message ∷ rest) = mutations_in message.record_arm + mutations_of rest

unfoldable pub is_kafka_or_buffer_error : Exn → Bool
is_kafka_or_buffer_error (kafka_exception _) = true
is_kafka_or_buffer_error buffer_error = true
is_kafka_or_buffer_error _ = false

-- The exceptions that end `run`: a CDCTerminalError, a fatal KafkaException, and a ValueError that is no
-- SerializationError.
unfoldable pub is_permanent : Exn → Bool
is_permanent (cdc (terminal code)) = true
is_permanent value_error = true
is_permanent e = is_fatal_kafka_error e

-- `self._counting_listener.pop_last_records()`, where something was published.
unfoldable pub pop_records : ℕ → D (List FdbMutationRecord)
pop_records zero = pure []
pop_records (suc _) = do
  records ← gets (λ d. d.last_records)
  change (λ d. record d { last_records = [] })
  pure records

-- The metrics of a step; a step that published nothing counts nothing.
unfoldable pub count_step : ℕ → List FdbMutationRecord → D ⊤
count_step zero records = pure tt
count_step (suc published) records = change (λ d. record d {
  metrics = record d.metrics {
    mutations_published = d.metrics.mutations_published + mutations_of records;
    records_published =
        d.metrics.records_published + (if is_empty records then suc published else length records);
    batches_acked = d.metrics.batches_acked + 1;
  };
})

-- `_needs_rebuild`
unfoldable pub needs_rebuild : Exn → Daemon → Bool
needs_rebuild e d =
    (not d.has_producer || not d.has_listener || not d.has_pipeline)
    || (d.world.producer.closed || d.world.producer.fatal || d.world.listener.delivery_failed)
    || (d.world.listener.awaiting_ack
        && not d.world.pipeline.commit_outstanding
        && is_kafka_or_buffer_error e)

-- Its handlers.
unfoldable pub on_error : Exn → D ⊤
on_error e =
    if is_permanent e
    then change request_shutdown >> raise e
    else change (λ d. record d {
      metrics = record d.metrics { errors_retried = d.metrics.errors_retried + 1 };
      rebuild_pending = d.rebuild_pending || needs_rebuild e d;
    })

module _ (setup : Setup) where
  -- The `try` of the loop of `run`.
  unfoldable pub try_step : D ⊤
  try_step = do
    d ← gets (λ d. d)
    if d.rebuild_pending || not d.has_pipeline then rebuild setup else pure tt
    change (λ d. record d { rebuild_pending = false })
    published ← step setup
    records ← pop_records published
    count_step published records

  -- One turn of the loop, before which another thread may have requested the shutdown.
  unfoldable pub turn : Bool → D ⊤
  turn requested = do
    change (λ d. record d { shutdown_requested = d.shutdown_requested || requested })
    d ← gets (λ d. d)
    if d.shutdown_requested then pure tt else catch try_step on_error

  -- The loop of `run`, for as many turns as it is watched.
  unfoldable pub turns : List Bool → D ⊤
  turns [] = pure tt
  turns (requested ∷ rest) = do turn requested; turns rest

  unfoldable pub run : List Bool → D ⊤
  run schedule = do
    d ← gets (λ d. d)
    raise_if (not d.has_listener || not d.has_producer || not d.has_pipeline)
        (runtime_error not_started)
    change (λ d. record d { rebuild_pending = false })
    turns schedule
