-- ===== src/Bridge/Pipeline.antt =====
-- bridge/pipeline.py, class BridgePipeline: poll, produce, commit or flush, checkpoint, acknowledge.
-- Delays and logging are left out.
use kafka_fdb_streamline.Common.{
  ⊤, ℕ, zero, suc, true, false, ◌||◌, Option, none, some, List, [], ◌∷◌, if◌then◌else◌, is_empty,
  length, ltb,
}
use kafka_fdb_streamline.Errors.{
  Exn, kafka_exception, buffer_error, timeout_error, runtime_error, value_error, cdc, retryable,
  other_error,
}
use kafka_fdb_streamline.Exec.{Result, ok, err, pure, raise, gets, catch, modify, ◌>>=◌, ◌>>◌}
use kafka_fdb_streamline.Serialization.Model.{Bytes}
use kafka_fdb_streamline.Serialization.Message.{FdbMutationRecord, Protobuf}
use kafka_fdb_streamline.World.{Cursor, Event, Env, Listener, Pipeline, M}
use kafka_fdb_streamline.Kafka.Faults.{is_fatal_kafka_error, kafka_error, commit_may_retry}
use kafka_fdb_streamline.Kafka.Producer
use kafka_fdb_streamline.Cdc.Listener

-- A change of the pipeline's attributes.
unfoldable pub update : (Pipeline → Pipeline) → M ⊤
unfolding modify
update f = modify (λ w. record w { pipeline = f w.pipeline })

-- `_require_retries`, of an int.
unfoldable pub require_retries : ℕ → Result ⊤
require_retries value = if ltb value 1 then err value_error else ok tt

-- `_resolve_partition_key`: the given key, or else the listener's stream name.
unfoldable pub resolve_partition_key : Listener → Option Bytes → Result Bytes
resolve_partition_key l (some key) = if is_empty key then err value_error else ok key
resolve_partition_key l none =
    if is_empty l.raw_stream_name then err value_error else ok l.raw_stream_name

unfoldable pub clear_outstanding : M ⊤
clear_outstanding = update (λ p. record p { commit_outstanding = false })

-- `except CDCRetryableError`
unfoldable pub on_ack_error : M ⊤ → Exn → M ⊤
on_ack_error again (cdc (retryable code)) = again
on_ack_error again e = raise e

module _ (env : Env) where
  -- `_abort_and_raise`
  unfoldable pub abort_and_raise : Exn → M ⊤
  abort_and_raise e =
      if is_fatal_kafka_error e
      then Producer.mark_fatal >> raise e
      else Producer.abort_transaction env >> raise e

  -- The loop of `_produce_all`.
  unfoldable pub produce_all : Protobuf → List FdbMutationRecord → M ⊤
  produce_all pb [] = pure tt
  produce_all pb (message ∷ rest) = do
    p ← gets (λ w. w.pipeline)
    Producer.produce env pb p.topic message (some p.partition_key)
    produce_all pb rest

  -- `except (KafkaException, BufferError, TimeoutError, RuntimeError): self._producer.close(); raise`
  unfoldable pub close_producer_and_raise : Exn → M ⊤
  close_producer_and_raise (kafka_exception error) =
      Producer.close env >> raise (kafka_exception error)
  close_producer_and_raise buffer_error = Producer.close env >> raise buffer_error
  close_producer_and_raise timeout_error = Producer.close env >> raise timeout_error
  close_producer_and_raise (runtime_error reason) =
      Producer.close env >> raise (runtime_error reason)
  close_producer_and_raise e = raise e

  unfoldable pub produce_and_flush : Protobuf → List FdbMutationRecord → M ⊤
  produce_and_flush pb messages = do
    catch (produce_all pb messages >> Producer.flush_or_raise env) close_producer_and_raise
    update (λ p. record p { delivered_unacked = true })

  -- `except (KafkaException, BufferError) as exc: self._abort_and_raise(exc)`
  unfoldable pub abort_batch : Exn → M ⊤
  abort_batch (kafka_exception error) = abort_and_raise (kafka_exception error)
  abort_batch buffer_error = abort_and_raise buffer_error
  abort_batch e = raise e

  unfoldable pub begin_and_produce : Protobuf → List FdbMutationRecord → M ⊤
  begin_and_produce pb messages = do
    Producer.begin_transaction env
    catch (produce_all pb messages) abort_batch
    update (λ p. record p { commit_outstanding = true })

  -- A KafkaException of the commit, after which `again` makes the next attempt.
  unfoldable pub commit_failed : M ⊤ → Exn → M ⊤
  commit_failed again e =
      if is_fatal_kafka_error e
      then clear_outstanding >> Producer.mark_fatal >> raise e
      else if commit_may_retry (kafka_error e)
      then again
      else clear_outstanding >> abort_and_raise e

  -- The handlers of `_commit_with_retry`.
  unfoldable pub on_commit_error : M ⊤ → Exn → M ⊤
  on_commit_error again (kafka_exception error) = commit_failed again (kafka_exception error)
  on_commit_error again (runtime_error reason) = clear_outstanding >> raise (runtime_error reason)
  on_commit_error again e = raise e

  -- `_commit_with_retry` with the attempts that are left, and the exception of the last one.
  unfoldable pub commit_attempts : ℕ → Exn → M ⊤
  commit_attempts zero last_exc w = (err last_exc, w)
  commit_attempts (suc attempts) last_exc w =
      let (r, w') = Producer.commit_transaction env w in
      elim r [ ok _ ↦ (ok tt, w') | err e ↦ on_commit_error (commit_attempts attempts e) e w' ]

  unfoldable pub commit_with_retry : M ⊤
  commit_with_retry = do
    retries ← gets (λ w. w.pipeline.commit_retries)
    commit_attempts retries other_error

  -- `_acknowledge_with_retry` with the attempts that are left, and the exception of the last one.
  unfoldable pub ack_attempts : ℕ → Exn → M ⊤
  ack_attempts zero last_err w = (err last_err, w)
  ack_attempts (suc attempts) last_err w =
      let (r, w') = Listener.acknowledge env w in
      elim r [ ok _ ↦ (ok tt, w') | err e ↦ on_ack_error (ack_attempts attempts e) e w' ]

  unfoldable pub acknowledge_with_retry : M ⊤
  acknowledge_with_retry = do
    retries ← gets (λ w. w.pipeline.ack_retries)
    ack_attempts retries other_error

  -- The checkpoint callback.
  unfoldable pub save_checkpoint : Option Cursor → M ⊤
  save_checkpoint cursor w =
      let reply = env.checkpoint w.trace cursor in
      (reply, record w { trace = Event.checkpoint_saved cursor reply ∷ w.trace })

  unfoldable pub checkpoint : M ⊤
  checkpoint = do
    cursor ← Listener.get_position env
    save_checkpoint cursor
    update (λ p. record p { checkpointed = true })

  unfoldable pub checkpoint_and_acknowledge : M ⊤
  checkpoint_and_acknowledge = do
    done ← gets (λ w. w.pipeline.checkpointed)
    if done then pure tt else checkpoint
    acknowledge_with_retry
    update (λ p. record p { checkpointed = false })

  -- `if self._commit_outstanding:` of `_finish_delivery`
  unfoldable pub commit_if_outstanding : M ⊤
  commit_if_outstanding = do
    outstanding ← gets (λ w. w.pipeline.commit_outstanding)
    if outstanding
        then (do
          commit_with_retry
          update (λ p. record p { commit_outstanding = false; delivered_unacked = true }))
        else pure tt

  unfoldable pub finish_delivery : M ℕ
  finish_delivery = do
    commit_if_outstanding
    checkpoint_and_acknowledge
    update (λ p. record p { delivered_unacked = false })
    gets (λ w. w.pipeline.pending_count)

  unfoldable pub deliver : Protobuf → List FdbMutationRecord → M ℕ
  deliver pb [] = pure 0
  deliver pb (message ∷ rest) = do
    transactional ← gets (λ w. w.producer.transactional)
    if transactional
        then begin_and_produce pb (message ∷ rest)
        else produce_and_flush pb (message ∷ rest)
    update (λ p. record p { pending_count = length (message ∷ rest) })
    finish_delivery

  unfoldable pub step : Protobuf → M ℕ
  step pb = do
    p ← gets (λ w. w.pipeline)
    if p.commit_outstanding || p.delivered_unacked
        then finish_delivery
        else do messages ← Listener.poll_records env pb none; deliver pb messages
