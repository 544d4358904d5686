-- ===== src/Bridge/Sound/Step.antt =====
-- A step of the pipeline keeps the invariant of the process, whether it returns or raises.
use kafka_fdb_streamline.Common.{⊤, Bool, true, false, ap, some, List, [], ◌∷◌}
use kafka_fdb_streamline.Errors.{Exn, kafka_exception, buffer_error, timeout_error, runtime_error}
use kafka_fdb_streamline.Exec.{raise, gets, ◌>>◌}
use kafka_fdb_streamline.Exec.Ends.{
  Ends, Ends_of_Keeps, Ends-weaken, Ends-raise, Ends-gets, Ends-read, Ends-return, Ends-catch,
  Ends-bind, Ends-then, Ends-known,
}
use kafka_fdb_streamline.Serialization.Message.{FdbMutationRecord, Protobuf}
use kafka_fdb_streamline.World.{Env, Pipeline, World}
use kafka_fdb_streamline.Kafka.Producer
use kafka_fdb_streamline.Bridge.Pipeline
use kafka_fdb_streamline.Bridge.Monitor.{Phase, taken}
use kafka_fdb_streamline.Bridge.Sound.Kafka.{close-IsCore}
use kafka_fdb_streamline.Bridge.Sound.Ack.{IsIdle, IsWaiting}
use kafka_fdb_streamline.Bridge.Sound.Mode.{InMode}
use kafka_fdb_streamline.Bridge.Sound.Txn.{
  produce-Ends, begin_transaction-Ends, flush_or_raise-Ends,
}
use kafka_fdb_streamline.Bridge.Sound.Stages.{
  IsIdle-AtRest, Resting-IsSound, commit_with_retry-Ends, checkpoint-Ends, acknowledge-Saved,
  abort_and_raise-Ends,
}
use kafka_fdb_streamline.Bridge.Sound.Flags.{
  flags, Outstanding, Confirmed, Saved, Resting, IsSound, changed-IsIdle, AtRest, update-IsWaiting,
}

module _ (p : Pipeline) (env : Env) where
  Finished : ⊤ → World → Type 0
  Finished _ = IsIdle (flags p false true false)

  Confirmed-Ends : Ends (Confirmed p) (Pipeline.checkpoint_and_acknowledge env) Finished IsSound
  unfolding Pipeline.checkpoint_and_acknowledge Finished
  Confirmed-Ends =
      Ends-known _ false _ (λ w h. ap (λ (q : Pipeline). q.checkpointed) h.core.pipeline)
        (Ends-then _ _ (checkpoint-Ends p env) (acknowledge-Saved p env))

  Saved-Ends : Ends (Saved p) (Pipeline.checkpoint_and_acknowledge env) Finished IsSound
  unfolding Pipeline.checkpoint_and_acknowledge Finished
  Saved-Ends =
      Ends-known _ true _ (λ w h. ap (λ (q : Pipeline). q.checkpointed) h.core.pipeline)
        (Ends-then _ _ (Ends-return (Saved p) tt) (acknowledge-Saved p env))

  -- The end of finish_delivery.
  finished-Ends :
      Ends
        (IsIdle (flags p false true false))
        (do
          Pipeline.update (λ p. record p { delivered_unacked = false })
          gets (λ w. w.pipeline.pending_count))
        (λ _. AtRest)
        IsSound
  finished-Ends =
      Ends-then _ _ (changed-IsIdle (λ p. record p { delivered_unacked = false }))
        (Ends-gets _ (IsIdle-AtRest p))

  pub finish-Outstanding : Ends (Outstanding p) (Pipeline.finish_delivery env) (λ _. AtRest) IsSound
  unfolding Pipeline.finish_delivery Pipeline.commit_if_outstanding Finished
  finish-Outstanding =
      Ends-then _ _
        (Ends-known _ true _ (λ w h. ap (λ (q : Pipeline). q.commit_outstanding) h.core.pipeline)
          (Ends-then _ _ (commit_with_retry-Ends p env) (
            update-IsWaiting
              (λ p. record p { commit_outstanding = false; delivered_unacked = true }))))
        (Ends-then _ _ Confirmed-Ends finished-Ends)

  pub finish-Confirmed : Ends (Confirmed p) (Pipeline.finish_delivery env) (λ _. AtRest) IsSound
  unfolding Pipeline.finish_delivery Pipeline.commit_if_outstanding Finished
  finish-Confirmed =
      Ends-then _ _
        (Ends-known _ false _ (λ w h. ap (λ (q : Pipeline). q.commit_outstanding) h.core.pipeline)
          (Ends-return (Confirmed p) tt))
        (Ends-then _ _ Confirmed-Ends finished-Ends)

  pub finish-Saved : Ends (Saved p) (Pipeline.finish_delivery env) (λ _. AtRest) IsSound
  unfolding Pipeline.finish_delivery Pipeline.commit_if_outstanding Finished
  finish-Saved =
      Ends-then _ _
        (Ends-known _ false _ (λ w h. ap (λ (q : Pipeline). q.commit_outstanding) h.core.pipeline)
          (Ends-return (Saved p) tt))
        (Ends-then _ _ Saved-Ends finished-Ends)

-- What `deliver` starts from: a reply was taken, and the flags are clear.
abbrev pub Polled : Pipeline → Bool → World → Type 0
Polled p b = InMode (flags p false false false) b taken

module _ (p : Pipeline) (env : Env) (b : Bool) where
  produce_all-Ends :
      (pb : Protobuf) (messages : List FdbMutationRecord)
      → Ends (Polled p b) (Pipeline.produce_all env pb messages) (λ _. Polled p b) (Resting p)
  unfolding Pipeline.produce_all
  produce_all-Ends pb [] = Ends-return (Polled p b) tt
  produce_all-Ends pb (message ∷ rest) = Ends-bind _ _ (Ends-read (Polled p b) _) λ q.
      Ends-then _ _ (produce-Ends b env pb q.topic message (some q.partition_key))
        (produce_all-Ends pb rest)

mode-update :
    {p : Pipeline} {b : Bool} {phase : Phase} {R : World → Type 0} (f : Pipeline → Pipeline)
    → Ends (InMode p b phase) (Pipeline.update f) (λ _. IsWaiting (f p) phase) R
mode-update f = record { at = λ w h. (update-IsWaiting f).at w h.waiting }

module _ (p : Pipeline) (env : Env) where
  -- A batch that was not begun or not produced is aborted; nothing of it counts as pending.
  abort_batch-Ends :
      {Q : ⊤ → World → Type 0} (e : Exn) → Ends (Resting p) (Pipeline.abort_batch env e) Q IsSound
  unfolding Pipeline.abort_batch
  abort_batch-Ends (kafka_exception error) = abort_and_raise-Ends p env _
  abort_batch-Ends buffer_error = abort_and_raise-Ends p env _
  abort_batch-Ends e = Ends-raise e (Resting-IsSound p)

  close_and_raise :
      {Q : ⊤ → World → Type 0} (e : Exn)
      → Ends (Resting p) (Producer.close env >> raise e) Q IsSound
  close_and_raise e =
      Ends-then _ _
        (Ends-weaken (λ _ _ h. h) (Resting-IsSound p) (Ends_of_Keeps (close-IsCore _ env)))
        (Ends-raise e (Resting-IsSound p))

  pub begin_and_produce-Ends :
      (pb : Protobuf) (messages : List FdbMutationRecord)
      → Ends
          (Polled p true)
          (Pipeline.begin_and_produce env pb messages)
          (λ _. Outstanding p)
          IsSound
  unfolding Pipeline.begin_and_produce
  begin_and_produce-Ends pb messages =
      Ends-then _ _ (Ends-weaken (λ _ _ h. h) (Resting-IsSound p) (begin_transaction-Ends true env))
        (Ends-then _ _ (Ends-catch _ _ (produce_all-Ends p env true pb messages) abort_batch-Ends)
          (mode-update (λ p. record p { commit_outstanding = true })))

  close_and_raise-Ends :
      {Q : ⊤ → World → Type 0} (e : Exn)
      → Ends (Resting p) (Pipeline.close_producer_and_raise env e) Q IsSound
  unfolding Pipeline.close_producer_and_raise
  close_and_raise-Ends (kafka_exception error) = close_and_raise _
  close_and_raise-Ends buffer_error = close_and_raise _
  close_and_raise-Ends timeout_error = close_and_raise _
  close_and_raise-Ends (runtime_error reason) = close_and_raise _
  close_and_raise-Ends e = Ends-raise e (Resting-IsSound p)

  pub produce_and_flush-Ends :
      (pb : Protobuf) (messages : List FdbMutationRecord)
      → Ends
          (Polled p false)
          (Pipeline.produce_and_flush env pb messages)
          (λ _. Confirmed p)
          IsSound
  unfolding Pipeline.produce_and_flush
  produce_and_flush-Ends pb messages =
      Ends-then _ _
        (Ends-catch _ _
          (Ends-then _ _ (produce_all-Ends p env false pb messages) (flush_or_raise-Ends env))
          close_and_raise-Ends)
        (mode-update (λ p. record p { delivered_unacked = true }))
