-- ===== src/Bridge/Sound/Stages.antt =====
-- The flags of the pipeline as stages of a delivery, and how finish_delivery moves through them.
use kafka_fdb_streamline.Common.{⊤, ℕ, zero, suc, true, false, sym, subst}
use kafka_fdb_streamline.Errors.{Exn, kafka_exception, runtime_error, cdc, retryable}
use kafka_fdb_streamline.Exec.{◌>>◌}
use kafka_fdb_streamline.Exec.Ends.{
  Ends, Ends_of_Keeps, Ends-weaken, Ends-raise, Ends-read, Ends-bind, Ends-then, Ends-if,
  Ends-attempt,
}
use kafka_fdb_streamline.World.{Env, Pipeline, World, M}
use kafka_fdb_streamline.Kafka.Producer
use kafka_fdb_streamline.Kafka.Faults.{is_fatal_kafka_error, kafka_error, commit_may_retry}
use kafka_fdb_streamline.Cdc.Listener
use kafka_fdb_streamline.Bridge.Pipeline
use kafka_fdb_streamline.Bridge.Monitor.{delivered}
use kafka_fdb_streamline.Bridge.Sound.Kafka.{mark_fatal-IsCore, abort_transaction-IsCore}
use kafka_fdb_streamline.Bridge.Sound.Ack.{
  IsIdle, IsWaiting, get_position-IsWaiting, acknowledge-Ends, save_checkpoint-Ends,
}
use kafka_fdb_streamline.Bridge.Sound.Txn.{commit_transaction-Ends}
use kafka_fdb_streamline.Bridge.Sound.Flags.{
  flags, Outstanding, Confirmed, Saved, Resting, IsSound, update-IsWaiting, changed-IsIdle, AtRest,
  StageOf,
}

module _ (p : Pipeline) where
  pub Outstanding-IsSound : (w : World) → Outstanding p w → IsSound w
  Outstanding-IsSound w h = subst (λ q. StageOf q w) (sym h.core.pipeline) h

  pub Confirmed-IsSound : (w : World) → Confirmed p w → IsSound w
  Confirmed-IsSound w h = subst (λ q. StageOf q w) (sym h.core.pipeline) h

  pub Saved-IsSound : (w : World) → Saved p w → IsSound w
  Saved-IsSound w h = subst (λ q. StageOf q w) (sym h.core.pipeline) h

  pub IsIdle-AtRest : (w : World) → IsIdle (flags p false false false) w → AtRest w
  IsIdle-AtRest w h = subst (λ q. IsIdle (flags q false false false) w) (sym h.core.pipeline) h

  pub Resting-IsSound : (w : World) → Resting p w → IsSound w
  Resting-IsSound w h = subst (λ q. StageOf q w) (sym h.pipeline) h

  module _ (env : Env) where
    on_ack_error-Ends :
        {Q : ⊤ → World → Type 0} (again : M ⊤) (e : Exn)
        → Ends (Saved p) again Q IsSound
        → Ends (Saved p) (Pipeline.on_ack_error again e) Q IsSound
    unfolding Pipeline.on_ack_error
    on_ack_error-Ends again (cdc (retryable code)) h = h
    on_ack_error-Ends again e h = Ends-raise e Saved-IsSound

    -- Whatever a failed commit is, the exception is raised in a sound state.
    pub abort_and_raise-Ends :
        {Q : ⊤ → World → Type 0} (e : Exn)
        → Ends (Resting p) (Pipeline.abort_and_raise env e) Q IsSound
    unfolding Pipeline.abort_and_raise
    abort_and_raise-Ends e =
        Ends-if (is_fatal_kafka_error e) _ _
          (Ends-then _ _
            (Ends-weaken (λ _ _ h. h) Resting-IsSound (Ends_of_Keeps (mark_fatal-IsCore _ env)))
            (Ends-raise e Resting-IsSound))
          (Ends-then _ _
            (Ends-weaken (λ _ _ h. h) Resting-IsSound
              (Ends_of_Keeps (abort_transaction-IsCore _ env)))
            (Ends-raise e Resting-IsSound))

    clear_outstanding-Ends :
        Ends (Outstanding p) Pipeline.clear_outstanding (λ _. Resting p) IsSound
    unfolding Pipeline.clear_outstanding
    clear_outstanding-Ends =
        Ends-weaken (λ _ _ h. h.core) (λ _ h. h)
          (update-IsWaiting (λ p. record p { commit_outstanding = false }))

    commit_failed-Ends :
        (again : M ⊤) (e : Exn)
        → Ends (Outstanding p) again (λ _. IsWaiting (flags p true false false) delivered) IsSound
        → Ends
            (Outstanding p)
            (Pipeline.commit_failed env again e)
            (λ _. IsWaiting (flags p true false false) delivered)
            IsSound
    unfolding Pipeline.commit_failed
    commit_failed-Ends again e h =
        Ends-if (is_fatal_kafka_error e) _ _
          (Ends-then _ _
            (Ends-then _ _ clear_outstanding-Ends
              (Ends-weaken (λ _ _ h. h) Resting-IsSound (Ends_of_Keeps (mark_fatal-IsCore _ env))))
            (Ends-raise e Resting-IsSound))
          (Ends-if (commit_may_retry (kafka_error e)) _ _ h
            (Ends-then _ _ clear_outstanding-Ends (abort_and_raise-Ends e)))

    on_commit_error-Ends :
        (again : M ⊤) (e : Exn)
        → Ends (Outstanding p) again (λ _. IsWaiting (flags p true false false) delivered) IsSound
        → Ends
            (Outstanding p)
            (Pipeline.on_commit_error env again e)
            (λ _. IsWaiting (flags p true false false) delivered)
            IsSound
    unfolding Pipeline.on_commit_error
    on_commit_error-Ends again (kafka_exception error) h = commit_failed-Ends again _ h
    on_commit_error-Ends again (runtime_error reason) h =
        Ends-then _ _ clear_outstanding-Ends (Ends-raise _ Resting-IsSound)
    on_commit_error-Ends again e h = Ends-raise e Outstanding-IsSound

    commit_attempts-Ends :
        (attempts : ℕ) (last_exc : Exn)
        → Ends
            (Outstanding p)
            (Pipeline.commit_attempts env attempts last_exc)
            (λ _. IsWaiting (flags p true false false) delivered)
            IsSound
    unfolding Pipeline.commit_attempts
    commit_attempts-Ends zero e = record { at = Outstanding-IsSound }
    commit_attempts-Ends (suc attempts) e =
        Ends-attempt (Producer.commit_transaction env) _ (commit_transaction-Ends env)
          (λ x. on_commit_error-Ends _ x (commit_attempts-Ends attempts x))

    pub commit_with_retry-Ends :
        Ends
          (Outstanding p)
          (Pipeline.commit_with_retry env)
          (λ _. IsWaiting (flags p true false false) delivered)
          IsSound
    unfolding Pipeline.commit_with_retry
    commit_with_retry-Ends =
        Ends-bind _ _ (Ends-read (Outstanding p) _) λ retries. commit_attempts-Ends retries _

    ack_attempts-Ends :
        (attempts : ℕ) (last_err : Exn)
        → Ends
            (Saved p)
            (Pipeline.ack_attempts env attempts last_err)
            (λ _. IsIdle (flags p false true true))
            IsSound
    unfolding Pipeline.ack_attempts
    ack_attempts-Ends zero e = record { at = Saved-IsSound }
    ack_attempts-Ends (suc attempts) e =
        Ends-attempt (Listener.acknowledge env) _ (acknowledge-Ends env)
          (λ x. on_ack_error-Ends _ x (ack_attempts-Ends attempts x))

    acknowledge_with_retry-Ends :
        Ends
          (Saved p)
          (Pipeline.acknowledge_with_retry env)
          (λ _. IsIdle (flags p false true true))
          IsSound
    unfolding Pipeline.acknowledge_with_retry
    acknowledge_with_retry-Ends =
        Ends-bind _ _ (Ends-read (Saved p) _) λ retries. ack_attempts-Ends retries _

    pub checkpoint-Ends : Ends (Confirmed p) (Pipeline.checkpoint env) (λ _. Saved p) IsSound
    unfolding Pipeline.checkpoint
    checkpoint-Ends =
        Ends-bind _ _
          (Ends-weaken (λ _ _ h. h) Confirmed-IsSound
            (Ends_of_Keeps (get_position-IsWaiting env delivered)))
          λ cursor.
            Ends-then _ _
              (Ends-weaken (λ _ _ h. h) Confirmed-IsSound (save_checkpoint-Ends env cursor))
              (update-IsWaiting (λ p. record p { checkpointed = true }))

    -- From a saved cursor the acknowledgement is next, and then nothing is pending.
    pub acknowledge-Saved :
        Ends
          (Saved p)
          (do
            Pipeline.acknowledge_with_retry env
            Pipeline.update (λ p. record p { checkpointed = false }))
          (λ _. IsIdle (flags p false true false))
          IsSound
    acknowledge-Saved =
        Ends-then _ _ acknowledge_with_retry-Ends
          (changed-IsIdle (λ p. record p { checkpointed = false }))
