-- ===== src/Kafka/Producer/Keeps.antt =====
-- What each librdkafka call and each change of an attribute keeps, the methods of the producer keep.
use kafka_fdb_streamline.Common.{Bool, true, ◌≡◌, refl, Option, List, [], ◌∷◌}
use kafka_fdb_streamline.Errors.{KafkaError, Exn}
use kafka_fdb_streamline.Exec.Keeps.{
  Keeps, keeps_rules, Keeps-bind, Keeps-then, Keeps-gets, Keeps-raise_if, Keeps-catch, Keeps-raise,
}
use kafka_fdb_streamline.Serialization.Model.{Bytes}
use kafka_fdb_streamline.Serialization.Message.{FdbMutationRecord, Protobuf}
use kafka_fdb_streamline.World.{RdCall, Env, Producer, World}
use kafka_fdb_streamline.Kafka.Producer

-- A change of attributes that leaves the mode and the recorded delivery errors.
pub record IsPlain (f : Producer → Producer) : Type 0 where
  pub mode : (p : Producer) → (f p).transactional ≡ p.transactional
  pub errors : (p : Producer) → (f p).delivery_errors ≡ p.delivery_errors

pub set_fatal-IsPlain : IsPlain Producer.set_fatal
unfolding Producer.set_fatal
set_fatal-IsPlain = record { mode = λ p. refl; errors = λ p. refl }

pub set_initialized-IsPlain : IsPlain Producer.set_initialized
unfolding Producer.set_initialized
set_initialized-IsPlain = record { mode = λ p. refl; errors = λ p. refl }

pub set_open-IsPlain : (b : Bool) → IsPlain (Producer.set_open b)
unfolding Producer.set_open
set_open-IsPlain b = record { mode = λ p. refl; errors = λ p. refl }

pub set_released-IsPlain : IsPlain Producer.set_released
unfolding Producer.set_released
set_released-IsPlain = record { mode = λ p. refl; errors = λ p. refl }

ruleset plain = (set_fatal-IsPlain, set_initialized-IsPlain, set_open-IsPlain, set_released-IsPlain)

module _ (env : Env) {P : World → Type 0} (on_rd : (call : RdCall) → Keeps P (Producer.rd env call))
    (on_update : (f : Producer → Producer) → IsPlain f → Keeps P (Producer.update f)) where
  pub mark_fatal-Keeps : Keeps P Producer.mark_fatal
  unfolding Producer.mark_fatal
  mark_fatal-Keeps = on_update Producer.set_fatal set_fatal-IsPlain

  note_fatal-Keeps : (e : Exn) → Keeps P (Producer.note_fatal e)
  unfolding Producer.note_fatal
  note_fatal-Keeps e = search (keeps_rules, on_update, plain) depth 8

  raise_delivery_error-Keeps :
      (errors : List KafkaError) → Keeps P (Producer.raise_delivery_error errors)
  unfolding Producer.raise_delivery_error
  raise_delivery_error-Keeps [] = search keeps_rules
  raise_delivery_error-Keeps (_ ∷ _) = search keeps_rules

  require_transactional-Keeps : (b : Bool) → Keeps P (Producer.require_transactional b)
  unfolding Producer.require_transactional
  require_transactional-Keeps b = search keeps_rules depth 12

  pub produce-Keeps :
      (pb : Protobuf) (topic : Bytes) (message : FdbMutationRecord) (key : Option Bytes)
      → Keeps P (Producer.produce env pb topic message key)
  unfolding Producer.produce
  produce-Keeps pb topic message key =
      search (keeps_rules, on_rd, raise_delivery_error-Keeps) depth 16

  pub init_transactions-Keeps : Keeps P (Producer.init_transactions env)
  unfolding Producer.init_transactions
  init_transactions-Keeps =
      search (keeps_rules, on_rd, require_transactional-Keeps, note_fatal-Keeps, on_update, plain)
        depth 12

  pub begin_transaction-Keeps : Keeps P (Producer.begin_transaction env)
  unfolding Producer.begin_transaction
  begin_transaction-Keeps =
      search (keeps_rules, on_rd, require_transactional-Keeps, note_fatal-Keeps, on_update, plain)
        depth 12

  pub flush-Keeps : Keeps P (Producer.flush env)
  unfolding Producer.flush
  flush-Keeps = search (keeps_rules, on_rd, raise_delivery_error-Keeps) depth 16

  pub flush_or_raise-Keeps : Keeps P (Producer.flush_or_raise env)
  unfolding Producer.flush_or_raise
  flush_or_raise-Keeps = search (keeps_rules, flush-Keeps) depth 8

  abort_open_transaction-Keeps : Keeps P (Producer.abort_open_transaction env)
  unfolding Producer.abort_open_transaction
  abort_open_transaction-Keeps = search (keeps_rules, on_rd, on_update, plain) depth 12

  flush_to_close-Keeps : Keeps P (Producer.flush_to_close env)
  unfolding Producer.flush_to_close
  flush_to_close-Keeps = search (keeps_rules, on_rd) depth 12

  purge_queue-Keeps : Keeps P (Producer.purge_queue env)
  unfolding Producer.purge_queue
  purge_queue-Keeps = search (keeps_rules, on_rd) depth 12

  release-Keeps : Keeps P (Producer.release env)
  unfolding Producer.release
  release-Keeps =
      search
        (
          keeps_rules, abort_open_transaction-Keeps, flush_to_close-Keeps, purge_queue-Keeps,
          on_update, plain,
        )
        depth 12

  pub close-Keeps : Keeps P (Producer.close env)
  unfolding Producer.close
  close-Keeps = search (keeps_rules, release-Keeps) depth 8

  module _ (on_over : Keeps P (Producer.update Producer.transaction_over)) where
    pub commit_transaction-Keeps : Keeps P (Producer.commit_transaction env)
    unfolding Producer.commit_transaction
    commit_transaction-Keeps = Keeps-then _ _ (require_transactional-Keeps true) (
        Keeps-bind _ _ (Keeps-gets _) λ _.
          Keeps-then _ _ (Keeps-raise_if _ _)
            (Keeps-then _ _ (Keeps-catch _ _ (on_rd _) note_fatal-Keeps) on_over))

    pub abort_transaction-Keeps : Keeps P (Producer.abort_transaction env)
    unfolding Producer.abort_transaction
    abort_transaction-Keeps = Keeps-then _ _ (require_transactional-Keeps true) (
        Keeps-bind _ _ (Keeps-gets _) λ _. Keeps-then _ _ (Keeps-raise_if _ _) (
          Keeps-then _ _
            (Keeps-catch _ _ (on_rd _)
              λ e. Keeps-then _ _ (on_update _ set_fatal-IsPlain) (Keeps-raise e))
            on_over))
