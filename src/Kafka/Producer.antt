-- ===== src/Kafka/Producer.antt =====
-- kafka/producer.py, class MutationProducer, method by method. Timeouts, logging and the callbacks that
-- a caller may supply are left out: the code swallows what such a callback raises.

pub mod Keeps
pub mod Close
use kafka_fdb_streamline.Common.{
  ⊤, ℕ, Bool, true, false, ◌&&◌, ◌||◌, not, Option, none, some, List, [], ◌∷◌, ◌++◌, ltb,
  if◌then◌else◌, ℤ, pos, negsuc, ltb_ℤ,
}
use kafka_fdb_streamline.Errors.{
  KafkaError, Exn, kafka_exception, runtime_error, other_error, timeout_error, producer_closed,
  producer_fatal, not_transactional, not_initialized, already_initialized, transaction_open,
  no_transaction,
}
use kafka_fdb_streamline.Exec.{err, pure, raise, gets, catch, modify, raise_if, ◌>>=◌, ◌>>◌}
use kafka_fdb_streamline.Serialization.Model.{Bytes}
use kafka_fdb_streamline.Serialization.Message.{FdbMutationRecord, Protobuf}
use kafka_fdb_streamline.World.{
  RdCall, rd_init_transactions, rd_begin, rd_commit, rd_abort, rd_poll, rd_flush, rd_len, rd_purge,
  rd_produce, Callback, delivery_report, client_error, Event, Env, Producer, M,
}
use kafka_fdb_streamline.Kafka.Faults.{says_true, is_fatal_kafka_error}

-- `_delivery_callback` and `_error_cb`
unfoldable pub on_callback : Producer → Callback → Producer
on_callback p (delivery_report none) = p
on_callback p (delivery_report (some error)) = record p {
  delivery_errors = p.delivery_errors ++ error ∷ [];
}
on_callback p (client_error error) = record p { fatal = p.fatal || says_true error.fatal }

unfoldable pub on_callbacks : Producer → List Callback → Producer
unfolding on_callback
on_callbacks p [] = p
on_callbacks p (callback ∷ rest) = on_callbacks (on_callback p callback) rest

-- A change of the producer's attributes.
unfoldable pub update : (Producer → Producer) → M ⊤
unfolding modify
update f = modify (λ w. record w { producer = f w.producer })

unfoldable pub set_fatal : Producer → Producer
set_fatal p = record p { fatal = true }

unfoldable pub set_initialized : Producer → Producer
set_initialized p = record p { txn_initialized = true }

unfoldable pub set_open : Bool → Producer → Producer
set_open is_open p = record p { txn_open = is_open }

unfoldable pub set_released : Producer → Producer
set_released p = record p { handle = false; closed = true }

unfoldable pub transaction_over : Producer → Producer
transaction_over p = record p { txn_open = false; delivery_errors = [] }

-- `except KafkaException as exc: if is_fatal(exc): self._fatal = True; raise`
unfoldable pub note_fatal : Exn → M ℕ
note_fatal e = do if is_fatal_kafka_error e then update set_fatal else pure tt; raise e

-- `_require_transactional`; the flag says that the method is not `init_transactions`.
unfoldable pub require_transactional : Bool → M ⊤
require_transactional needs_init = do
  p ← gets (λ w. w.producer)
  raise_if p.closed (runtime_error producer_closed)
  raise_if p.fatal (runtime_error producer_fatal)
  raise_if (not p.transactional) (runtime_error not_transactional)
  raise_if (needs_init && not p.txn_initialized) (runtime_error not_initialized)

-- The first of the recorded delivery errors is raised, if there is one.
unfoldable pub raise_delivery_error : List KafkaError → M ⊤
raise_delivery_error [] = pure tt
raise_delivery_error (error ∷ _) = raise (kafka_exception (some error))

unfoldable pub mark_fatal : M ⊤
mark_fatal = update set_fatal

module _ (env : Env) where
  -- A method of the librdkafka handle; the attribute error is that of a handle that is None.
  unfoldable pub rd : RdCall → M ℕ
  unfolding on_callbacks
  rd call w =
      if w.producer.handle
      then (let reply = env.rd w.trace call in
          (
            reply.outcome,
            record w {
              producer = on_callbacks w.producer reply.callbacks;
              trace = Event.kafka call reply ∷ w.trace;
            },
          ))
      else (err other_error, w)

  unfoldable pub init_transactions : M ⊤
  init_transactions = do
    require_transactional false
    initialized ← gets (λ w. w.producer.txn_initialized)
    raise_if initialized (runtime_error already_initialized)
    catch (rd rd_init_transactions) note_fatal
    update set_initialized

  unfoldable pub begin_transaction : M ⊤
  begin_transaction = do
    require_transactional true
    is_open ← gets (λ w. w.producer.txn_open)
    raise_if is_open (runtime_error transaction_open)
    catch (rd rd_begin) note_fatal
    update (set_open true)

  unfoldable pub commit_transaction : M ⊤
  commit_transaction = do
    require_transactional true
    is_open ← gets (λ w. w.producer.txn_open)
    raise_if (not is_open) (runtime_error no_transaction)
    catch (rd rd_commit) note_fatal
    update transaction_over

  unfoldable pub abort_transaction : M ⊤
  abort_transaction = do
    require_transactional true
    is_open ← gets (λ w. w.producer.txn_open)
    raise_if (not is_open) (runtime_error no_transaction)
    catch (rd rd_abort) (λ e. do update set_fatal; raise e)
    update transaction_over

  unfoldable pub produce : Protobuf → Bytes → FdbMutationRecord → Option Bytes → M ⊤
  produce pb topic message key = do
    p ← gets (λ w. w.producer)
    raise_if p.closed (runtime_error producer_closed)
    raise_if p.fatal (runtime_error producer_fatal)
    raise_if (p.transactional && not p.txn_open) (runtime_error no_transaction)
    raise_delivery_error (if p.transactional then [] else p.delivery_errors)
    rd (rd_produce topic key (pb.serialize message))
    rd rd_poll
    pure tt

  unfoldable pub flush : M ℕ
  flush = do
    p ← gets (λ w. w.producer)
    raise_if p.closed (runtime_error producer_closed)
    raise_if p.fatal (runtime_error producer_fatal)
    remaining ← rd rd_flush
    errors ← gets (λ w. w.producer.delivery_errors)
    raise_delivery_error errors
    pure remaining

  unfoldable pub flush_or_raise : M ⊤
  flush_or_raise = do remaining ← flush; raise_if (ltb 0 remaining) timeout_error

  -- The abort of `close`; whatever it raises is logged.
  unfoldable pub abort_open_transaction : M ⊤
  abort_open_transaction = do
    p ← gets (λ w. w.producer)
    if p.transactional && p.txn_open
        then catch (do rd rd_abort; update (set_open false)) (λ _. pure tt)
        else pure tt

  -- What is left undelivered (-1 if unknown), and whether the flush raised.
  unfoldable pub flush_to_close : M (ℤ × Bool)
  flush_to_close =
      catch (do undelivered ← rd rd_flush; pure (pos undelivered, false))
        (λ _. catch (do queued ← rd rd_len; pure (pos queued, true)) (λ _. pure (negsuc 0, true)))

  unfoldable pub purge_queue : M ⊤
  purge_queue = catch (do rd rd_purge; rd rd_flush; pure tt) (λ _. pure tt)

  unfoldable pub release : M ⊤
  release = do
    abort_open_transaction
    (undelivered, flush_failed) ← flush_to_close
    if ltb_ℤ (pos 0) undelivered || flush_failed then purge_queue else pure tt
    update set_released

  unfoldable pub close : M ⊤
  close = do closed ← gets (λ w. w.producer.closed); if closed then pure tt else release

  -- `__len__`
  unfoldable pub queue_length : M ℕ
  queue_length = do
    p ← gets (λ w. w.producer)
    raise_if p.closed (runtime_error producer_closed)
    raise_if p.fatal (runtime_error producer_fatal)
    rd rd_len
