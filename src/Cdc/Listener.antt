-- ===== src/Cdc/Listener.antt =====
-- cdc/listener.py, class FDBMutationListener, method by method.
pub mod Keeps
pub mod Turns
pub mod Await
use kafka_fdb_streamline.Common.{
  ⊤, ℕ, zero, suc, ◌+◌, ◌-◌, Bool, true, false, ◌&&◌, not, Option, none, some, List, [], ◌∷◌, ◌++◌,
  ltb, if◌then◌else◌, is_empty, length, ℤ, pos, negsuc, ltb_ℤ,
}
use kafka_fdb_streamline.Errors.{
  cdc_error, consumer_closed, invalid_cursor, Exn, cdc, serialization, record_too_large,
}
use kafka_fdb_streamline.Exec.{
  Result, ok, err, pure, raise, gets, lift, catch, modify, raise_if, ◌>>=◌, ◌>>◌,
}
use kafka_fdb_streamline.Serialization.Checked.{Checked, valid, invalid}
use kafka_fdb_streamline.Serialization.Model.{Bytes, Value}
use kafka_fdb_streamline.Serialization.Message.{FdbMutationRecord, Protobuf}
use kafka_fdb_streamline.Serialization.Serializer.{serialize_version_end}
use kafka_fdb_streamline.Serialization.VersionGroup.{serialize_version_group}
use kafka_fdb_streamline.World.{NativeGroup, NativeReply, Cursor, Event, Env, Listener, M}
use kafka_fdb_streamline.Cdc.Client.{
  consume_failure, open_client, register_cdc_stream, create_cdc_consumer, resume_cdc_consumer,
  get_read_version,
}

-- What the serialization package raises goes through the listener unchanged.
unfoldable pub checked {ℓ} : {A : Type ℓ} → Checked A → Result A
checked (valid a) = ok a
checked (invalid e) = err (serialization e)

-- A change of the listener's attributes.
unfoldable pub update : (Listener → Listener) → M ⊤
unfolding modify
update f = modify (λ w. record w { listener = f w.listener })

abbrev pub shut : Listener → Listener
shut l = record l { is_closed = true; consumer = false }

-- What another thread's `close` leaves.
abbrev pub after_wait : Bool → Listener → Listener
after_wait true l = shut l
after_wait false l = l

-- The last version serialized, which begins as -1. A group that was serialized has an exact int.
unfoldable pub version_of : Value → ℤ
version_of (Value.int version) = version
version_of _ = negsuc 0

module _ (pb : Protobuf) (l : Listener) (timestamp_ns : ℕ) where
  -- The loop over the groups of a reply, with the records so far and the last version.
  unfoldable pub serialize_groups : List NativeGroup → List Bytes → ℤ → Result (List Bytes × ℤ)
  unfolding checked version_of
  serialize_groups [] serialized last = ok (serialized, last)
  serialize_groups (group ∷ rest) serialized last =
      elim (checked (
        serialize_version_group pb group.mutations group.version
          (Value.int (pos l.max_record_bytes)) (Value.str l.stream_name)
          (Value.int (pos timestamp_ns)))) [
            | ok records ↦ serialize_groups rest (serialized ++ records) (version_of group.version)
            | err e ↦ err e
          ]

  fits : Bytes → Result (List Bytes)
  fits watermark_record =
      if ltb l.max_record_bytes (length watermark_record)
      then err (serialization (record_too_large none (length watermark_record) l.max_record_bytes))
      else ok (watermark_record ∷ [])

  -- The empty version end of a watermark beyond the last group.
  unfoldable pub serialize_watermark : ℤ → ℤ → Result (List Bytes)
  unfolding checked fits
  serialize_watermark watermark last =
      if not (ltb_ℤ watermark (pos 0)) && ltb_ℤ last watermark
      then elim (checked (
          serialize_version_end pb (Value.int watermark) (Value.int (pos 0))
            (Value.str l.stream_name) (Value.int (pos timestamp_ns)))) [
              | ok watermark_record ↦ fits watermark_record
              | err e ↦ err e
            ]
      else ok []

-- `[FDBMutationRecord.FromString(data) for data in serialized]`; a parse that fails raises.
unfoldable pub parse_all : Protobuf → List Bytes → Result (List FdbMutationRecord)
parse_all pb [] = ok []
parse_all pb (content ∷ rest) = elim (pb.parse content) [
  | none ↦ err Exn.other_error
  | some message ↦ elim (parse_all pb rest) [
    | ok messages ↦ ok (message ∷ messages)
    | err e ↦ err e
  ]
]

-- The records of a native reply, as `poll_records` builds them.
unfoldable pub records_of : Protobuf → Listener → ℕ → NativeReply → Result (List FdbMutationRecord)
unfolding serialize_groups serialize_watermark parse_all
records_of pb l timestamp_ns reply =
    elim (serialize_groups pb l timestamp_ns reply.groups [] (negsuc 0)) [
      | ok (serialized, last) ↦
          elim (serialize_watermark pb l timestamp_ns reply.last_consumed_version last) [
            | ok watermark ↦ parse_all pb (serialized ++ watermark)
            | err e ↦ err e
          ]
      | err e ↦ err e
    ]

unfoldable pub set_delivery_failed : M ⊤
set_delivery_failed = update (λ l. record l { delivery_failed = true })

-- The last two assignments of `poll_records`.
unfoldable pub set_delivered : List FdbMutationRecord → M ⊤
set_delivered records =
    update (λ l. record l { delivery_failed = false; awaiting_ack = not (is_empty records) })

unfoldable pub set_acknowledged : M ⊤
set_acknowledged = update (λ l. record l { awaiting_ack = false })

unfoldable pub set_consumer : Bool → M ⊤
set_consumer there = update (λ l. record l { consumer = there })

unfoldable pub close_consumer : M ⊤
unfolding modify
close_consumer = modify (λ w. record w { trace = Event.consumer_closed ∷ w.trace })

unfoldable pub sleep : ℕ → M ⊤
unfolding modify
sleep ticks = modify (λ w. record w { trace = Event.slept ticks ∷ w.trace })

-- `except Exception as exc:` of a native wait; the listener may have been closed meanwhile.
unfoldable pub wait_failed : {A : Type 0} → Exn → M A
wait_failed e = do
  closed ← gets (λ w. w.listener.is_closed)
  raise (if closed then cdc consumer_closed else consume_failure e)

-- `initial_cursor.last_consumed_version`, which `resume_cdc_consumer` has checked.
unfoldable pub target_version : Cursor → ℤ
target_version cursor = elim cursor.last_consumed_version [
  | some value ↦ version_of value
  | none ↦ negsuc 0
]

-- `except BaseException: self._consumer = None; consumer.close(); raise`
unfoldable pub abandon : Exn → M ⊤
abandon e = do set_consumer false; close_consumer; raise e

unfoldable pub close : M ⊤
close = do
  had_consumer ← gets (λ w. w.listener.consumer)
  update shut
  if had_consumer then close_consumer else pure tt

module _ (env : Env) where
  -- The wait on the native consumer's `acknowledge`.
  unfoldable pub native_acknowledge : M ⊤
  native_acknowledge w =
      let reply = env.acknowledge w.trace in
      (
        reply.outcome,
        record w {
          listener = after_wait reply.closed_meanwhile w.listener;
          trace = Event.acknowledged reply ∷ w.trace;
        },
      )

  unfoldable pub native_consume : M NativeReply
  native_consume w =
      let reply = env.consume w.trace in
      (
        reply.outcome,
        record w {
          listener = after_wait reply.closed_meanwhile w.listener;
          trace = Event.consumed reply ∷ w.trace;
        },
      )

  unfoldable pub read_monotonic : M ℕ
  read_monotonic w =
      let now = env.monotonic w.trace in
      (ok now, record w { trace = Event.monotonic_read now ∷ w.trace })

  -- The loop of `_reconcile_resumed_consumer`. With no fuel left the wait counts as timed out.
  unfoldable pub await_version : ℕ → ℤ → ℕ → M ⊤
  await_version zero target deadline = raise (cdc invalid_cursor)
  await_version (suc fuel) target deadline = do
    version ← get_read_version env
    if not (ltb_ℤ version target) then pure tt else do
      now ← read_monotonic
      raise_if (not (ltb now deadline)) (cdc invalid_cursor)
      interval ← gets (λ w. w.listener.resume_poll_interval)
      sleep (if ltb interval (deadline - now) then interval else deadline - now)
      await_version fuel target deadline

  -- The rest of `_reconcile_resumed_consumer`. The consumer has just been set, so the property
  -- `consumer` gives it, or raises if the listener was closed.
  unfoldable pub reconcile : Cursor → M ⊤
  reconcile cursor = do
    start_time ← read_monotonic
    timeout ← gets (λ w. w.listener.resume_timeout)
    await_version (timeout + 2) (target_version cursor) (start_time + timeout)
    catch
        (do
          closed ← gets (λ w. w.listener.is_closed)
          raise_if closed (cdc consumer_closed)
          native_acknowledge)
        (λ e. raise (consume_failure e))

  unfoldable pub register : Option (Value × Value) → M ⊤
  register none = pure tt
  register (some (begin_key, end_key)) = do
    name ← gets (λ w. w.listener.raw_stream_name)
    register_cdc_stream env (Value.bytes name) begin_key end_key
    pure tt

  unfoldable pub attach : Option Cursor → M ⊤
  attach none = do
    name ← gets (λ w. w.listener.raw_stream_name)
    create_cdc_consumer env (Value.bytes name)
    set_consumer true
  attach (some cursor) = do
    resume_cdc_consumer env cursor
    set_consumer true
    catch (reconcile cursor) abandon

  -- `start` of a listener without a consumer.
  unfoldable pub start_detached : Listener → M ⊤
  start_detached l = do
    raise_if l.is_closed (cdc consumer_closed)
    open_client env
    register l.key_range
    attach l.initial_cursor

  unfoldable pub start : M ⊤
  start = do l ← gets (λ w. w.listener); if l.consumer then pure tt else start_detached l

  -- The property `consumer`.
  unfoldable pub require_consumer : M ⊤
  require_consumer = do
    l ← gets (λ w. w.listener)
    raise_if l.is_closed (cdc consumer_closed)
    if l.consumer then pure tt else start

  unfoldable pub consume_batch : M NativeReply
  consume_batch = do
    l ← gets (λ w. w.listener)
    raise_if l.delivery_failed (cdc cdc_error)
    raise_if l.awaiting_ack (cdc cdc_error)
    catch (do require_consumer; native_consume) wait_failed

  unfoldable pub read_time : M ℕ
  read_time w =
      let now = env.time_ns w.trace in (ok now, record w { trace = Event.clock_read now ∷ w.trace })

  unfoldable pub timestamp_or_now : Option ℕ → M ℕ
  timestamp_or_now none = read_time
  timestamp_or_now (some timestamp_ns) = pure timestamp_ns

  unfoldable pub poll_records : Protobuf → Option ℕ → M (List FdbMutationRecord)
  poll_records pb bridge_timestamp_ns = do
    reply ← consume_batch
    set_delivery_failed
    timestamp_ns ← timestamp_or_now bridge_timestamp_ns
    l ← gets (λ w. w.listener)
    records ← lift (records_of pb l timestamp_ns reply)
    set_delivered records
    pure records

  unfoldable pub acknowledge : M ⊤
  acknowledge = do
    l ← gets (λ w. w.listener)
    raise_if l.is_closed (cdc consumer_closed)
    raise_if l.delivery_failed (cdc cdc_error)
    raise_if (not l.awaiting_ack) (cdc cdc_error)
    catch (do require_consumer; native_acknowledge) wait_failed
    set_acknowledged

  unfoldable pub native_position : M (Option Cursor)
  native_position w =
      let reply = env.get_position w.trace in
      (reply, record w { trace = Event.position_read reply ∷ w.trace })

  unfoldable pub get_position : M (Option Cursor)
  get_position = do require_consumer; native_position
