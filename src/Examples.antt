-- ===== src/Examples.antt =====
-- The theorems at concrete inputs, and runs of the definitions.
pub mod Records
pub mod Cursor
pub mod Batches
pub mod Demo
pub mod Waits
pub mod Settings
pub mod Daemon
pub mod Workload
use kafka_fdb_streamline.Common.{
  concat, ℕ, zero, suc, ◌+◌, ◌≤◌, true, false, Option, none, some, List, [], ◌∷◌, map, ◌≡◌, refl,
  ap, ◌∙◌, arith, length, All, pos,
}
use kafka_fdb_streamline.Errors.{cdc, cdc_error}
use kafka_fdb_streamline.Exec.{ok, err, ◌>>◌}
use kafka_fdb_streamline.Serialization.Checked.{valid, ◌>>=◌}
use kafka_fdb_streamline.Serialization.Model.{
  Value, NativeMutation, Mutation, RecordBody, Bytes, as_native,
}
use kafka_fdb_streamline.Serialization.Message.{FdbMutation, MutationArm, RecordArm, Protobuf}
use kafka_fdb_streamline.Serialization.Checks
use kafka_fdb_streamline.Serialization.Wire
use kafka_fdb_streamline.Serialization.Serializer.{serialize_batch, serialize_version_end}
use kafka_fdb_streamline.Serialization.VersionGroup.{
  framed_bytes, batch_tag_bytes, mutations_tag_bytes, batch_record_bytes, slices, slice_of,
  slice_from, close_slice, grow_slice, mutation_frame, batch_record, serialize_version_group,
}
use kafka_fdb_streamline.Serialization.VersionGroup.Cut.{IsCut}
use kafka_fdb_streamline.Serialization.VersionGroup.Slices.{FitsIn}
use kafka_fdb_streamline.Serialization.VersionGroup.Fits.{slices-IsCut}
use kafka_fdb_streamline.Serialization.VersionGroup.Records.{
  HasBatchSizes, framed_mutations, serialize_version_group-fits, slices-concat,
}
use kafka_fdb_streamline.Serialization.Deserializer.{
  decode_batch, decode_mutations, decode_mutation, check_batch, check_consistent,
  deserialize_record,
}
use kafka_fdb_streamline.Serialization.Decoded.{IsConsecutive, decode_batch-IsConsecutive}
use kafka_fdb_streamline.Serialization.BatchRoundTrip.{
  batch_message, IsBatch, IsEnvelope, deserialize_record-serialize_batch,
}
use kafka_fdb_streamline.World.{Env, Producer, Listener, Pipeline, World}
use kafka_fdb_streamline.Kafka.Producer
use kafka_fdb_streamline.Kafka.Producer.Close.{close-close}
use kafka_fdb_streamline.Cdc.Client
use kafka_fdb_streamline.Cdc.Listener
use kafka_fdb_streamline.Bridge.Monitor.{idle}
use kafka_fdb_streamline.Bridge.Sound.{status_of}
use kafka_fdb_streamline.Bridge.Pipeline
use kafka_fdb_streamline.Bridge.Sound.Flags.{IsSound, AtRest}
use kafka_fdb_streamline.Bridge.Sound.Turn.{step-AtRest}
use kafka_fdb_streamline.Bridge.Ledger.{Publishes}
use kafka_fdb_streamline.Bridge.Ledger.Finish.{IsAccounted}
use kafka_fdb_streamline.Bridge.Sound.Session.{
  take_step, close_listener, run_session, run_session-IsSound, acknowledges_only_durable, IsNew,
  new-IsSound, new-IsAccounted,
}
use kafka_fdb_streamline.Examples.Batches.{sized, three}

-- One reply with three mutations at version 7; librdkafka, the binding and the checkpoint succeed.
abbrev pub all_well : Env
all_well = record {
  rd = λ _ _. record { callbacks = []; outcome = ok 0 };
  consume = λ _. record {
    closed_meanwhile = false;
    outcome = ok (record {
      groups = record { version = Value.int (pos 7); mutations = three } ∷ [];
      last_consumed_version = pos 7;
    });
  };
  acknowledge = λ _. record { closed_meanwhile = false; outcome = ok tt };
  get_position = λ _. ok none;
  checkpoint = λ _ _. ok tt;
  time_ns = λ _. 5;
  monotonic = λ _. 0;
  fdb_installed = true;
  fdb = λ _ _. ok (pos 800);
}

abbrev pub new_producer : Producer
new_producer = record {
  handle = true;
  delivery_errors = [];
  transactional = false;
  txn_initialized = false;
  txn_open = false;
  closed = false;
  fatal = false;
}

abbrev new_listener : Listener
new_listener = record {
  raw_stream_name = 115 ∷ [];
  stream_name = 115 ∷ [];
  key_range = none;
  initial_cursor = none;
  max_record_bytes = 1000;
  resume_timeout = 5;
  resume_poll_interval = 1;
  consumer = false;
  is_closed = false;
  awaiting_ack = false;
  delivery_failed = false;
}

abbrev new_pipeline : Pipeline
new_pipeline = record {
  topic = 116 ∷ [];
  partition_key = 115 ∷ [];
  ack_retries = 3;
  commit_retries = 3;
  pending_count = 0;
  delivered_unacked = false;
  checkpointed = false;
  commit_outstanding = false;
}

abbrev pub new_world : World
new_world = record {
  producer = new_producer;
  client = record { api_version = pos 800; db = false };
  listener = new_listener;
  pipeline = new_pipeline;
  trace = [];
}

pub new_world-IsNew : IsNew new_world
new_world-IsNew = record { silent = refl; fresh = refl; resting = refl }

abbrev after_session : World
after_session =
    run_session all_well sized (take_step ∷ take_step ∷ close_listener ∷ take_step ∷ []) new_world

acknowledges_only_durable_example :
    ((status_of after_session).safe ≡ true) × Publishes sized after_session.trace
acknowledges_only_durable_example =
    acknowledges_only_durable all_well sized
      (take_step ∷ take_step ∷ close_listener ∷ take_step ∷ []) new_world new_world-IsNew

run_session-IsSound_example :
    IsSound (run_session all_well sized (take_step ∷ take_step ∷ []) new_world)
    × IsAccounted sized (run_session all_well sized (take_step ∷ take_step ∷ []) new_world)
run_session-IsSound_example =
    run_session-IsSound all_well sized (take_step ∷ take_step ∷ []) new_world
      (new-IsSound new_world new_world-IsNew) (new-IsAccounted sized new_world new_world-IsNew)

-- The reply becomes a batch and a version end, and both are delivered.
stepped : (Pipeline.step all_well sized new_world).0 ≡ ok 2
unfolding ◌>>◌ Producer.on_callback Producer.on_callbacks Producer.update Producer.set_fatal
    Producer.set_initialized Producer.set_open Producer.set_released Producer.transaction_over
    Producer.note_fatal Producer.require_transactional Producer.raise_delivery_error
    Producer.mark_fatal Producer.rd Producer.init_transactions Producer.begin_transaction
    Producer.commit_transaction Producer.abort_transaction Producer.produce Producer.flush
    Producer.flush_or_raise Producer.abort_open_transaction Producer.flush_to_close
    Producer.purge_queue Producer.release Producer.close Producer.queue_length Listener.checked
    Listener.update Listener.version_of Listener.serialize_groups Listener.serialize_watermark
    Listener.parse_all Listener.records_of Listener.set_delivery_failed Listener.set_delivered
    Listener.set_acknowledged Listener.set_consumer Listener.close_consumer Listener.sleep
    Listener.wait_failed Listener.target_version Listener.abandon Listener.close
    Listener.native_acknowledge Listener.native_consume Listener.read_monotonic
    Listener.await_version Listener.reconcile Listener.register Listener.attach
    Listener.start_detached Listener.start Listener.require_consumer Listener.consume_batch
    Listener.read_time Listener.timestamp_or_now Listener.poll_records Listener.acknowledge
    Listener.native_position Listener.get_position Client.native_error_code Client.consume_failure
    Client.to_bytes Client.lacks_native_cdc Client.translate_cdc_runtime_error Client.coordinate
    Client.set_db Client.close_client Client.valid_range Client.fdb Client.select_api_version
    Client.init_fdb Client.open_client Client.register_cdc_stream Client.create_cdc_consumer
    Client.resume_cdc_consumer Client.remove_cdc_stream Client.get_read_version Pipeline.update
    Pipeline.require_retries Pipeline.resolve_partition_key Pipeline.clear_outstanding
    Pipeline.on_ack_error Pipeline.abort_and_raise Pipeline.produce_all
    Pipeline.close_producer_and_raise Pipeline.produce_and_flush Pipeline.abort_batch
    Pipeline.begin_and_produce Pipeline.commit_failed Pipeline.on_commit_error
    Pipeline.commit_attempts Pipeline.commit_with_retry Pipeline.ack_attempts
    Pipeline.acknowledge_with_retry Pipeline.save_checkpoint Pipeline.checkpoint
    Pipeline.checkpoint_and_acknowledge Pipeline.commit_if_outstanding Pipeline.finish_delivery
    Pipeline.deliver Pipeline.step serialize_version_group slices slice_from close_slice grow_slice
    mutation_frame framed_bytes batch_tag_bytes batch_record_bytes mutations_tag_bytes
    Checks.fdb_version Checks.max_record_bytes Checks.envelope Checks.natives Checks.natives_from
    Checks.native Checks.assigned_sequence_no Wire.record_bytes Wire.record_message
    Wire.mutation_messages Wire.mutation_message serialize_version_end Checks.total_mutations
    batch_record slice_of
stepped = refl

-- The native acknowledgement went out.
acknowledged_in_turn : (status_of (Pipeline.step all_well sized new_world).1).phase ≡ idle
unfolding ◌>>◌ Producer.on_callback Producer.on_callbacks Producer.update Producer.set_fatal
    Producer.set_initialized Producer.set_open Producer.set_released Producer.transaction_over
    Producer.note_fatal Producer.require_transactional Producer.raise_delivery_error
    Producer.mark_fatal Producer.rd Producer.init_transactions Producer.begin_transaction
    Producer.commit_transaction Producer.abort_transaction Producer.produce Producer.flush
    Producer.flush_or_raise Producer.abort_open_transaction Producer.flush_to_close
    Producer.purge_queue Producer.release Producer.close Producer.queue_length Listener.checked
    Listener.update Listener.version_of Listener.serialize_groups Listener.serialize_watermark
    Listener.parse_all Listener.records_of Listener.set_delivery_failed Listener.set_delivered
    Listener.set_acknowledged Listener.set_consumer Listener.close_consumer Listener.sleep
    Listener.wait_failed Listener.target_version Listener.abandon Listener.close
    Listener.native_acknowledge Listener.native_consume Listener.read_monotonic
    Listener.await_version Listener.reconcile Listener.register Listener.attach
    Listener.start_detached Listener.start Listener.require_consumer Listener.consume_batch
    Listener.read_time Listener.timestamp_or_now Listener.poll_records Listener.acknowledge
    Listener.native_position Listener.get_position Client.native_error_code Client.consume_failure
    Client.to_bytes Client.lacks_native_cdc Client.translate_cdc_runtime_error Client.coordinate
    Client.set_db Client.close_client Client.valid_range Client.fdb Client.select_api_version
    Client.init_fdb Client.open_client Client.register_cdc_stream Client.create_cdc_consumer
    Client.resume_cdc_consumer Client.remove_cdc_stream Client.get_read_version Pipeline.update
    Pipeline.require_retries Pipeline.resolve_partition_key Pipeline.clear_outstanding
    Pipeline.on_ack_error Pipeline.abort_and_raise Pipeline.produce_all
    Pipeline.close_producer_and_raise Pipeline.produce_and_flush Pipeline.abort_batch
    Pipeline.begin_and_produce Pipeline.commit_failed Pipeline.on_commit_error
    Pipeline.commit_attempts Pipeline.commit_with_retry Pipeline.ack_attempts
    Pipeline.acknowledge_with_retry Pipeline.save_checkpoint Pipeline.checkpoint
    Pipeline.checkpoint_and_acknowledge Pipeline.commit_if_outstanding Pipeline.finish_delivery
    Pipeline.deliver Pipeline.step serialize_version_group slices slice_from close_slice grow_slice
    mutation_frame framed_bytes batch_tag_bytes batch_record_bytes mutations_tag_bytes
    Checks.fdb_version Checks.max_record_bytes Checks.envelope Checks.natives Checks.natives_from
    Checks.native Checks.assigned_sequence_no Wire.record_bytes Wire.record_message
    Wire.mutation_messages Wire.mutation_message serialize_version_end Checks.total_mutations
    batch_record slice_of
acknowledged_in_turn = refl

step-AtRest_example : AtRest (Pipeline.step all_well sized new_world).1
step-AtRest_example =
    step-AtRest all_well sized new_world 2 (new-IsSound new_world new_world-IsNew) stepped

abbrev waiting_world : World
waiting_world = record new_world {
  listener = record new_listener { consumer = true; awaiting_ack = true };
}

close-close_example :
    ((Producer.close all_well new_world).0 ≡ ok tt)
    × ((Producer.close all_well new_world).1.producer.closed ≡ true)
    × (Producer.close all_well (Producer.close all_well new_world).1
        ≡ (ok tt, (Producer.close all_well new_world).1))
close-close_example = close-close all_well new_world
