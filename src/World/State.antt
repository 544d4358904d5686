-- ===== src/World/State.antt =====
-- The attributes of the program's objects, and the state of a bridge process.
use kafka_fdb_streamline.Common.{ℕ, Bool, Option, List, ℤ}
use kafka_fdb_streamline.Errors.{KafkaError}
use kafka_fdb_streamline.Exec.{Exec}
use kafka_fdb_streamline.Serialization.Model.{Text, Bytes, Value}
use kafka_fdb_streamline.World.Calls.{Cursor, Trace}

-- kafka/producer.py, class MutationProducer. `handle` is whether `_producer` is not None.
pub record Producer : Type 0 where
  pub handle : Bool
  pub delivery_errors : List KafkaError
  pub transactional : Bool
  pub txn_initialized : Bool
  pub txn_open : Bool
  pub closed : Bool
  pub fatal : Bool

-- cdc/client.py, class FDBClient. `db` is whether `_db` is not None.
pub record Client : Type 0 where
  pub api_version : ℤ
  pub db : Bool

-- cdc/listener.py, class FDBMutationListener. `consumer` is whether `_consumer` is not None; the
-- times of a resume are in ticks of the monotonic clock.
pub record Listener : Type 0 where
  pub raw_stream_name : Bytes
  pub stream_name : Text
  pub key_range : Option (Value × Value)
  pub initial_cursor : Option Cursor
  pub max_record_bytes : ℕ
  pub resume_timeout : ℕ
  pub resume_poll_interval : ℕ
  pub consumer : Bool
  pub is_closed : Bool
  pub awaiting_ack : Bool
  pub delivery_failed : Bool

-- bridge/pipeline.py, class BridgePipeline. Delays are left out.
pub record Pipeline : Type 0 where
  pub topic : Bytes
  pub partition_key : Bytes
  pub ack_retries : ℕ
  pub commit_retries : ℕ
  pub pending_count : ℕ
  pub delivered_unacked : Bool
  pub checkpointed : Bool
  pub commit_outstanding : Bool

pub record World : Type 0 where
  pub producer : Producer
  pub client : Client
  pub listener : Listener
  pub pipeline : Pipeline
  pub trace : Trace

abbrev pub M : Type 0 → Type 0
M A = Exec World A
