-- ===== src/Bridge/Daemon.antt =====
-- bridge/pipeline.py, class Bridge. Each build of a pipeline begins a generation: its calls are a trace of
-- their own, which an environment of its own answers. Waiting, logging and locks are left out, but for the
-- two tries of `stop` to get the lock.
pub mod Factory
pub mod Build
pub mod Run
pub mod Stop
pub mod Counting
pub mod Lift
pub mod Sound
pub mod Session
pub mod Finish
pub mod Orderly
pub mod Commands
pub mod Create
pub mod Errors
use kafka_fdb_streamline.Common.{
  ⊤, ℕ, zero, suc, ◌+◌, Bool, true, false, ◌&&◌, ◌||◌, not, Option, none, some, List, [], ◌∷◌,
  is_empty, if◌then◌else◌, length, ltb, ℤ, pos, negsuc, ◌==◌,
}
use kafka_fdb_streamline.Common.Number.{Number, float, finite}
use kafka_fdb_streamline.Common.Texts.{utf8}
use kafka_fdb_streamline.Errors.{
  Exn, runtime_error, not_started, value_error, cdc, terminal, kafka_exception, buffer_error,
}
use kafka_fdb_streamline.Exec.{
  Result, ok, err, Exec, pure, raise, gets, lift, catch, modify, raise_if, ◌>>=◌, ◌>>◌,
}
use kafka_fdb_streamline.Serialization.Model.{Value, Bytes, Text}
use kafka_fdb_streamline.Serialization.Message.{FdbMutationRecord, RecordArm, Protobuf}
use kafka_fdb_streamline.World.{Cursor, Env, Producer, Listener, Pipeline, World, M}
use kafka_fdb_streamline.Kafka.Faults.{is_fatal_kafka_error}
use kafka_fdb_streamline.Kafka.Producer
use kafka_fdb_streamline.Cdc.Client
use kafka_fdb_streamline.Cdc.Client.{to_bytes}
use kafka_fdb_streamline.Cdc.Listener
use kafka_fdb_streamline.Cdc.Construct
use kafka_fdb_streamline.Bridge.Config.{BridgeConfig}
use kafka_fdb_streamline.Bridge.Pipeline
use kafka_fdb_streamline.Bridge.Construct as PipelineConstruct

-- BridgeMetrics
pub record Metrics : Type 0 where
  pub mutations_published : ℕ
  pub records_published : ℕ
  pub batches_acked : ℕ
  pub errors_retried : ℕ

-- What stands outside the bridge while one generation lasts: the answers to its calls, what a load of the
-- cursor file gives, what a factory that the caller gave makes, and how confluent_kafka.Producer returns.
pub record Generation : Type 0 where
  pub env : Env
  pub cursor : Result (Option Cursor)
  pub producer : Result Producer
  pub created : Result ⊤

-- The configuration, the clock's ticks for a number of seconds, the generations by their number, and the
-- protobuf runtime.
pub record Setup : Type 0 where
  pub config : BridgeConfig
  pub ticks : Number → ℕ
  pub generations : ℕ → Generation
  pub pb : Protobuf

-- The attributes of the bridge. `world` holds the objects; the three flags say which attributes are not
-- None. `past` holds the generations before. `default_factory` is
-- whether `_producer_factory` is `_producer_from_config`. `rebuild_pending` is the variable of `run`.
pub record Daemon : Type 0 where
  pub world : World
  pub past : List World
  pub default_factory : Bool
  pub has_client : Bool
  pub has_listener : Bool
  pub has_producer : Bool
  pub has_pipeline : Bool
  pub last_records : List FdbMutationRecord
  pub shutdown_requested : Bool
  pub rebuild_pending : Bool
  pub metrics : Metrics

abbrev pub D : Type 0 → Type 0
D A = Exec Daemon A

unfoldable pub change : (Daemon → Daemon) → D ⊤
unfolding modify
change f = modify f

-- The placeholders of a generation's objects before they are built.
abbrev pub no_listener : Listener
no_listener = record {
  raw_stream_name = [];
  stream_name = [];
  key_range = none;
  initial_cursor = none;
  max_record_bytes = 1;
  resume_timeout = 0;
  resume_poll_interval = 0;
  consumer = false;
  is_closed = false;
  awaiting_ack = false;
  delivery_failed = false;
}

abbrev pub no_pipeline : Pipeline
no_pipeline = record {
  topic = [];
  partition_key = [];
  ack_retries = 1;
  commit_retries = 1;
  pending_count = 0;
  delivered_unacked = false;
  checkpointed = false;
  commit_outstanding = false;
}

abbrev pub no_producer : Producer
no_producer = record {
  handle = false;
  delivery_errors = [];
  transactional = false;
  txn_initialized = false;
  txn_open = false;
  closed = false;
  fatal = false;
}

unfoldable pub drop_pipeline : Daemon → Daemon
drop_pipeline d = record d { has_pipeline = false; last_records = [] }

unfoldable pub drop_listener : Daemon → Daemon
drop_listener d = record d { has_listener = false }

unfoldable pub drop_producer : Daemon → Daemon
drop_producer d = record d { has_producer = false }

-- `except Exception: logger.exception(...)`
unfoldable pub logged : D ⊤ → D ⊤
logged m = catch m (λ _. pure tt)

unfoldable pub request_shutdown : Daemon → Daemon
request_shutdown d = record d { shutdown_requested = true }
