-- ===== src/World/Calls.antt =====
-- Calls out of the program and their answers.
use kafka_fdb_streamline.Common.{⊤, ℕ, Bool, Option, List, ℤ}
use kafka_fdb_streamline.Errors.{KafkaError}
use kafka_fdb_streamline.Exec.{Result}
use kafka_fdb_streamline.Serialization.Model.{Bytes, Value, NativeMutation}

-- The methods of confluent_kafka.Producer. Timeouts are left out.
pub data RdCall : Type 0 where
  rd_init_transactions rd_begin rd_commit rd_abort rd_poll rd_flush rd_len rd_purge : RdCall
  rd_produce : Bytes → Option Bytes → Bytes → RdCall

-- What librdkafka calls back while a method runs: a delivery report, or its `error_cb`.
pub data Callback : Type 0 where
  delivery_report : Option KafkaError → Callback
  client_error : KafkaError → Callback

-- A method's callbacks in order, and its number (0 where it returns none) or exception.
pub record RdReply : Type 0 where
  pub callbacks : List Callback
  pub outcome : Result ℕ

-- A native cursor by its two coordinates; `none` is a missing attribute.
pub record Cursor : Type 0 where
  pub stream_id : Option Value
  pub last_consumed_version : Option Value

-- The binding's calls besides those of a consumer.
pub data FdbCall : Type 0 where
  fdb_get_api_version fdb_open fdb_read_version fdb_list : FdbCall
  fdb_api_version : ℤ → FdbCall
  fdb_register : Bytes → Bytes → Bytes → FdbCall
  fdb_create_consumer fdb_remove : Bytes → FdbCall
  fdb_resume_consumer : Cursor → FdbCall

-- A version group of a native reply.
pub record NativeGroup : Type 0 where
  pub version : Value
  pub mutations : Option (List NativeMutation)

-- A native reply; a missing `mutations` reads as no group, a missing watermark as -1.
pub record NativeReply : Type 0 where
  pub groups : List NativeGroup
  pub last_consumed_version : ℤ

-- The end of a wait on the native consumer, and whether another thread closed the listener meanwhile.
pub record Waited (A : Type 0) : Type 0 where
  pub closed_meanwhile : Bool
  pub outcome : Result A

pub data Event : Type 0 where
  kafka : RdCall → RdReply → Event
  consumed : Waited NativeReply → Event
  acknowledged : Waited ⊤ → Event
  position_read : Result (Option Cursor) → Event
  checkpoint_saved : Option Cursor → Result ⊤ → Event
  clock_read monotonic_read slept : ℕ → Event
  fdb : FdbCall → Result ℤ → Event
  consumer_closed : Event

-- The latest event first.
abbrev pub Trace : Type 0
Trace = List Event

pub record Env : Type 0 where
  pub rd : Trace → RdCall → RdReply
  pub consume : Trace → Waited NativeReply
  pub acknowledge : Trace → Waited ⊤
  pub get_position : Trace → Result (Option Cursor)
  pub checkpoint : Trace → Option Cursor → Result ⊤
  pub time_ns : Trace → ℕ
  -- `time.monotonic`, in ticks.
  pub monotonic : Trace → ℕ
  -- Whether the module `fdb` could be imported, and its calls: a number, 0 where they give none.
  pub fdb_installed : Bool
  pub fdb : Trace → FdbCall → Result ℤ
