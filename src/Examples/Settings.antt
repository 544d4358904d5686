-- ===== src/Examples/Settings.antt =====
-- The theorems on settings, constructors and the cursor file at concrete inputs.
use Prim.Native.String.{String}
use kafka_fdb_streamline.Common.{
  ◌^◌, ◌+◌, ℕ, true, false, ◌&&◌, not, none, some, List, [], ◌∷◌, pos, ◌≡◌, ◌↔◌, refl, All, inr,
  arith,
}
use kafka_fdb_streamline.Common.Number.{
  nearest, rounded, leading, halvings, Number, whole, float, finite, not_positive, is_negative,
}
use kafka_fdb_streamline.Common.Decode.{decode}
use kafka_fdb_streamline.Common.Dict.{has_key, lookup}
use kafka_fdb_streamline.Common.Texts.{codes, bytes_lt, starts_with, utf8}
use kafka_fdb_streamline.Errors.{value_error}
use kafka_fdb_streamline.Exec.{ok, err}
use kafka_fdb_streamline.Serialization.Model.{Value}
use kafka_fdb_streamline.Serialization.Checks.{encodes_as_utf8}
use kafka_fdb_streamline.World.{Listener, Pipeline}
use kafka_fdb_streamline.Cdc.Client.{to_bytes}
use kafka_fdb_streamline.Cdc.KeyRange.{
  subspace_prefix, key_prefix, rstrip_ff, increment_last, strinc, range_of, subspace_to_key_range,
  strinc-raises, subspace_to_key_range-range,
}
use kafka_fdb_streamline.Cdc.Construct
use kafka_fdb_streamline.Kafka.Settings
use kafka_fdb_streamline.Bridge.Construct as PipelineConstruct
use kafka_fdb_streamline.Bridge.Pipeline.{resolve_partition_key}
use kafka_fdb_streamline.Bridge.Config.{BridgeConfig, is_space, is_blank, from_dict}
use kafka_fdb_streamline.Bridge.Config.Valid.{IsValidConfig, from_dict-IsValidConfig}
use kafka_fdb_streamline.Bridge.Config.Dictionary.{to_dict, from_dict-to_dict}
use kafka_fdb_streamline.Bridge.CursorFile.Disk.{whole}

abbrev seconds : Number
seconds = float (finite (pos 5) (pos 1))

abbrev pub orders : BridgeConfig
orders = record {
  fdb = record { api_version = pos 800; cluster_file = none };
  cdc = record {
    stream_name = codes "orders";
    begin_key = 1 ∷ [];
    end_key = 2 ∷ [];
    max_record_bytes = pos 1000;
    cursor_file = some (codes "cursor.json");
  };
  kafka = record {
    bootstrap_servers = codes "kafka:9092";
    topic = codes "orders";
    transactional_id = some (codes "bridge");
  };
  pipeline = record {
    flush_timeout_seconds = finite (pos 5) (pos 1);
    backoff_base_seconds = finite (pos 5) (pos 1);
    backoff_max_seconds = finite (pos 5) (pos 1);
    shutdown_timeout_seconds = finite (pos 15) (pos 0);
  };
}

orders-IsValidConfig : IsValidConfig orders
unfolding is_blank is_space not_positive bytes_lt
orders-IsValidConfig = record {
  api_version = refl;
  stream_name = refl;
  range = inr (refl, refl, refl);
  max_record_bytes = refl;
  bootstrap_servers = refl;
  topic = refl;
  transactional_id = refl;
  flush_timeout = refl;
  backoff_base = refl;
  backoff_max = refl;
  shutdown_timeout = refl;
}

from_dict-to_dict_example : from_dict (some (to_dict orders)) ≡ ok orders
from_dict-to_dict_example = from_dict-to_dict orders orders-IsValidConfig

from_dict-IsValidConfig_example : IsValidConfig orders
from_dict-IsValidConfig_example =
    from_dict-IsValidConfig (to_dict orders) orders (from_dict-to_dict orders orders-IsValidConfig)

range_of_prefix : subspace_to_key_range (key_prefix (7 ∷ 255 ∷ [])) ≡ ok (7 ∷ 255 ∷ [], 8 ∷ [])
unfolding subspace_to_key_range range_of strinc rstrip_ff increment_last
range_of_prefix = refl

subspace_to_key_range-range_example :
    (subspace_prefix (key_prefix (7 ∷ 255 ∷ [])) ≡ ok (7 ∷ 255 ∷ []))
    × (starts_with (7 ∷ 255 ∷ []) (7 ∷ 255 ∷ 3 ∷ []) ≡ (
        not (bytes_lt (7 ∷ 255 ∷ 3 ∷ []) (7 ∷ 255 ∷ [])) && bytes_lt (7 ∷ 255 ∷ 3 ∷ []) (8 ∷ [])))
subspace_to_key_range-range_example =
    subspace_to_key_range-range (key_prefix (7 ∷ 255 ∷ [])) (7 ∷ 255 ∷ []) (8 ∷ [])
      (7 ∷ 255 ∷ 3 ∷ []) range_of_prefix (omega arith, (omega arith, (omega arith, tt)))

strinc-raises_example :
    (strinc (255 ∷ 255 ∷ []) ≡ err value_error) ↔ All (λ (b : ℕ). b ≡ 255) (255 ∷ 255 ∷ [])
strinc-raises_example = strinc-raises (255 ∷ 255 ∷ [])

abbrev ticks : Number → ℕ
ticks _ = 10

abbrev pub listener_arguments : Construct.Arguments
listener_arguments = record {
  stream_name = Value.str (codes "orders");
  key_range = none;
  subspace = some (key_prefix (7 ∷ []));
  cursor = none;
  max_record_bytes = Value.int (pos 1000);
  resume_timeout_seconds = some seconds;
  resume_poll_interval_seconds = some (whole (pos 1));
}

abbrev orders_listener : Listener
orders_listener = record {
  raw_stream_name = codes "orders";
  stream_name = codes "orders";
  key_range = some (Value.bytes (7 ∷ []), Value.bytes (8 ∷ []));
  initial_cursor = none;
  max_record_bytes = 1000;
  resume_timeout = 10;
  resume_poll_interval = 10;
  consumer = false;
  is_closed = false;
  awaiting_ack = false;
  delivery_failed = false;
}

orders_made : Construct.construct ticks listener_arguments ≡ ok orders_listener
unfolding Construct.construct Construct.record_limit Construct.positive_seconds
    Construct.key_range_of not_positive to_bytes encodes_as_utf8 utf8 decode subspace_to_key_range
    range_of strinc rstrip_ff increment_last
orders_made = refl

construct-IsConstructed_example : Construct.IsConstructed listener_arguments orders_listener
construct-IsConstructed_example =
    Construct.construct-IsConstructed ticks listener_arguments orders_listener orders_made

construct-stream_name_example : orders_listener.stream_name ≡ codes "orders"
construct-stream_name_example =
    Construct.construct-stream_name ticks listener_arguments (codes "orders") orders_listener refl
      (omega arith, (omega arith, (omega arith, (omega arith, (omega arith, (omega arith, tt))))))
      orders_made

-- A caller's own settings.
abbrev extra : List (String × ℕ)
extra = ("linger.ms", 50) ∷ ("client.id", 1) ∷ []

abbrev kafka_made : Settings.Constructed ℕ
kafka_made = record {
  producer = record {
    handle = true;
    delivery_errors = [];
    transactional = true;
    txn_initialized = false;
    txn_open = false;
    closed = false;
    fatal = false;
  };
  settings = Settings.merged (codes "kafka:9092") extra (some (codes "bridge"));
  user_error_cb = none;
}

kafka_constructed :
    Settings.construct (λ _. ok tt) (codes "kafka:9092") extra (some (codes "bridge"))
    ≡ ok kafka_made
unfolding Settings.construct Settings.has_forbidden has_key lookup
kafka_constructed = refl

construct-IsDurable_example : Settings.IsDurable (some (codes "bridge")) kafka_made
construct-IsDurable_example =
    Settings.construct-IsDurable (λ _. ok tt) (codes "kafka:9092") extra (some (codes "bridge"))
      kafka_made kafka_constructed

abbrev pipeline_arguments : PipelineConstruct.Arguments
pipeline_arguments = record {
  topic = codes "orders";
  partition_key = none;
  ack_retries = Value.int (pos 3);
  ack_retry_delay_seconds = some seconds;
  commit_retries = Value.int (pos 3);
  commit_retry_delay_seconds = some seconds;
  flush_timeout_seconds = some seconds;
}

abbrev orders_pipeline : Pipeline
orders_pipeline = record {
  topic = codes "orders";
  partition_key = codes "orders";
  ack_retries = 3;
  commit_retries = 3;
  pending_count = 0;
  delivered_unacked = false;
  checkpointed = false;
  commit_outstanding = false;
}

pipeline_made : PipelineConstruct.construct orders_listener pipeline_arguments ≡ ok orders_pipeline
unfolding PipelineConstruct.construct PipelineConstruct.retries PipelineConstruct.require_delay
    is_negative not_positive PipelineConstruct.partition_key_of resolve_partition_key
pipeline_made = refl

construct-IsReady_example : PipelineConstruct.IsReady orders_pipeline
construct-IsReady_example =
    PipelineConstruct.construct-IsReady orders_listener pipeline_arguments orders_pipeline
      pipeline_made

-- An int beyond 2 ^ 53 is rounded to the float next to it, to the even one of two.
rounds_down : nearest (2 ^ 53 + 1) ≡ some (2 ^ 52, 1)
unfolding nearest rounded leading halvings
rounds_down = refl

rounds_up : nearest (2 ^ 53 + 3) ≡ some (2 ^ 52 + 2, 1)
unfolding nearest rounded leading halvings
rounds_up = refl

too_large : nearest (2 ^ 1024) ≡ none
unfolding nearest rounded leading halvings
too_large = refl
