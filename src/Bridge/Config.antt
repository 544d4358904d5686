-- ===== src/Bridge/Config.antt =====
-- bridge/config.py: the configuration classes, and `from_dict` with its checks in their order. The texts
-- of the messages are left out, and so is the rounding of `float` on an int.
pub mod Hex
pub mod Floats
pub mod Valid
pub mod Dictionary
use Prim.Native.String.{String}
use kafka_fdb_streamline.Common.{
  ⊤, ℕ, Bool, true, false, ◌&&◌, ◌||◌, not, Option, none, some, List, [], ◌∷◌, ltb, leb,
  if◌then◌else◌, is_empty, ℤ, pos, negsuc, leb_ℤ, ltb_ℤ, ◌==◌,
}
use kafka_fdb_streamline.Common.Dict
use kafka_fdb_streamline.Common.Dict.{Dict}
use kafka_fdb_streamline.Common.Number.{
  Float, to_float, Float, Number, whole, float, finite, infinite, nan, not_positive,
}
use kafka_fdb_streamline.Common.Texts.{codes, bytes_lt}
use kafka_fdb_streamline.Errors.{Exn, value_error, type_error, other_error}
use kafka_fdb_streamline.Exec.{Result, ok, err}
use kafka_fdb_streamline.Exec.Outcome.{◌>>=◌, ◌>>◌, refuse_if}
use kafka_fdb_streamline.Serialization.Model.{Text, Bytes}
use kafka_fdb_streamline.Bridge.Config.Hex.{from_hex}

-- A value of a configuration dictionary, as the checks tell values apart. `bytes` is bytes or bytearray.
pub data Setting : Type 0 where
  missing other : Setting
  bool : Bool → Setting
  number : Number → Setting
  str : Text → Setting
  bytes : Bytes → Setting

-- The value of a section: None, a dictionary, or something else.
pub data Section : Type 0 where
  absent no_dict : Section
  entries : Dict Setting → Section

pub record FdbConfig : Type 0 where
  pub api_version : ℤ
  pub cluster_file : Option Text

pub record CdcConfig : Type 0 where
  pub stream_name : Text
  pub begin_key : Bytes
  pub end_key : Bytes
  pub max_record_bytes : ℤ
  pub cursor_file : Option Text

pub record KafkaConfig : Type 0 where
  pub bootstrap_servers : Text
  pub topic : Text
  pub transactional_id : Option Text

pub record PipelineConfig : Type 0 where
  pub flush_timeout_seconds : Float
  pub backoff_base_seconds : Float
  pub backoff_max_seconds : Float
  pub shutdown_timeout_seconds : Float

pub record BridgeConfig : Type 0 where
  pub fdb : FdbConfig
  pub cdc : CdcConfig
  pub kafka : KafkaConfig
  pub pipeline : PipelineConfig

-- The characters that `str.strip` takes off.
unfoldable pub is_space : ℕ → Bool
is_space c =
    (leb 9 c && leb c 13)
    || (leb 28 c && leb c 32)
    || c == 133
    || c == 160
    || c == 5760
    || (leb 8192 c && leb c 8202)
    || c == 8232
    || c == 8233
    || c == 8239
    || c == 8287
    || c == 12288

-- `not text.strip()`
unfoldable pub is_blank : Text → Bool
unfolding is_space
is_blank [] = true
is_blank (c ∷ text) = is_space c && is_blank text

-- `_require_dict`
unfoldable pub require_dict : Section → Result (Dict Setting)
require_dict absent = ok []
require_dict (entries d) = ok d
require_dict no_dict = err type_error

-- `_reject_unknown_keys`, of the field names of the section's class.
unfoldable pub reject_unknown_keys {ℓ} : {V : Type ℓ} → List String → List (String × V) → Result ⊤
reject_unknown_keys known [] = ok tt
reject_unknown_keys known ((key, _) ∷ rest) =
    if Dict.has_key key known then reject_unknown_keys known rest else err value_error

-- `d.get(key, default)`
unfoldable pub get : String → Setting → Dict Setting → Setting
get key default d = elim (Dict.lookup key d) [ none ↦ default | some value ↦ value ]

-- `data.get(key)` of a section.
unfoldable pub get_section : String → List (String × Section) → Section
get_section key d = elim (Dict.lookup key d) [ none ↦ absent | some value ↦ value ]

-- `_parse_key`
unfoldable pub parse_key : Setting → Result Bytes
parse_key (str text) = elim (from_hex text) [ none ↦ err value_error | some key ↦ ok key ]
parse_key (bytes key) = ok key
parse_key _ = err type_error

-- An int of at least 1; a bool is no int here.
unfoldable pub positive_int : Setting → Result ℤ
positive_int (number (whole z)) = if ltb_ℤ z (pos 1) then err value_error else ok z
positive_int _ = err type_error

unfoldable pub optional_text : Setting → Result (Option Text)
optional_text missing = ok none
optional_text (str text) = ok (some text)
optional_text _ = err type_error

-- The check of cdc.stream_name.
unfoldable pub stream_text : Setting → Result Text
stream_text (str text) = if is_blank text then err value_error else ok text
stream_text _ = err type_error

-- The check of kafka.bootstrap_servers and kafka.topic.
unfoldable pub nonblank_text : Setting → Result Text
nonblank_text (str text) = if is_blank text then err value_error else ok text
nonblank_text _ = err value_error

unfoldable pub optional_nonblank : Setting → Result (Option Text)
optional_nonblank missing = ok none
optional_nonblank (str text) = if is_blank text then err value_error else ok (some text)
optional_nonblank _ = err type_error

-- The check of each setting of the pipeline.
abbrev pub or_overflow : Option Float → Result Float
or_overflow none = err other_error
or_overflow (some f) = ok f

-- `float(...)`, which raises OverflowError for an int that is too large.
unfoldable pub as_float : Number → Result Float
as_float n = or_overflow (to_float n)

-- The test of an interval: an int or a float that is not `<= 0`.
unfoldable pub positive_number : Setting → Result Number
positive_number (number n) = if not_positive n then err value_error else ok n
positive_number _ = err value_error

-- Both keys or neither, and begin below end.
unfoldable pub check_range : Bytes → Bytes → Result ⊤
check_range begin_key end_key = do
  refuse_if (not (is_empty begin_key) && is_empty end_key) value_error
  refuse_if (is_empty begin_key && not (is_empty end_key)) value_error
  refuse_if (not (is_empty begin_key) && not (bytes_lt begin_key end_key)) value_error

abbrev pub bridge_fields : List String
bridge_fields = "fdb" ∷ "cdc" ∷ "kafka" ∷ "pipeline" ∷ []

abbrev pub fdb_fields : List String
fdb_fields = "api_version" ∷ "cluster_file" ∷ []

abbrev pub cdc_fields : List String
cdc_fields = "stream_name" ∷ "begin_key" ∷ "end_key" ∷ "max_record_bytes" ∷ "cursor_file" ∷ []

abbrev pub kafka_fields : List String
kafka_fields = "bootstrap_servers" ∷ "topic" ∷ "transactional_id" ∷ []

abbrev pub pipeline_fields : List String
pipeline_fields =
    "flush_timeout_seconds" ∷ "backoff_base_seconds" ∷ "backoff_max_seconds"
    ∷ "shutdown_timeout_seconds" ∷ []

abbrev pub default_api_version : Setting
default_api_version = number (whole (pos 800))

abbrev pub default_max_record_bytes : Setting
default_max_record_bytes = number (whole (pos 1000000))

-- The floats 10.0, 0.1, 2.0 and 15.0.
abbrev pub default_flush_timeout : Setting
default_flush_timeout = number (float (finite (pos 5) (pos 1)))

abbrev pub default_backoff_base : Setting
default_backoff_base = number (float (finite (pos 3602879701896397) (negsuc 54)))

abbrev pub default_backoff_max : Setting
default_backoff_max = number (float (finite (pos 1) (pos 1)))

abbrev pub default_shutdown_timeout : Setting
default_shutdown_timeout = number (float (finite (pos 15) (pos 0)))

unfoldable pub read_fdb : Dict Setting → Result FdbConfig
read_fdb d = do
  api_version ← positive_int (get "api_version" default_api_version d)
  cluster_file ← optional_text (get "cluster_file" missing d)
  ok (record { api_version = api_version; cluster_file = cluster_file })

unfoldable pub read_cdc : Dict Setting → Result CdcConfig
read_cdc d = do
  stream_name ← stream_text (get "stream_name" (str []) d)
  begin_key ← parse_key (get "begin_key" (str []) d)
  end_key ← parse_key (get "end_key" (str []) d)
  check_range begin_key end_key
  max_record_bytes ← positive_int (get "max_record_bytes" default_max_record_bytes d)
  cursor_file ← optional_text (get "cursor_file" missing d)
  ok (record {
    stream_name = stream_name;
    begin_key = begin_key;
    end_key = end_key;
    max_record_bytes = max_record_bytes;
    cursor_file = cursor_file;
  })

unfoldable pub read_kafka : Dict Setting → Result KafkaConfig
read_kafka d = do
  bootstrap_servers ← nonblank_text (get "bootstrap_servers" (str (codes "localhost:9092")) d)
  topic ← nonblank_text (get "topic" (str (codes "fdb-cdc")) d)
  transactional_id ← optional_nonblank (get "transactional_id" missing d)
  ok (record {
    bootstrap_servers = bootstrap_servers;
    topic = topic;
    transactional_id = transactional_id;
  })

unfoldable pub read_pipeline : Dict Setting → Result PipelineConfig
read_pipeline d = do
  flush_timeout ← positive_number (get "flush_timeout_seconds" default_flush_timeout d)
  backoff_base ← positive_number (get "backoff_base_seconds" default_backoff_base d)
  backoff_max ← positive_number (get "backoff_max_seconds" default_backoff_max d)
  shutdown_timeout ← positive_number (get "shutdown_timeout_seconds" default_shutdown_timeout d)
  flush_timeout_seconds ← as_float flush_timeout
  backoff_base_seconds ← as_float backoff_base
  backoff_max_seconds ← as_float backoff_max
  shutdown_timeout_seconds ← as_float shutdown_timeout
  ok (record {
    flush_timeout_seconds = flush_timeout_seconds;
    backoff_base_seconds = backoff_base_seconds;
    backoff_max_seconds = backoff_max_seconds;
    shutdown_timeout_seconds = shutdown_timeout_seconds;
  })

-- `from_dict`; `none` is a value that is no dictionary.
unfoldable pub from_dict : Option (List (String × Section)) → Result BridgeConfig
from_dict none = err type_error
from_dict (some root) = do
  reject_unknown_keys bridge_fields root
  fdb ← require_dict (get_section "fdb" root)
  cdc ← require_dict (get_section "cdc" root)
  kafka ← require_dict (get_section "kafka" root)
  pipeline ← require_dict (get_section "pipeline" root)
  reject_unknown_keys fdb_fields fdb
  reject_unknown_keys cdc_fields cdc
  reject_unknown_keys kafka_fields kafka
  reject_unknown_keys pipeline_fields pipeline
  fdb_config ← read_fdb fdb
  cdc_config ← read_cdc cdc
  kafka_config ← read_kafka kafka
  pipeline_config ← read_pipeline pipeline
  ok (record {
    fdb = fdb_config;
    cdc = cdc_config;
    kafka = kafka_config;
    pipeline = pipeline_config;
  })
