-- ===== src/Bridge/Config/Dictionary.antt =====
-- The dictionary of a configuration, and that `from_dict` reads it back.
use Prim.Native.String.{String}
use kafka_fdb_streamline.Common.{false, Option, none, some, List, [], ◌∷◌, ℤ, ◌≡◌, refl, inl, inr}
use kafka_fdb_streamline.Common.Dict
use kafka_fdb_streamline.Common.Dict.{Dict}
use kafka_fdb_streamline.Common.Number.{to_float, float, Number, whole, not_positive}
use kafka_fdb_streamline.Exec.{ok}
use kafka_fdb_streamline.Serialization.Model.{Text, Bytes}
use kafka_fdb_streamline.Bridge.Config.{
  as_float, Setting, Section, entries, missing, number, str, bytes, FdbConfig, CdcConfig,
  KafkaConfig, PipelineConfig, BridgeConfig, is_blank, require_dict, reject_unknown_keys, get,
  get_section, parse_key, positive_int, optional_text, stream_text, nonblank_text,
  optional_nonblank, positive_number, check_range, read_fdb, read_cdc, read_kafka, read_pipeline,
  from_dict,
}
use kafka_fdb_streamline.Bridge.Config.Valid.{IsRange, IsNonblank, IsPositive, IsValidConfig}

abbrev optional : Option Text → Setting
optional none = missing
optional (some text) = str text

abbrev fdb_dict : FdbConfig → Dict Setting
fdb_dict c =
    ("api_version", number (whole c.api_version)) ∷ ("cluster_file", optional c.cluster_file) ∷ []

abbrev cdc_dict : CdcConfig → Dict Setting
cdc_dict c =
    ("stream_name", str c.stream_name)
    ∷ ("begin_key", bytes c.begin_key)
    ∷ ("end_key", bytes c.end_key)
    ∷ ("max_record_bytes", number (whole c.max_record_bytes))
    ∷ ("cursor_file", optional c.cursor_file)
    ∷ []

abbrev kafka_dict : KafkaConfig → Dict Setting
kafka_dict c =
    ("bootstrap_servers", str c.bootstrap_servers)
    ∷ ("topic", str c.topic)
    ∷ ("transactional_id", optional c.transactional_id)
    ∷ []

abbrev pipeline_dict : PipelineConfig → Dict Setting
pipeline_dict c =
    ("flush_timeout_seconds", number (float c.flush_timeout_seconds))
    ∷ ("backoff_base_seconds", number (float c.backoff_base_seconds))
    ∷ ("backoff_max_seconds", number (float c.backoff_max_seconds))
    ∷ ("shutdown_timeout_seconds", number (float c.shutdown_timeout_seconds))
    ∷ []

-- Every field of a configuration under its name.
abbrev pub to_dict : BridgeConfig → List (String × Section)
to_dict c =
    ("fdb", entries (fdb_dict c.fdb))
    ∷ ("cdc", entries (cdc_dict c.cdc))
    ∷ ("kafka", entries (kafka_dict c.kafka))
    ∷ ("pipeline", entries (pipeline_dict c.pipeline))
    ∷ []

positive_int-valid : (z : ℤ) → IsPositive z → positive_int (number (whole z)) ≡ ok z
unfolding positive_int
positive_int-valid z h = rw h

optional_text-optional : (t : Option Text) → optional_text (optional t) ≡ ok t
unfolding optional_text
optional_text-optional none = refl
optional_text-optional (some text) = refl

optional_nonblank-optional :
    (t : Option Text) → IsNonblank t → optional_nonblank (optional t) ≡ ok t
unfolding optional_nonblank
optional_nonblank-optional none h = refl
optional_nonblank-optional (some text) h = rw h

pub stream_text-valid : (t : Text) → is_blank t ≡ false → stream_text (str t) ≡ ok t
unfolding stream_text
stream_text-valid t h = rw h

pub nonblank_text-valid : (t : Text) → is_blank t ≡ false → nonblank_text (str t) ≡ ok t
unfolding nonblank_text
nonblank_text-valid t h = rw h

positive_number-valid : (n : Number) → not_positive n ≡ false → positive_number (number n) ≡ ok n
unfolding positive_number
positive_number-valid n h = rw h

pub check_range-valid : (b e : Bytes) → IsRange b e → check_range b e ≡ ok tt
unfolding check_range
check_range-valid b e (inl open_range) = rw (open_range.0, open_range.1)
check_range-valid b e (inr range) = rw (range.0, range.1, range.2)

read_fdb-fdb_dict : (c : FdbConfig) → IsPositive c.api_version → read_fdb (fdb_dict c) ≡ ok c
unfolding read_fdb get Dict.lookup
read_fdb-fdb_dict c h =
    rw (positive_int-valid c.api_version h, optional_text-optional c.cluster_file)

read_cdc-cdc_dict :
    (c : CdcConfig)
    → is_blank c.stream_name ≡ false
    → IsRange c.begin_key c.end_key
    → IsPositive c.max_record_bytes
    → read_cdc (cdc_dict c) ≡ ok c
unfolding read_cdc get parse_key Dict.lookup
read_cdc-cdc_dict c named range sized = rw (
  stream_text-valid c.stream_name named,
  check_range-valid c.begin_key c.end_key range,
  positive_int-valid c.max_record_bytes sized,
  optional_text-optional c.cursor_file,
)

read_kafka-kafka_dict :
    (c : KafkaConfig)
    → is_blank c.bootstrap_servers ≡ false
    → is_blank c.topic ≡ false
    → IsNonblank c.transactional_id
    → read_kafka (kafka_dict c) ≡ ok c
unfolding read_kafka get Dict.lookup
read_kafka-kafka_dict c servers topic identified = rw (
  nonblank_text-valid c.bootstrap_servers servers,
  nonblank_text-valid c.topic topic,
  optional_nonblank-optional c.transactional_id identified,
)

read_pipeline-pipeline_dict :
    (c : PipelineConfig)
    → not_positive (float c.flush_timeout_seconds) ≡ false
    → not_positive (float c.backoff_base_seconds) ≡ false
    → not_positive (float c.backoff_max_seconds) ≡ false
    → not_positive (float c.shutdown_timeout_seconds) ≡ false
    → read_pipeline (pipeline_dict c) ≡ ok c
unfolding read_pipeline as_float to_float get Dict.lookup
read_pipeline-pipeline_dict c flush base top shutdown = rw (
  positive_number-valid (float c.flush_timeout_seconds) flush,
  positive_number-valid (float c.backoff_base_seconds) base,
  positive_number-valid (float c.backoff_max_seconds) top,
  positive_number-valid (float c.shutdown_timeout_seconds) shutdown,
)

-- A valid configuration, written as a dictionary with its keys as bytes, is the configuration that
-- `from_dict` reads from that dictionary.
pub from_dict-to_dict : (c : BridgeConfig) → IsValidConfig c → from_dict (some (to_dict c)) ≡ ok c
unfolding from_dict get_section require_dict reject_unknown_keys Dict.has_key Dict.lookup
from_dict-to_dict c valid = rw (
  read_fdb-fdb_dict c.fdb valid.api_version,
  read_cdc-cdc_dict c.cdc valid.stream_name valid.range valid.max_record_bytes,
  read_kafka-kafka_dict c.kafka valid.bootstrap_servers valid.topic valid.transactional_id,
  read_pipeline-pipeline_dict c.pipeline valid.flush_timeout valid.backoff_base valid.backoff_max
      valid.shutdown_timeout,
)
