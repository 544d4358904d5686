-- ===== src/Bridge/Config/Valid.antt =====
-- What a configuration that `from_dict` returns is like, and that each such configuration comes back from
-- its dictionary.
use Prim.Native.String.{String}
use kafka_fdb_streamline.Common.{
  ⊤, true, false, Option, none, some, List, [], ◌∷◌, is_empty, ℤ, pos, ltb_ℤ, ◌≡◌, refl, ◌⊎◌, inl,
  inr, arith, subst,
}
use kafka_fdb_streamline.Common.Dict.{Dict}
use kafka_fdb_streamline.Common.Number.{Number, whole, float, not_positive}
use kafka_fdb_streamline.Common.Texts.{bytes_lt}
use kafka_fdb_streamline.Exec.{ok}
use kafka_fdb_streamline.Exec.Outcome.{bind_ok, ok_injective}
use kafka_fdb_streamline.Serialization.Model.{Text, Bytes}
use kafka_fdb_streamline.Bridge.Config.Floats.{as_float-positive}
use kafka_fdb_streamline.Bridge.Config.{
  as_float, Setting, Section, missing, other, bool, number, str, bytes, FdbConfig, CdcConfig,
  KafkaConfig, PipelineConfig, BridgeConfig, is_blank, require_dict, reject_unknown_keys, get,
  get_section, parse_key, positive_int, optional_text, stream_text, nonblank_text,
  optional_nonblank, positive_number, check_range, read_fdb, read_cdc, read_kafka, read_pipeline,
  from_dict,
}

-- The key range is left out, or its begin is below its end.
abbrev pub IsRange : Bytes → Bytes → Type 0
IsRange begin_key end_key =
    ((begin_key ≡ []) × (end_key ≡ []))
    ⊎ ((is_empty begin_key ≡ false)
        × (is_empty end_key ≡ false)
        × (bytes_lt begin_key end_key ≡ true))

abbrev pub IsNonblank : Option Text → Type 0
IsNonblank none = Unit
IsNonblank (some text) = is_blank text ≡ false

abbrev pub IsPositive : ℤ → Type 0
IsPositive z = ltb_ℤ z (pos 1) ≡ false

-- What the docstring of `from_dict` asks of a configuration.
pub record IsValidConfig (c : BridgeConfig) : Type 0 where
  pub api_version : IsPositive c.fdb.api_version
  pub stream_name : is_blank c.cdc.stream_name ≡ false
  pub range : IsRange c.cdc.begin_key c.cdc.end_key
  pub max_record_bytes : IsPositive c.cdc.max_record_bytes
  pub bootstrap_servers : is_blank c.kafka.bootstrap_servers ≡ false
  pub topic : is_blank c.kafka.topic ≡ false
  pub transactional_id : IsNonblank c.kafka.transactional_id
  pub flush_timeout : not_positive (float c.pipeline.flush_timeout_seconds) ≡ false
  pub backoff_base : not_positive (float c.pipeline.backoff_base_seconds) ≡ false
  pub backoff_max : not_positive (float c.pipeline.backoff_max_seconds) ≡ false
  pub shutdown_timeout : not_positive (float c.pipeline.shutdown_timeout_seconds) ≡ false

positive_int-IsPositive : (s : Setting) (z : ℤ) → positive_int s ≡ ok z → IsPositive z
unfolding positive_int
positive_int-IsPositive (number (whole y)) z h = ground arith
positive_int-IsPositive _ z h = cc

stream_text-nonblank : (s : Setting) (t : Text) → stream_text s ≡ ok t → is_blank t ≡ false
unfolding stream_text
stream_text-nonblank (str text) t h = ground arith
stream_text-nonblank _ t h = cc

nonblank_text_lem : (s : Setting) (t : Text) → nonblank_text s ≡ ok t → is_blank t ≡ false
unfolding nonblank_text
nonblank_text_lem (str text) t h = ground arith
nonblank_text_lem _ t h = cc

optional_nonblank-IsNonblank :
    (s : Setting) (t : Option Text) → optional_nonblank s ≡ ok t → IsNonblank t
unfolding optional_nonblank
optional_nonblank-IsNonblank s none h = tt
optional_nonblank-IsNonblank missing (some t) h = cc
optional_nonblank-IsNonblank (str text) (some t) h = ground arith
optional_nonblank-IsNonblank other (some t) h = cc
optional_nonblank-IsNonblank (bool b) (some t) h = cc
optional_nonblank-IsNonblank (number n) (some t) h = cc
optional_nonblank-IsNonblank (bytes b) (some t) h = cc

positive_number_lem : (s : Setting) (n : Number) → positive_number s ≡ ok n → not_positive n ≡ false
unfolding positive_number
positive_number_lem (number m) n h = ground arith
positive_number_lem _ n h = cc

check_range-IsRange : (b e : Bytes) (u : ⊤) → check_range b e ≡ ok u → IsRange b e
unfolding check_range
check_range-IsRange [] [] u h = inl (refl, refl)
check_range-IsRange [] (y ∷ e) u h = cc
check_range-IsRange (x ∷ b) [] u h = cc
check_range-IsRange (x ∷ b) (y ∷ e) u h = inr (refl, refl, ground arith)

read_fdb-IsPositive :
    (d : Dict Setting) (c : FdbConfig) → read_fdb d ≡ ok c → IsPositive c.api_version
unfolding read_fdb
read_fdb-IsPositive d c h =
    let (z, checked, h1) = bind_ok (positive_int (get "api_version" _ d)) _ h in
    let (_, _, same) = bind_ok (optional_text (get "cluster_file" missing d)) _ h1 in
    subst (λ (x : FdbConfig). IsPositive x.api_version) (ok_injective same)
      (positive_int-IsPositive _ z checked)

-- The checked part of a CDC configuration.
record IsCdc (c : CdcConfig) : Type 0 where
  name : is_blank c.stream_name ≡ false
  range : IsRange c.begin_key c.end_key
  size : IsPositive c.max_record_bytes

read_cdc-IsCdc : (d : Dict Setting) (c : CdcConfig) → read_cdc d ≡ ok c → IsCdc c
unfolding read_cdc
read_cdc-IsCdc d c h =
    let (name, named, h1) = bind_ok (stream_text (get "stream_name" (str []) d)) _ h in
    let (begin_key, _, h2) = bind_ok (parse_key (get "begin_key" (str []) d)) _ h1 in
    let (end_key, _, h3) = bind_ok (parse_key (get "end_key" (str []) d)) _ h2 in
    let (u, ranged, h4) = bind_ok (check_range begin_key end_key) _ h3 in
    let (size, sized, h5) = bind_ok (positive_int (get "max_record_bytes" _ d)) _ h4 in
    let (_, _, same) = bind_ok (optional_text (get "cursor_file" missing d)) _ h5 in
    subst IsCdc (ok_injective same) (record {
      name = stream_text-nonblank _ name named;
      range = check_range-IsRange begin_key end_key u ranged;
      size = positive_int-IsPositive _ size sized;
    })

record IsKafka (c : KafkaConfig) : Type 0 where
  servers : is_blank c.bootstrap_servers ≡ false
  named : is_blank c.topic ≡ false
  identified : IsNonblank c.transactional_id

read_kafka-IsKafka : (d : Dict Setting) (c : KafkaConfig) → read_kafka d ≡ ok c → IsKafka c
unfolding read_kafka
read_kafka-IsKafka d c h =
    let (servers, serving, h1) = bind_ok (nonblank_text (get "bootstrap_servers" _ d)) _ h in
    let (topic, named, h2) = bind_ok (nonblank_text (get "topic" _ d)) _ h1 in
    let (id, identified, same) =
      bind_ok (optional_nonblank (get "transactional_id" missing d)) _ h2 in
    subst IsKafka (ok_injective same) (record {
      servers = nonblank_text_lem _ servers serving;
      named = nonblank_text_lem _ topic named;
      identified = optional_nonblank-IsNonblank _ id identified;
    })

record IsTimed (c : PipelineConfig) : Type 0 where
  flush : not_positive (float c.flush_timeout_seconds) ≡ false
  base : not_positive (float c.backoff_base_seconds) ≡ false
  top : not_positive (float c.backoff_max_seconds) ≡ false
  shutdown : not_positive (float c.shutdown_timeout_seconds) ≡ false

read_pipeline-IsTimed : (d : Dict Setting) (c : PipelineConfig) → read_pipeline d ≡ ok c → IsTimed c
unfolding read_pipeline
read_pipeline-IsTimed d c h =
    let (a, flush, h1) = bind_ok (positive_number (get "flush_timeout_seconds" _ d)) _ h in
    let (b, base, h2) = bind_ok (positive_number (get "backoff_base_seconds" _ d)) _ h1 in
    let (m, top, h3) = bind_ok (positive_number (get "backoff_max_seconds" _ d)) _ h2 in
    let (t, shutdown, same) = bind_ok (positive_number (get "shutdown_timeout_seconds" _ d)) _ h3 in
    let (a', f1, h4) = bind_ok (as_float a) _ same in
    let (b', f2, h5) = bind_ok (as_float b) _ h4 in
    let (m', f3, h6) = bind_ok (as_float m) _ h5 in
    let (t', f4, same) = bind_ok (as_float t) _ h6 in
    subst IsTimed (ok_injective same) (record {
      flush = as_float-positive a a' (positive_number_lem _ a flush) f1;
      base = as_float-positive b b' (positive_number_lem _ b base) f2;
      top = as_float-positive m m' (positive_number_lem _ m top) f3;
      shutdown = as_float-positive t t' (positive_number_lem _ t shutdown) f4;
    })

-- A configuration that `from_dict` returns is valid: every name that it needs is there and not blank, its
-- key range is empty or has its begin below its end, and no number of it is zero or below.
pub from_dict-IsValidConfig :
    (root : List (String × Section)) (c : BridgeConfig)
    → from_dict (some root) ≡ ok c
    → IsValidConfig c
unfolding from_dict
from_dict-IsValidConfig root c h =
    let (_, _, h1) = bind_ok (reject_unknown_keys _ root) _ h in
    let (fdb, _, h2) = bind_ok (require_dict (get_section "fdb" root)) _ h1 in
    let (cdc, _, h3) = bind_ok (require_dict (get_section "cdc" root)) _ h2 in
    let (kafka, _, h4) = bind_ok (require_dict (get_section "kafka" root)) _ h3 in
    let (pipeline, _, h5) = bind_ok (require_dict (get_section "pipeline" root)) _ h4 in
    let (_, _, h6) = bind_ok (reject_unknown_keys _ fdb) _ h5 in
    let (_, _, h7) = bind_ok (reject_unknown_keys _ cdc) _ h6 in
    let (_, _, h8) = bind_ok (reject_unknown_keys _ kafka) _ h7 in
    let (_, _, h9) = bind_ok (reject_unknown_keys _ pipeline) _ h8 in
    let (f, is_f, h10) = bind_ok (read_fdb fdb) _ h9 in
    let (s, is_s, h11) = bind_ok (read_cdc cdc) _ h10 in
    let (k, is_k, h12) = bind_ok (read_kafka kafka) _ h11 in
    let (p, is_p, same) = bind_ok (read_pipeline pipeline) _ h12 in
    let streams = read_cdc-IsCdc cdc s is_s in
    let brokers = read_kafka-IsKafka kafka k is_k in
    let times = read_pipeline-IsTimed pipeline p is_p in
    subst IsValidConfig (ok_injective same) (record {
      api_version = read_fdb-IsPositive fdb f is_f;
      stream_name = streams.name;
      range = streams.range;
      max_record_bytes = streams.size;
      bootstrap_servers = brokers.servers;
      topic = brokers.named;
      transactional_id = brokers.identified;
      flush_timeout = times.flush;
      backoff_base = times.base;
      backoff_max = times.top;
      shutdown_timeout = times.shutdown;
    })
