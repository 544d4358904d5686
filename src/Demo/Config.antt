-- ===== src/Demo/Config.antt =====
-- demo/run_demo.py: the configuration of its bridge.
pub mod Range
use Prim.Native.String.{String}
use kafka_fdb_streamline.Common.{
  ℕ, ◌+◌, ◌*◌, ◌/◌, ◌%◌, ◌<◌, true, false, ◌&&◌, not, Option, some, none, List, [], ◌∷◌, ◌++◌,
  is_empty, ltb, if◌then◌else◌, pos, negsuc, append-nil, subst, ◌⊎◌, All, All-append, ◌≡◌, refl,
  sym, ap, ◌∙◌, arith, Bool-cases, inl, inr,
}
use kafka_fdb_streamline.Common.Dict
use kafka_fdb_streamline.Common.Number.{whole, float, finite, not_positive}
use kafka_fdb_streamline.Common.Texts.{codes, bytes_lt, starts_with, utf8, utf8_char}
use kafka_fdb_streamline.Errors.{value_error}
use kafka_fdb_streamline.Exec.{Result, ok, err}
use kafka_fdb_streamline.Exec.Outcome.{◌>>=◌}
use kafka_fdb_streamline.Serialization.Model.{Text, Bytes}
use kafka_fdb_streamline.Cdc.KeyRange.{
  increment_last, strinc, strinc-range, strinc-raises, strinc-small, rstrip_ff,
}
use kafka_fdb_streamline.Bridge.Config.{
  Section, entries, number, str, BridgeConfig, from_dict, require_dict, reject_unknown_keys, get,
  get_section, parse_key, positive_int, optional_text, optional_nonblank, positive_number, read_fdb,
  read_cdc, read_kafka, read_pipeline, is_blank, is_space, default_flush_timeout,
  default_backoff_base, default_backoff_max, default_shutdown_timeout, check_range,
}
use kafka_fdb_streamline.Bridge.Config.Hex.{from_hex, is_ascii_space, hex_digit, from_hex-cons}
use kafka_fdb_streamline.Bridge.Config.Dictionary.{
  check_range-valid, nonblank_text-valid, stream_text-valid,
}
use kafka_fdb_streamline.Demo.Native.Digits.{starts_with-append}

-- `bytes.hex`
unfoldable pub hex_char : ℕ → ℕ
hex_char n = if ltb n 10 then 48 + n else 87 + n

unfoldable pub to_hex : Bytes → Text
to_hex [] = []
to_hex (b ∷ bytes) = hex_char (b / 16) ∷ hex_char (b % 16) ∷ to_hex bytes

unfoldable pub prefix_of : Text → Bytes
prefix_of run_id = utf8 (codes "demo/" ++ run_id ++ codes "/")

-- The dictionary literal; its floats are 10.0, 0.1, 2.0 and 15.0.
unfoldable pub demo_settings : Text → Text → Bytes → List (String × Section)
demo_settings run_id bootstrap_servers end_key =
    ("fdb", entries (("api_version", number (whole (pos 800))) ∷ []))
    ∷ (
      "cdc",
      entries (
          ("stream_name", str (codes "demo-" ++ run_id))
          ∷ ("begin_key", str (to_hex (prefix_of run_id)))
          ∷ ("end_key", str (to_hex end_key))
          ∷ ("max_record_bytes", number (whole (pos 1000000)))
          ∷ ("cursor_file", str (codes "/tmp/fdb-kafka-demo-" ++ run_id ++ codes ".cursor.json"))
          ∷ []),
    )
    ∷ (
      "kafka",
      entries (
          ("bootstrap_servers", str bootstrap_servers)
          ∷ ("topic", str (codes "fdb-cdc-demo-" ++ run_id))
          ∷ []),
    )
    ∷ (
      "pipeline",
      entries (
          ("flush_timeout_seconds", default_flush_timeout)
          ∷ ("backoff_base_seconds", default_backoff_base)
          ∷ ("backoff_max_seconds", default_backoff_max)
          ∷ ("shutdown_timeout_seconds", default_shutdown_timeout)
          ∷ []),
    )
    ∷ []

unfoldable pub demo_config : Text → Text → Result BridgeConfig
demo_config run_id bootstrap_servers = do
  end_key ← strinc (prefix_of run_id)
  from_dict (some (demo_settings run_id bootstrap_servers end_key))
