-- ===== src/Demo/Config/Range.antt =====
-- The configuration of the demo is accepted, and what its key range holds.
use kafka_fdb_streamline.Common.{
  ℕ, ◌+◌, ◌*◌, ◌/◌, ◌%◌, ◌<◌, true, false, ◌&&◌, not, Option, some, none, [], ◌∷◌, ◌++◌, is_empty,
  pos, negsuc, append-nil, subst, ◌⊎◌, All, All-append, ◌≡◌, refl, sym, ap, ◌∙◌, arith, Bool-cases,
  inl, inr,
}
use kafka_fdb_streamline.Common.Dict
use kafka_fdb_streamline.Common.Number.{to_float, finite, not_positive}
use kafka_fdb_streamline.Common.Texts.{codes, bytes_lt, starts_with, utf8, utf8_char}
use kafka_fdb_streamline.Errors.{value_error}
use kafka_fdb_streamline.Exec.{ok, err}
use kafka_fdb_streamline.Serialization.Model.{Text, Bytes}
use kafka_fdb_streamline.Cdc.KeyRange.{
  increment_last, strinc, strinc-range, strinc-raises, strinc-small, rstrip_ff,
}
use kafka_fdb_streamline.Bridge.Config.{
  as_float, str, BridgeConfig, from_dict, require_dict, reject_unknown_keys, get, get_section,
  parse_key, positive_int, optional_text, optional_nonblank, positive_number, read_fdb, read_cdc,
  read_kafka, read_pipeline, is_blank, is_space, check_range,
}
use kafka_fdb_streamline.Bridge.Config.Hex.{from_hex, is_ascii_space, hex_digit, from_hex-cons}
use kafka_fdb_streamline.Bridge.Config.Dictionary.{
  check_range-valid, nonblank_text-valid, stream_text-valid,
}
use kafka_fdb_streamline.Demo.Config.{hex_char, to_hex, prefix_of, demo_settings, demo_config}
use kafka_fdb_streamline.Demo.Native.Digits.{starts_with-append}

abbrev AreBytes : Bytes → Type 0
AreBytes = All (λ b. b < 256)

hex_digit-hex_char : (n : ℕ) → n < 16 → hex_digit (hex_char n) ≡ some n
unfolding hex_digit hex_char
hex_digit-hex_char n small = ground arith

not_space : (n : ℕ) → n < 16 → is_ascii_space (hex_char n) ≡ false
unfolding is_ascii_space hex_char
not_space n small = ground arith

from_hex_nil : from_hex [] ≡ some []
unfolding from_hex
from_hex_nil = refl

-- Bytes are read back from their hexadecimal text.
from_hex-to_hex : (bytes : Bytes) → AreBytes bytes → from_hex (to_hex bytes) ≡ some bytes
unfolding to_hex
from_hex-to_hex [] small = from_hex_nil
from_hex-to_hex (b ∷ bytes) (first, rest) =
    let whole : b / 16 * 16 + b % 16 ≡ b = omega arith in
    from_hex-cons (hex_char (b / 16)) (hex_char (b % 16)) (b / 16) (b % 16) (to_hex bytes) bytes
      (not_space (b / 16) (omega arith)) (hex_digit-hex_char (b / 16) (omega arith))
      (hex_digit-hex_char (b % 16) (omega arith)) (from_hex-to_hex bytes rest)
    ∙ ap (λ k. some (k ∷ bytes)) whole

utf8_ascii : (text : Text) → All (λ c. c < 128) text → utf8 text ≡ text
unfolding utf8 utf8_char
utf8_ascii [] small = refl
utf8_ascii (c ∷ text) (first, rest) = ground (arith, utf8_ascii text rest)

All-weaken : (text : Text) → All (λ c. c < 128) text → AreBytes text
All-weaken [] small = tt
All-weaken (c ∷ text) (first, rest) = (omega arith, All-weaken text rest)

strinc_cases : (p : Bytes) → ((e : Bytes) × (strinc p ≡ ok e)) ⊎ (strinc p ≡ err value_error)
unfolding strinc
strinc_cases p = elim (Bool-cases (is_empty (rstrip_ff p))) [
  | inl none_left ↦ inr (ground arith)
  | inr some_left ↦ inl (increment_last (rstrip_ff p), ground arith)
]

above_nonempty : (p e : Bytes) → bytes_lt p e ≡ true → is_empty e ≡ false
unfolding bytes_lt
above_nonempty [] [] less = cc
above_nonempty (b ∷ p) [] less = cc
above_nonempty p (b ∷ e) less = refl

-- The configuration as it is read.
abbrev demo_result : Text → Text → Bytes → BridgeConfig
demo_result run_id bootstrap_servers end_key = record {
  fdb = record { api_version = pos 800; cluster_file = none };
  cdc = record {
    stream_name = codes "demo-" ++ run_id;
    begin_key = prefix_of run_id;
    end_key = end_key;
    max_record_bytes = pos 1000000;
    cursor_file = some (codes "/tmp/fdb-kafka-demo-" ++ run_id ++ codes ".cursor.json");
  };
  kafka = record {
    bootstrap_servers = bootstrap_servers;
    topic = codes "fdb-cdc-demo-" ++ run_id;
    transactional_id = none;
  };
  pipeline = record {
    flush_timeout_seconds = (finite (pos 5) (pos 1));
    backoff_base_seconds = (finite (pos 3602879701896397) (negsuc 54));
    backoff_max_seconds = (finite (pos 1) (pos 1));
    shutdown_timeout_seconds = (finite (pos 15) (pos 0));
  };
}

parse_key-hex :
    (key : Bytes) → from_hex (to_hex key) ≡ some key → parse_key (str (to_hex key)) ≡ ok key
unfolding parse_key
parse_key-hex key read =
    ap (λ (o : Option Bytes). elim o [ none ↦ err value_error | some key ↦ ok key ]) read

demo_nonblank : (run_id : Text) → is_blank (codes "demo-" ++ run_id) ≡ false
unfolding is_blank is_space
demo_nonblank run_id = refl

topic_nonblank : (run_id : Text) → is_blank (codes "fdb-cdc-demo-" ++ run_id) ≡ false
unfolding is_blank is_space
topic_nonblank run_id = refl

from_dict-settings :
    (run_id bootstrap_servers : Text) (end_key : Bytes)
    → is_blank bootstrap_servers ≡ false
    → from_hex (to_hex (prefix_of run_id)) ≡ some (prefix_of run_id)
    → from_hex (to_hex end_key) ≡ some end_key
    → check_range (prefix_of run_id) end_key ≡ ok tt
    → from_dict (some (demo_settings run_id bootstrap_servers end_key))
      ≡ ok (demo_result run_id bootstrap_servers end_key)
unfolding from_dict demo_settings get_section require_dict reject_unknown_keys Dict.has_key
    Dict.lookup read_fdb read_cdc read_kafka read_pipeline get positive_int optional_text
    optional_nonblank positive_number as_float to_float not_positive
from_dict-settings run_id bootstrap_servers end_key named begin_read end_read range =
    rw
      (
        stream_text-valid (codes "demo-" ++ run_id) (demo_nonblank run_id),
        parse_key-hex (prefix_of run_id) begin_read,
        parse_key-hex end_key end_read,
        range,
        nonblank_text-valid bootstrap_servers named,
        nonblank_text-valid (codes "fdb-cdc-demo-" ++ run_id) (topic_nonblank run_id),
      )
      refl

module _ (run_id : Text) (ascii : All (λ c. c < 128) run_id) where
  abbrev text : Text
  text = codes "demo/" ++ run_id ++ codes "/"

  text-ascii : All (λ c. c < 128) text
  text-ascii =
      All-append (λ c. c < 128) (codes "demo/" ++ run_id) (codes "/")
        (All-append (λ c. c < 128) (codes "demo/") run_id (omega arith) ascii) (omega arith)

  prefix-text : prefix_of run_id ≡ text
  unfolding prefix_of
  prefix-text = utf8_ascii text text-ascii

  -- The prefix does not consist of 0xff bytes.
  strinc-prefix : (e : Bytes) × (strinc (prefix_of run_id) ≡ ok e)
  strinc-prefix = elim (strinc_cases (prefix_of run_id)) [
    | inl returned ↦ returned
    | inr raised ↦
        let all_ff : All (λ b. b ≡ 255) text =
          subst (All (λ b. b ≡ 255)) prefix-text ((strinc-raises (prefix_of run_id)).0 raised) in
        absurd (omega (arith, all_ff.0))
  ]

  prefix-AreBytes : AreBytes (prefix_of run_id)
  prefix-AreBytes = subst AreBytes (sym prefix-text) (All-weaken text text-ascii)

  begin_lt_end :
      (e : Bytes) → strinc (prefix_of run_id) ≡ ok e → bytes_lt (prefix_of run_id) e ≡ true
  begin_lt_end e returned =
      let p = prefix_of run_id in
      let own : starts_with p p ≡ true =
        ap (starts_with p) (sym (append-nil p)) ∙ starts_with-append p [] in
      let range = strinc-range p e p returned prefix-AreBytes in ground (arith, own, range)

  nonempty : (e : Bytes) → bytes_lt (prefix_of run_id) e ≡ true → is_empty e ≡ false
  nonempty e less = above_nonempty (prefix_of run_id) e less

  prefix_nonempty : is_empty (prefix_of run_id) ≡ false
  prefix_nonempty = ap is_empty prefix-text

  -- The configuration of the demo is accepted, whatever the servers but blank, for a run id of ASCII characters, and
  -- the key range in it holds exactly the keys with the demo's prefix.
  pub demo_config-range :
      (bootstrap_servers : Text)
      → is_blank bootstrap_servers ≡ false
      → (c : BridgeConfig) × (demo_config run_id bootstrap_servers ≡ ok c)
        × ((k : Bytes)
            → AreBytes k
            → starts_with (prefix_of run_id) k
              ≡ (not (bytes_lt k c.cdc.begin_key) && bytes_lt k c.cdc.end_key))
  unfolding demo_config
  demo_config-range bootstrap_servers named =
      let (e, returned) = strinc-prefix in
      let p = prefix_of run_id in
      let less = begin_lt_end e returned in
      let range = check_range-valid p e (inr (prefix_nonempty, nonempty e less, less)) in
      let small = strinc-small p e prefix-AreBytes returned in
      (
        demo_result run_id bootstrap_servers e,
        rw returned (
            from_dict-settings run_id bootstrap_servers e named (from_hex-to_hex p prefix-AreBytes)
              (from_hex-to_hex e small) range),
        λ k bytes. strinc-range p e k returned bytes,
      )
