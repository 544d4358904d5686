-- ===== src/Kafka/Settings.antt =====
-- kafka/producer.py, the settings of MutationProducer.__init__.
use Prim.Native.String.{String}
use kafka_fdb_streamline.Common.{
  ⊤, ℕ, Bool, true, false, ◌||◌, Option, none, some, List, [], ◌∷◌, is_empty, is_some, All, ◌∙◌,
  arith, if◌then◌else◌, ◌≡◌, refl, sym, subst, ap,
}
use mathlib.Core.Option.{map}
use kafka_fdb_streamline.Common.Dict.{
  Dict, same_text, has_key, lookup, insert, update, last_of, lookup-insert, lookup-update,
}
use kafka_fdb_streamline.Common.Texts.{codes}
use kafka_fdb_streamline.Errors.{value_error}
use kafka_fdb_streamline.Exec.{Result, ok}
use kafka_fdb_streamline.Exec.Outcome.{◌>>◌, refuse_if, bind_ok, guard_ok, ok_injective}
use kafka_fdb_streamline.Serialization.Model.{Text}
use kafka_fdb_streamline.World.{Producer}

-- A value of the configuration: the wrapper's own, or one that the caller supplied.
pub data Setting {ℓ} (V : Type ℓ) : Type ℓ where
  text : Text → Setting V
  flag : Bool → Setting V
  number : ℕ → Setting V
  own_error_cb : Setting V
  supplied : V → Setting V

module _ {ℓ} {V : Type ℓ} where
  -- `_MANDATORY_CONFIG`
  abbrev pub mandatory_config : Dict (Setting V)
  mandatory_config =
      ("acks", text (codes "all"))
      ∷ ("enable.idempotence", flag true)
      ∷ ("max.in.flight.requests.per.connection", number 5)
      ∷ ("enable.gapless.guarantee", flag true)
      ∷ ("message.timeout.ms", number 0)
      ∷ []

  -- `_DEFAULT_PERFORMANCE_CONFIG`
  abbrev pub default_performance_config : Dict (Setting V)
  default_performance_config =
      ("linger.ms", number 5) ∷ ("compression.type", text (codes "lz4")) ∷ []

  abbrev pub with_transactional_id : Option Text → Dict (Setting V) → Dict (Setting V)
  with_transactional_id none d = d
  with_transactional_id (some id) d = insert "transactional.id" (text id) d

-- `_FORBIDDEN_EXTRA_KEYS`
abbrev pub forbidden_extra_keys : List String
forbidden_extra_keys =
    "acks" ∷ "enable.idempotence" ∷ "max.in.flight.requests.per.connection"
    ∷ "enable.gapless.guarantee" ∷ "message.timeout.ms" ∷ "transactional.id" ∷ []

module _ {ℓ} {V : Type ℓ} where
  unfoldable pub has_forbidden : List (String × V) → Bool
  has_forbidden [] = false
  has_forbidden ((key, _) ∷ rest) = has_key key forbidden_extra_keys || has_forbidden rest

  unfoldable pub supplied_config : List (String × V) → Dict (Setting V)
  supplied_config [] = []
  supplied_config ((key, value) ∷ rest) = (key, supplied value) ∷ supplied_config rest

  -- The settings before the transactional id and the mandatory ones.
  unfoldable pub base_config : Text → List (String × V) → Dict (Setting V)
  base_config bootstrap_servers extra_config =
      update (supplied_config extra_config)
        (("bootstrap.servers", text bootstrap_servers) ∷ default_performance_config)

  -- `merged`
  unfoldable pub merged : Text → List (String × V) → Option Text → Dict (Setting V)
  unfolding base_config
  merged bootstrap_servers extra_config transactional_id = insert "error_cb" own_error_cb (
      update mandatory_config
        (with_transactional_id transactional_id (base_config bootstrap_servers extra_config)))

-- What the constructor leaves: its attributes, the settings that librdkafka got, and the caller's
-- `error_cb`.
pub record Constructed {ℓ} (V : Type ℓ) : Type ℓ where
  pub producer : Producer
  pub settings : Dict (Setting V)
  pub user_error_cb : Option V

abbrev pub is_empty_id : Option Text → Bool
is_empty_id none = false
is_empty_id (some id) = is_empty id

-- `__init__`. An `extra_config` of None reads as an empty one; `create` is confluent_kafka.Producer.
unfoldable pub construct {ℓ} :
    {V : Type ℓ}
    → (Dict (Setting V) → Result ⊤)
    → Text
    → List (String × V)
    → Option Text
    → Result (Constructed V)
construct create bootstrap_servers extra_config transactional_id = do
  refuse_if (is_empty_id transactional_id) value_error
  refuse_if (has_forbidden extra_config) value_error
  create (merged bootstrap_servers extra_config transactional_id)
  ok (record {
    producer = record {
      handle = true;
      delivery_errors = [];
      transactional = is_some transactional_id;
      txn_initialized = false;
      txn_open = false;
      closed = false;
      fatal = false;
    };
    settings = merged bootstrap_servers extra_config transactional_id;
    user_error_cb = lookup "error_cb" extra_config;
  })

module _ {ℓ} {V : Type ℓ} (servers : Text) (extra : List (String × V)) (id : Option Text) where
  -- The mandatory settings are written last but for `error_cb`.
  lookup-merged :
      (key : String)
      → lookup key (merged servers extra id) ≡ (
          if same_text "error_cb" key
          then some own_error_cb
          else last_of key
              (lookup key (with_transactional_id id (base_config servers extra)))
              mandatory_config)
  unfolding merged
  lookup-merged key =
      lookup-insert key "error_cb" own_error_cb _
      ∙ ap (λ rest. if same_text "error_cb" key then some own_error_cb else rest)
          (lookup-update key mandatory_config _)

  pub merged-mandatory :
      All
        (λ (entry : String × Setting V). lookup entry.0 (merged servers extra id) ≡ some entry.1)
        mandatory_config
  merged-mandatory = (
    lookup-merged "acks",
    (
      lookup-merged "enable.idempotence",
      (
        lookup-merged "max.in.flight.requests.per.connection",
        (lookup-merged "enable.gapless.guarantee", (lookup-merged "message.timeout.ms", tt)),
      ),
    ),
  )

last_of-allowed {ℓ} :
    {V : Type ℓ} (extra : List (String × V)) (old : Option (Setting V))
    → has_forbidden extra ≡ false
    → last_of "transactional.id" old (supplied_config extra) ≡ old
unfolding has_forbidden supplied_config has_key
last_of-allowed [] old h = refl
last_of-allowed ((key, value) ∷ rest) old h =
    let allowed = last_of-allowed rest old (ground arith) in
    let other_key : same_text key "transactional.id" ≡ false = ground arith in
    subst
      (λ b.
        last_of "transactional.id" (if b then some (supplied value) else old) (supplied_config rest)
        ≡ old)
      (sym other_key) allowed

base_config-transactional_id {ℓ} :
    {V : Type ℓ} (servers : Text) (extra : List (String × V))
    → has_forbidden extra ≡ false
    → lookup "transactional.id" (base_config servers extra) ≡ none
unfolding base_config lookup
base_config-transactional_id servers extra allowed =
    lookup-update "transactional.id" (supplied_config extra) _ ∙ last_of-allowed extra none allowed

lookup-transactional_id {ℓ} :
    {V : Type ℓ} (servers : Text) (extra : List (String × V)) (id : Option Text)
    → has_forbidden extra ≡ false
    → lookup "transactional.id" (merged servers extra id) ≡ map text id
lookup-transactional_id servers extra none allowed =
    lookup-merged servers extra none "transactional.id"
    ∙ base_config-transactional_id servers extra allowed
lookup-transactional_id servers extra (some id) allowed =
    lookup-merged servers extra (some id) "transactional.id"
    ∙ lookup-insert "transactional.id" "transactional.id" (text id) _

-- What the settings of a constructed producer promise, whatever the caller supplied.
pub record IsDurable {ℓ} {V : Type ℓ} (id : Option Text) (c : Constructed V) : Type ℓ where
  pub mandatory :
      All
        (λ (entry : String × Setting V). lookup entry.0 c.settings ≡ some entry.1)
        mandatory_config
  pub identified : lookup "transactional.id" c.settings ≡ map text id
  pub reports : lookup "error_cb" c.settings ≡ some own_error_cb
  pub mode : c.producer.transactional ≡ is_some id
  pub named : is_empty_id id ≡ false

-- A producer that the constructor returns got every mandatory setting, the given transactional id (and
-- none where none was given) and the wrapper's own `error_cb`, whatever the extra settings are; it is
-- transactional exactly if an id was given, and that id is not empty.
pub construct-IsDurable {ℓ} :
    {V : Type ℓ} (create : Dict (Setting V) → Result ⊤) (servers : Text) (extra : List (String × V))
    (id : Option Text) (c : Constructed V)
    → construct create servers extra id ≡ ok c
    → IsDurable id c
unfolding construct
construct-IsDurable create servers extra id c returned =
    let (named, h1) = guard_ok (is_empty_id id) value_error _ returned in
    let (allowed, h2) = guard_ok (has_forbidden extra) value_error _ h1 in
    let (_, _, same) = bind_ok (create (merged servers extra id)) _ h2 in
    subst (IsDurable id) (ok_injective same) (record {
      mandatory = merged-mandatory servers extra id;
      identified = lookup-transactional_id servers extra id allowed;
      reports = lookup-merged servers extra id "error_cb";
      mode = refl;
      named = named;
    })
