-- ===== src/Bridge/Daemon/Create.antt =====
-- bridge/pipeline.py, class Bridge: __init__ and _producer_from_config.
use kafka_fdb_streamline.Common.{
  ⊤, Bool, true, false, ◌&&◌, not, Option, none, some, [], is_some, if◌then◌else◌, ◌≡◌, refl, sym,
  subst, ap, ◌∙◌, arith,
}
use kafka_fdb_streamline.Common.Dict.{Dict}
use kafka_fdb_streamline.Errors.{value_error}
use kafka_fdb_streamline.Exec.{Result, ok}
use kafka_fdb_streamline.Exec.Outcome.{◌>>◌, refuse_if, bind_ok, guard_ok, ok_injective}
use kafka_fdb_streamline.World.{Client, Listener, Producer}
use kafka_fdb_streamline.Kafka.Settings
use kafka_fdb_streamline.Kafka.Settings.{Setting, construct-IsDurable}
use kafka_fdb_streamline.Bridge.Config.{BridgeConfig}
use kafka_fdb_streamline.Bridge.Daemon.{
  Setup, Generation, Daemon, no_listener, no_producer, no_pipeline,
}
use kafka_fdb_streamline.Bridge.Daemon.Factory.{producer_from_config}
use kafka_fdb_streamline.Bridge.Daemon.Build.{call_factory}
use kafka_fdb_streamline.Bridge.Daemon.Commands.{IsConstructed}

-- The components that a caller may give.
pub record Injected : Type 0 where
  pub client : Option Client
  pub listener : Option Listener
  pub producer : Option Producer
  pub has_producer_factory : Bool

abbrev pub given {ℓ} : {A : Type ℓ} → Option A → A → A
given none default = default
given (some a) default = a

abbrev pub is_transactional : Option Producer → Bool
is_transactional none = false
is_transactional (some p) = p.transactional

-- A rebuild would replace a transactional producer by one that is not.
unfoldable pub downgrades : BridgeConfig → Injected → Bool
downgrades config i =
    is_transactional i.producer
    && not i.has_producer_factory
    && not (is_some config.kafka.transactional_id)

-- `__init__`
unfoldable pub construct : BridgeConfig → Injected → Result Daemon
construct config i = do
  refuse_if (downgrades config i) value_error
  ok (record {
    world = record {
      producer = given i.producer no_producer;
      client = given i.client (record { api_version = config.fdb.api_version; db = false });
      listener = given i.listener no_listener;
      pipeline = no_pipeline;
      trace = [];
    };
    past = [];
    default_factory = not i.has_producer_factory;
    has_client = is_some i.client;
    has_listener = is_some i.listener;
    has_producer = is_some i.producer;
    has_pipeline = false;
    last_records = [];
    shutdown_requested = false;
    rebuild_pending = false;
    metrics = record {
      mutations_published = 0;
      records_published = 0;
      batches_acked = 0;
      errors_retried = 0;
    };
  })

-- A constructed bridge has made no call, and a listener that was given to it awaits nothing.
pub construct-IsConstructed :
    (config : BridgeConfig) (i : Injected) (d : Daemon)
    → (given i.listener no_listener).awaiting_ack ≡ false
    → construct config i ≡ ok d
    → IsConstructed d
unfolding construct
construct-IsConstructed config i d fresh returned =
    let (_, same) = guard_ok (downgrades config i) value_error _ returned in
    subst IsConstructed (ok_injective same)
      (record { first = refl; silent = refl; unstarted = refl; unmade = refl; fresh = fresh })

from_config_transactional :
    (config : BridgeConfig) (i : Injected) (p : Producer) (create : Dict (Setting ⊤) → Result ⊤)
    → downgrades config i ≡ false
    → is_transactional i.producer ≡ true
    → i.has_producer_factory ≡ false
    → producer_from_config create config ≡ ok p
    → p.transactional ≡ true
unfolding producer_from_config downgrades
from_config_transactional config i p create kept transactional none_given made =
    let (c, built, same) =
      bind_ok
        (Settings.construct create config.kafka.bootstrap_servers [] config.kafka.transactional_id)
        _ made in
    let mode =
      (construct-IsDurable create config.kafka.bootstrap_servers [] config.kafka.transactional_id c
        built).mode in
    let identified : is_some config.kafka.transactional_id ≡ true = ground arith in
    sym (ap (λ (q : Producer). q.transactional) (ok_injective same)) ∙ mode ∙ identified

-- A bridge that was given a transactional producer and no factory makes transactional producers: whenever
-- it calls the factory that its constructor has set, in any state, a producer that this makes is
-- transactional.
pub rebuilds_transactional :
    (setup : Setup) (i : Injected) (made now : Daemon) (generation : Generation) (p : Producer)
    → construct setup.config i ≡ ok made
    → is_transactional i.producer ≡ true
    → i.has_producer_factory ≡ false
    → now.default_factory ≡ made.default_factory
    → call_factory setup now generation ≡ ok p
    → p.transactional ≡ true
unfolding construct call_factory producer_from_config downgrades
rebuilds_transactional setup i made now generation p constructed transactional none_given kept
      called =
    let (safe, built) = guard_ok (downgrades setup.config i) value_error _ constructed in
    let own : made.default_factory ≡ true =
      sym (ap (λ (d : Daemon). d.default_factory) (ok_injective built)) ∙ ap not none_given in
    from_config_transactional setup.config i p (λ _. generation.created) safe transactional
      none_given
      (subst
        (λ (b : Bool).
          (if b
            then producer_from_config {V = ⊤} (λ _. generation.created) setup.config
            else generation.producer)
          ≡ ok p)
        (kept ∙ own) called)
