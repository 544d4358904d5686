-- ===== src/Examples/Daemon.antt =====
-- The theorems on the bridge at concrete inputs.
use kafka_fdb_streamline.Common.{true, false, none, some, List, [], ◌∷◌, ◌≡◌, refl, All, pos}
use kafka_fdb_streamline.Exec.{ok}
use kafka_fdb_streamline.World.{Producer}
use kafka_fdb_streamline.Kafka.Settings
use kafka_fdb_streamline.Bridge.Pipeline
use kafka_fdb_streamline.Bridge.Daemon.{Setup, Daemon, no_listener, no_pipeline}
use kafka_fdb_streamline.Bridge.Daemon.Lift.{Safe}
use kafka_fdb_streamline.Bridge.Daemon.Commands.{
  do_start, do_run, do_stop, Command, obey_all, IsConstructed, generations-Safe,
}
use kafka_fdb_streamline.Bridge.Daemon.Factory.{producer_from_config}
use kafka_fdb_streamline.Bridge.Daemon.Build.{call_factory}
use kafka_fdb_streamline.Bridge.Daemon.Orderly.{Published}
use kafka_fdb_streamline.Bridge.Daemon.Create
use kafka_fdb_streamline.Examples.{all_well, new_world, new_producer}
use kafka_fdb_streamline.Examples.Batches.{sized}
use kafka_fdb_streamline.Examples.Settings.{orders}

abbrev pub setup : Setup
setup = record {
  config = orders;
  ticks = λ _. 10;
  generations =
      λ _. record { env = all_well; cursor = ok none; producer = ok new_producer; created = ok tt };
  pb = sized;
}

abbrev nothing_given : Create.Injected
nothing_given = record {
  client = none;
  listener = none;
  producer = none;
  has_producer_factory = true;
}

-- A bridge whose pipeline runs on the objects of a new process.
abbrev pub running : Daemon
running = record {
  world = new_world;
  past = [];
  has_client = true;
  has_listener = true;
  has_producer = true;
  has_pipeline = true;
  last_records = [];
  shutdown_requested = false;
  default_factory = false;
  rebuild_pending = false;
  metrics = record {
    mutations_published = 0;
    records_published = 0;
    batches_acked = 0;
    errors_retried = 0;
  };
}

abbrev created : Daemon
created = record {
  world = record new_world { producer = new_producer };
  past = [];
  has_client = false;
  has_listener = false;
  has_producer = false;
  has_pipeline = false;
  last_records = [];
  shutdown_requested = false;
  default_factory = false;
  rebuild_pending = false;
  metrics = record {
    mutations_published = 0;
    records_published = 0;
    batches_acked = 0;
    errors_retried = 0;
  };
}

created-IsConstructed : IsConstructed created
created-IsConstructed = record {
  first = refl;
  silent = refl;
  unstarted = refl;
  unmade = refl;
  fresh = refl;
}

abbrev commands : List Command
commands = do_start ∷ do_run (false ∷ false ∷ true ∷ []) ∷ do_stop true true 5 ∷ do_start ∷ []

generations-Safe_example :
    All Safe ((obey_all setup commands created).world ∷ (obey_all setup commands created).past)
    × All
        (Published setup)
        ((obey_all setup commands created).world ∷ (obey_all setup commands created).past)
generations-Safe_example = generations-Safe setup commands created created-IsConstructed

abbrev transactional_producer : Producer
transactional_producer = record {
  handle = true;
  delivery_errors = [];
  transactional = true;
  txn_initialized = false;
  txn_open = false;
  closed = false;
  fatal = false;
}

abbrev producer_given : Create.Injected
producer_given = record {
  client = none;
  listener = none;
  producer = some transactional_producer;
  has_producer_factory = false;
}

abbrev with_producer : Daemon
with_producer = record created {
  world = record {
    producer = transactional_producer;
    client = record { api_version = pos 800; db = false };
    listener = no_listener;
    pipeline = no_pipeline;
    trace = [];
  };
  has_producer = true;
  default_factory = true;
}

producer_accepted : Create.construct orders producer_given ≡ ok with_producer
unfolding Create.construct Create.downgrades
producer_accepted = refl

producer_rebuilt :
    call_factory setup with_producer (setup.generations 1) ≡ ok transactional_producer
unfolding call_factory producer_from_config Settings.construct Settings.has_forbidden
producer_rebuilt = refl

rebuilds_transactional_example : transactional_producer.transactional ≡ true
rebuilds_transactional_example =
    Create.rebuilds_transactional setup producer_given with_producer with_producer
      (setup.generations 1) transactional_producer producer_accepted refl refl refl producer_rebuilt
