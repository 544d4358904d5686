-- ===== src/Bridge/Daemon/Build.antt =====
-- bridge/pipeline.py, class Bridge: start, _build_pipeline, _discard_listener_and_producer,
-- _rebuild_pipeline, and a step with the counting listener.
use kafka_fdb_streamline.Common.{
  ⊤, ℕ, suc, true, false, ◌&&◌, ◌||◌, not, Option, none, some, List, [], ◌∷◌, is_empty,
  if◌then◌else◌, length, pos, negsuc,
}
use kafka_fdb_streamline.Common.Number.{Number, float, finite}
use kafka_fdb_streamline.Common.Texts.{utf8}
use kafka_fdb_streamline.Errors.{value_error}
use kafka_fdb_streamline.Exec.{
  Result, ok, err, pure, raise, gets, lift, catch, raise_if, ◌>>=◌, ◌>>◌,
}
use kafka_fdb_streamline.Serialization.Model.{Value, Bytes}
use kafka_fdb_streamline.Serialization.Message.{FdbMutationRecord}
use kafka_fdb_streamline.World.{Cursor, Env, Producer, M}
use kafka_fdb_streamline.Kafka.Producer
use kafka_fdb_streamline.Cdc.Client
use kafka_fdb_streamline.Cdc.Client.{to_bytes}
use kafka_fdb_streamline.Cdc.Listener
use kafka_fdb_streamline.Cdc.Construct
use kafka_fdb_streamline.Bridge.Pipeline
use kafka_fdb_streamline.Bridge.Construct as PipelineConstruct
use kafka_fdb_streamline.Bridge.Daemon.Factory.{producer_from_config}
use kafka_fdb_streamline.Bridge.Daemon.{
  Generation, Setup, Daemon, D, change, no_listener, no_pipeline, no_producer, drop_pipeline,
  drop_listener, drop_producer, logged,
}

-- The floats 10.0, 0.05 and 0.2.
abbrev pub default_resume_timeout : Number
default_resume_timeout = float (finite (pos 5) (pos 1))

abbrev pub default_resume_poll_interval : Number
default_resume_poll_interval = float (finite (pos 3602879701896397) (negsuc 55))

abbrev pub default_retry_delay : Number
default_retry_delay = float (finite (pos 3602879701896397) (negsuc 53))

abbrev pub produced : Result Producer → Producer
produced (ok p) = p
produced (err e) = no_producer

module _ (setup : Setup) where
  abbrev pub current : Daemon → Generation
  current d = setup.generations (length d.past)

  -- `self._producer_factory()`
  unfoldable pub call_factory : Daemon → Generation → Result Producer
  call_factory d generation =
      if d.default_factory
      then producer_from_config {V = ⊤} (λ _. generation.created) setup.config
      else generation.producer

  -- A method of one of the objects.
  unfoldable pub inside : {A : Type 0} → (Env → M A) → D A
  inside m d = let (r, w) = m (current d).env d.world in (r, record d { world = w })

  -- `_discard_listener_and_producer`
  unfoldable pub discard : D ⊤
  discard = do
    change drop_pipeline
    d ← gets (λ d. d)
    if d.has_listener then logged (inside (λ env. Listener.close)) else pure tt
    change drop_listener
    if d.has_producer then logged (inside (λ env. Producer.close env)) else pure tt
    change drop_producer

  -- Bookkeeping of the model: the next generation keeps the objects that are there.
  unfoldable pub begin_generation : D ⊤
  begin_generation d =
      let next = setup.generations (suc (length d.past)) in
      (
        ok tt,
        record d {
          past = d.world ∷ d.past;
          world = record {
            producer = if d.has_producer then d.world.producer else produced (call_factory d next);
            client = d.world.client;
            listener = if d.has_listener then d.world.listener else no_listener;
            pipeline = no_pipeline;
            trace = [];
          };
        },
      )

  -- `client = FDBClient(...); client.open(); self._client = client`
  unfoldable pub open_new_client : D ⊤
  open_new_client = do
    change (λ d. record d {
      world = record d.world {
        client = record { api_version = setup.config.fdb.api_version; db = false };
      };
    })
    inside Client.open_client
    change (λ d. record d { has_client = true })

  -- The key range of the configuration; it is left out where both of its keys are empty.
  abbrev pub configured_range : Option (Value × Value)
  configured_range =
      if not (is_empty setup.config.cdc.begin_key) || not (is_empty setup.config.cdc.end_key)
      then some (Value.bytes setup.config.cdc.begin_key, Value.bytes setup.config.cdc.end_key)
      else none

  abbrev pub listener_arguments : Option Cursor → Construct.Arguments
  listener_arguments cursor = record {
    stream_name = Value.str setup.config.cdc.stream_name;
    key_range = configured_range;
    subspace = none;
    cursor = cursor;
    max_record_bytes = Value.int setup.config.cdc.max_record_bytes;
    resume_timeout_seconds = some default_resume_timeout;
    resume_poll_interval_seconds = some default_resume_poll_interval;
  }

  unfoldable pub start_new_listener : D ⊤
  start_new_listener = do
    d ← gets (λ d. d)
    cursor ← lift (current d).cursor
    l ← lift (Construct.construct setup.ticks (listener_arguments cursor))
    change (λ d. record d { world = record d.world { listener = l }; has_listener = true })
    inside Listener.start

  -- The producer of the factory has its place since the generation began.
  unfoldable pub make_producer : D ⊤
  make_producer = do
    d ← gets (λ d. d)
    lift (elim (call_factory d (current d)) [ ok _ ↦ ok tt | err e ↦ err e ])
    change (λ d. record d { has_producer = true })

  -- The `try` of `_build_pipeline`.
  unfoldable pub build_parts : D ⊤
  build_parts = do
    d ← gets (λ d. d)
    if d.has_client then pure tt else open_new_client
    if d.has_listener then pure tt else start_new_listener
    if d.has_producer then pure tt else make_producer
    transactional ← gets (λ d. d.world.producer.transactional)
    if transactional then inside Producer.init_transactions else pure tt

  abbrev pub pipeline_arguments : Bytes → PipelineConstruct.Arguments
  pipeline_arguments name = record {
    topic = utf8 setup.config.kafka.topic;
    partition_key = if is_empty name then none else some (Value.bytes name);
    ack_retries = Value.int (pos 3);
    ack_retry_delay_seconds = some default_retry_delay;
    commit_retries = Value.int (pos 3);
    commit_retry_delay_seconds = some default_retry_delay;
    flush_timeout_seconds = some (float setup.config.pipeline.flush_timeout_seconds);
  }

  -- The rest of `_build_pipeline`.
  unfoldable pub assemble : D ⊤
  assemble = do
    change (λ d. record d { last_records = [] })
    name ← lift (to_bytes (Value.str setup.config.cdc.stream_name))
    l ← gets (λ d. d.world.listener)
    p ← lift (PipelineConstruct.construct l (pipeline_arguments name))
    change (λ d. record d { world = record d.world { pipeline = p }; has_pipeline = true })

  -- `_build_pipeline`
  unfoldable pub build : D ⊤
  build = do begin_generation; catch build_parts (λ e. discard >> raise e); assemble

  unfoldable pub start : D ⊤
  start = do
    d ← gets (λ d. d)
    if d.has_pipeline
        then pure tt
        else do raise_if (is_empty setup.config.cdc.stream_name) value_error; build

  -- `_rebuild_pipeline`
  unfoldable pub rebuild : D ⊤
  rebuild = do
    d ← gets (λ d. d)
    if d.has_pipeline && d.world.pipeline.commit_outstanding then pure tt else do discard; build

  -- `poll_records` of _RecordCountingListener.
  unfoldable pub poll_counting : D (List FdbMutationRecord)
  poll_counting = do
    records ← inside (λ env. Listener.poll_records env setup.pb none)
    change (λ d. record d { last_records = records })
    pure records

  -- `BridgePipeline.step` with the counting listener for its listener.
  unfoldable pub step : D ℕ
  step = do
    p ← gets (λ d. d.world.pipeline)
    if p.commit_outstanding || p.delivered_unacked
        then inside Pipeline.finish_delivery
        else do messages ← poll_counting; inside (λ env. Pipeline.deliver env setup.pb messages)
