-- ===== src/Bridge/Daemon/Counting.antt =====
-- The counting listener changes nothing: a step through it is a step of the pipeline.
use kafka_fdb_streamline.Common.{
  Bool, true, false, ◌||◌, none, List, ◌≡◌, refl, subst, ap, ◌∙◌, if◌then◌else◌, length,
}
use kafka_fdb_streamline.Exec.{Result, ok, err, pure, gets, ◌>>=◌, ◌>>◌}
use kafka_fdb_streamline.World.{Env, World, M}
use kafka_fdb_streamline.Serialization.Message.{FdbMutationRecord}
use kafka_fdb_streamline.Cdc.Listener
use kafka_fdb_streamline.Bridge.Pipeline
use kafka_fdb_streamline.Bridge.Daemon.{Setup, Daemon, D, change}
use kafka_fdb_streamline.Bridge.Daemon.Build.{current, inside, poll_counting, step}

-- The two states agree but in their objects, records and metrics.
pub record Same (d d' : Daemon) : Type 0 where
  pub past : d'.past ≡ d.past
  pub listener : d'.has_listener ≡ d.has_listener
  pub producer : d'.has_producer ≡ d.has_producer
  pub pipeline : d'.has_pipeline ≡ d.has_pipeline
  pub shutdown : d'.shutdown_requested ≡ d.shutdown_requested
  pub metrics : d'.metrics ≡ d.metrics
  pub client : d'.has_client ≡ d.has_client
  pub rebuild : d'.rebuild_pending ≡ d.rebuild_pending
  pub factory : d'.default_factory ≡ d.default_factory

same : (d : Daemon) → Same d d
same d = record {
  past = refl;
  listener = refl;
  producer = refl;
  pipeline = refl;
  shutdown = refl;
  metrics = refl;
  client = refl;
  rebuild = refl;
  factory = refl;
}

Same-trans : {c d e : Daemon} → Same c d → Same d e → Same c e
Same-trans first second = record {
  past = second.past ∙ first.past;
  listener = second.listener ∙ first.listener;
  producer = second.producer ∙ first.producer;
  pipeline = second.pipeline ∙ first.pipeline;
  shutdown = second.shutdown ∙ first.shutdown;
  metrics = second.metrics ∙ first.metrics;
  client = second.client ∙ first.client;
  rebuild = second.rebuild ∙ first.rebuild;
  factory = second.factory ∙ first.factory;
}

-- One run of the bridge from `d` and one of its objects: the same result, and the same objects.
pub record Mirror {A : Type 0} (d : Daemon) (x : Result A × Daemon) (y : Result A × World)
    : Type 0 where
  pub run : (x.0, x.1.world) ≡ y
  pub rest : Same d x.1

module _ (setup : Setup) where
  abbrev env_of : Daemon → Env
  env_of d = (current setup d).env

  pub record Mirrors {A : Type 0} (m : D A) (n : Env → M A) : Type 0 where
    pub at : (d : Daemon) → Mirror d (m d) (n (env_of d) d.world)

  inside-Mirrors : {A : Type 0} (n : Env → M A) → Mirrors (inside setup n) n
  unfolding inside
  inside-Mirrors n = record {
    at = λ d. record {
      run = refl;
      rest = record {
        past = refl;
        listener = refl;
        producer = refl;
        pipeline = refl;
        shutdown = refl;
        metrics = refl;
        client = refl;
        rebuild = refl;
        factory = refl;
      };
    };
  }

  module _ {A B : Type 0} where
    after_first :
        (d : Daemon) (r : Result A) (d' : Daemon) (f : A → D B) (g : A → Env → M B)
        → Same d d'
        → ((a : A) → Mirrors (f a) (g a))
        → Mirror d (((λ t. (r, t)) >>= f) d') (((λ t. (r, t)) >>= (λ a. g a (env_of d))) d'.world)
    unfolding ◌>>=◌
    after_first d (err e) d' f g agree mirrors = record { run = refl; rest = agree }
    after_first d (ok a) d' f g agree mirrors =
        let next = (mirrors a).at d' in
        record {
          run =
              next.run ∙ ap (λ past. g a (setup.generations (length past)).env d'.world) agree.past;
          rest = Same-trans agree next.rest;
        }

    bind-Mirrors :
        (m : D A) (n : Env → M A) (f : A → D B) (g : A → Env → M B)
        → Mirrors m n
        → ((a : A) → Mirrors (f a) (g a))
        → Mirrors (m >>= f) (λ env. n env >>= λ a. g a env)
    unfolding ◌>>=◌
    bind-Mirrors m n f g first mirrors = record {
      at = λ d.
          let h = first.at d in
          subst
            (λ (y : Result A × World).
              Mirror d ((m >>= f) d) (((λ t. (y.0, t)) >>= (λ a. g a (env_of d))) y.1))
            h.run (after_first d (m d).0 (m d).1 f g h.rest mirrors);
    }

  read-Mirrors : {A : Type 0} (f : World → A) → Mirrors (gets (λ d. f d.world)) (λ _. gets f)
  unfolding gets
  read-Mirrors f = record { at = λ d. record { run = refl; rest = same d } }

  if-Mirrors :
      {A : Type 0} (b : Bool) (m m' : D A) (n n' : Env → M A)
      → Mirrors m n
      → Mirrors m' n'
      → Mirrors (if b then m else m') (λ env. if b then n env else n' env)
  if-Mirrors true m m' n n' h h' = h
  if-Mirrors false m m' n n' h h' = h'

  -- Buffering the records leaves the result and the objects.
  buffered :
      (d d' : Daemon) (r : Result (List FdbMutationRecord))
      → Same d d'
      → Mirror d
          (((λ t. (r, t))
              >>= (λ records. change (λ d. record d { last_records = records }) >> pure records))
            d')
          (r, d'.world)
  unfolding ◌>>◌ change
  buffered d d' (ok records) agree = record {
    run = refl;
    rest = record {
      past = agree.past;
      listener = agree.listener;
      producer = agree.producer;
      pipeline = agree.pipeline;
      shutdown = agree.shutdown;
      metrics = agree.metrics;
      client = agree.client;
      rebuild = agree.rebuild;
      factory = agree.factory;
    };
  }
  buffered d d' (err e) agree = record { run = refl; rest = agree }

  poll-Mirrors : Mirrors (poll_counting setup) (λ env. Listener.poll_records env setup.pb none)
  unfolding poll_counting inside ◌>>◌
  poll-Mirrors = record {
    at = λ d.
        let polled = inside setup (λ env. Listener.poll_records env setup.pb none) d in
        buffered d polled.1 polled.0
          ((inside-Mirrors (λ env. Listener.poll_records env setup.pb none)).at d).rest;
  }

  step-Mirrors : Mirrors (step setup) (λ env. Pipeline.step env setup.pb)
  unfolding step Pipeline.step
  step-Mirrors = bind-Mirrors _ _ _ _ (read-Mirrors (λ w. w.pipeline)) λ p.
      if-Mirrors (p.commit_outstanding || p.delivered_unacked) _ _ _ _
        (inside-Mirrors Pipeline.finish_delivery)
        (bind-Mirrors _ _ _ _ poll-Mirrors
          λ messages. inside-Mirrors (λ env. Pipeline.deliver env setup.pb messages))

  pub step-step :
      (d : Daemon)
      → (((step setup d).0, (step setup d).1.world) ≡ Pipeline.step (env_of d) setup.pb d.world)
        × Same d (step setup d).1
  step-step d = let h = step-Mirrors.at d in (h.run, h.rest)
