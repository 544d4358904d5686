-- ===== src/Bridge/Daemon/Sound.antt =====
-- Building a pipeline, dropping one and rebuilding one keep the invariant of the bridge.
use kafka_fdb_streamline.Common.{
  ⊤, Bool, true, false, ◌&&◌, ◌≡◌, refl, sym, ◌∙◌, inl, inr, ◌⊎◌, arith, if◌then◌else◌, if_cases,
}
use mathlib.Core.Bool.{true≢false}
use kafka_fdb_streamline.Exec.{Result, ok, err, pure, gets, lift, ◌>>=◌}
use kafka_fdb_streamline.Exec.Keeps.{
  Keeps, Keeps-bind, Keeps-then, Keeps-gets, Keeps-if, Keeps-pure, Keeps-modify, Keeps-lift,
}
use kafka_fdb_streamline.Exec.Ends.{
  After, Ends, Ends_of_Keeps, Ends-weaken, Ends-raise, Ends-catch, Ends-bind, Ends-then, Ends-read,
  Ends-return, Ends-if, Ends-unless,
}
use kafka_fdb_streamline.World.{Listener, Pipeline}
use kafka_fdb_streamline.Cdc.Construct
use kafka_fdb_streamline.Bridge.Construct as PipelineConstruct
use kafka_fdb_streamline.Bridge.Sound.Cdc.{IsFresh, start-IsFresh}
use kafka_fdb_streamline.Bridge.Sound.Stages.{Resting-IsSound}
use kafka_fdb_streamline.Bridge.Sound.Flags.{IsSound}
use kafka_fdb_streamline.Bridge.Daemon.{
  Setup, Daemon, D, change, no_listener, no_pipeline, drop_pipeline, drop_listener, drop_producer,
  logged,
}
use kafka_fdb_streamline.Bridge.Daemon.Build.{
  discard, begin_generation, open_new_client, start_new_listener, make_producer, build_parts,
  assemble, build, start, rebuild,
}
use kafka_fdb_streamline.Bridge.Daemon.Lift.{
  On, IsSound-Core, inside-Flagged, lift-Keeps, Core, Core-of, listener_close-Core,
  producer_close-Core, init_transactions-IsFresh, open_client-IsFresh,
}

-- No pipeline: nothing that the bridge was given or has built awaits an acknowledgement.
abbrev pub Vacant : Daemon → Type 0
Vacant d =
    On Core d
    × (d.has_pipeline ≡ false)
    × (d.has_listener ≡ true → d.world.listener.awaiting_ack ≡ false)

-- A pipeline is there, and its flags are sound.
abbrev pub Live : Daemon → Type 0
Live d = On IsSound d × (d.has_pipeline ≡ true)

-- While the parts are built.
abbrev pub Building : Daemon → Type 0
Building d = On (IsFresh no_pipeline) d × (d.has_pipeline ≡ false)

-- What the two flags say without a pipeline, and after a discard.
abbrev IsDown : Bool → Bool → Type 0
IsDown has_listener has_pipeline = has_pipeline ≡ false

abbrev pub IsBare : Bool → Bool → Type 0
IsBare has_listener has_pipeline = (has_pipeline ≡ false) × (has_listener ≡ false)

abbrev pub Dropped : Daemon → Type 0
Dropped d = On Core d × IsBare d.has_listener d.has_pipeline

Building-Vacant : (d : Daemon) → Building d → Vacant d
Building-Vacant d h = ((h.0.0, Core-of d.world h.0.1.0), h.1, λ _. h.0.1.1)

pub Dropped-Vacant : (d : Daemon) → Dropped d → Vacant d
Dropped-Vacant d h = (h.0, h.1.0, λ there. cc (there, h.1.1))

module _ (setup : Setup) where
  -- A discard keeps what the closings keep, and leaves no listener.
  abbrev NoPipeline : Daemon → Type 0
  NoPipeline d = On Core d × (d.has_pipeline ≡ false)

  drop_pipeline-Ends :
      {R : Daemon → Type 0} → Ends (On Core) (change drop_pipeline) (λ _. NoPipeline) R
  unfolding change drop_pipeline
  drop_pipeline-Ends = record { at = λ d h. (h, refl) }

  -- What is raised is logged, so there is a return only.
  pub logged-Ends : {P R : Daemon → Type 0} (m : D ⊤) → Keeps P m → Ends P (logged m) (λ _. P) R
  unfolding logged
  logged-Ends {P} m kept = Ends-catch _ _ (Ends_of_Keeps kept) (λ e. Ends-return P tt)

  drop_listener-Ends :
      {R : Daemon → Type 0} → Ends NoPipeline (change drop_listener) (λ _. Dropped) R
  unfolding change drop_listener
  drop_listener-Ends = record { at = λ d h. (h.0, (h.1, refl)) }

  drop_producer-Ends : {R : Daemon → Type 0} → Ends Dropped (change drop_producer) (λ _. Dropped) R
  unfolding change drop_producer
  drop_producer-Ends = record { at = λ d h. h }

  -- A discard leaves neither pipeline nor listener, and it always returns.
  pub discard-Ends : {R : Daemon → Type 0} → Ends (On Core) (discard setup) (λ _. Dropped) R
  unfolding discard
  discard-Ends = Ends-then _ _ drop_pipeline-Ends (
      Ends-bind _ _ (Ends-read NoPipeline _) λ d.
        Ends-then _ _
          (Ends-if d.has_listener _ _
            (logged-Ends _ (inside-Flagged setup IsDown _ (λ env. listener_close-Core)))
            (Ends-return NoPipeline tt))
          (Ends-then _ _ drop_listener-Ends (
            Ends-then _ _
              (Ends-if d.has_producer _ _
                (logged-Ends _ (inside-Flagged setup IsBare _ producer_close-Core))
                (Ends-return Dropped tt))
              drop_producer-Ends)))

  begin_generation-Ends :
      {R : Daemon → Type 0} → Ends Vacant (begin_generation setup) (λ _. Building) R
  unfolding begin_generation
  begin_generation-Ends = record {
    at = λ d h.
        let quiet : (if d.has_listener then d.world.listener else no_listener).awaiting_ack
            ≡ false =
          if_cases (λ (l : Listener). l.awaiting_ack ≡ false) d.has_listener _ _ h.2 (λ _. refl) in
        (
          (
            (h.0.1.safe, h.0.0),
            (
              record {
                safe = refl;
                linked = λ plain failed. cc;
                pipeline = refl;
                attached = λ waiting. cc (waiting, quiet);
              },
              quiet,
            ),
          ),
          h.1,
        );
  }

  client-Building : Keeps Building (open_new_client setup)
  unfolding open_new_client change
  client-Building =
      Keeps-then _ _
        (Keeps-modify _ (λ d h. (
          (
            h.0.0,
            (
              record {
                safe = h.0.1.0.safe;
                linked = h.0.1.0.linked;
                pipeline = h.0.1.0.pipeline;
                attached = h.0.1.0.attached;
              },
              h.0.1.1,
            ),
          ),
          h.1,
        )))
        (Keeps-then _ _ (inside-Flagged setup IsDown _ (open_client-IsFresh no_pipeline))
          (Keeps-modify _ (λ d h. h)))

  -- A listener of the constructor awaits nothing.
  constructed-fresh :
      (a : Construct.Arguments) (l : Listener)
      → Construct.construct setup.ticks a ≡ ok l
      → l.awaiting_ack ≡ false
  constructed-fresh a l made =
      let unstarted = (Construct.construct-IsConstructed setup.ticks a l made).unstarted in
      ground arith

  listener-Building : Keeps Building (start_new_listener setup)
  unfolding start_new_listener change
  listener-Building = Keeps-bind _ _ (Keeps-gets _) λ d. Keeps-bind _ _ (Keeps-lift _) λ cursor.
      lift-Keeps _ _ λ l made.
        Keeps-then _ _
          (Keeps-modify _ (λ d h.
            let quiet = constructed-fresh _ l made in
            (
              (
                h.0.0,
                (
                  record {
                    safe = h.0.1.0.safe;
                    linked = h.0.1.0.linked;
                    pipeline = h.0.1.0.pipeline;
                    attached = λ waiting. cc (waiting, quiet);
                  },
                  quiet,
                ),
              ),
              h.1,
            )))
          (inside-Flagged setup IsDown _ (start-IsFresh no_pipeline))

  producer-Building : Keeps Building (make_producer setup)
  unfolding make_producer change
  producer-Building =
      Keeps-bind _ _ (Keeps-gets _) λ d. Keeps-then _ _ (Keeps-lift _) (Keeps-modify _ (λ d h. h))

  parts-Building : Keeps Building (build_parts setup)
  unfolding build_parts
  parts-Building = Keeps-bind _ _ (Keeps-gets _) λ d.
      Keeps-then _ _ (Keeps-if _ _ _ (Keeps-pure tt) client-Building) (
        Keeps-then _ _ (Keeps-if _ _ _ (Keeps-pure tt) listener-Building) (
          Keeps-then _ _ (Keeps-if _ _ _ (Keeps-pure tt) producer-Building) (
            Keeps-bind _ _ (Keeps-gets _) λ transactional.
              Keeps-if _ _ _ (inside-Flagged setup IsDown _ (init_transactions-IsFresh no_pipeline))
                (Keeps-pure tt))))

  -- The pipeline of the constructor has no flag set.
  install-Live :
      (l : Listener) (a : PipelineConstruct.Arguments) (p : Pipeline)
      → PipelineConstruct.construct l a ≡ ok p
      → (d : Daemon) → Building d
      → Live (record d { world = record d.world { pipeline = p }; has_pipeline = true })
  install-Live l a p made d h =
      let ready = (PipelineConstruct.construct-IsReady l a p made).resting in
      (
        (
          h.0.0,
          Resting-IsSound p (record d.world { pipeline = p })
              (record {
                safe = h.0.1.0.safe;
                linked = h.0.1.0.linked;
                pipeline = ready;
                attached = h.0.1.0.attached;
              }),
        ),
        refl,
      )

  lift-Ends :
      {A B : Type 0} {P : Daemon → Type 0} {Q : B → Daemon → Type 0} {R : Daemon → Type 0}
      (r : Result A) (f : A → D B)
      → ((d : Daemon) → P d → R d)
      → ((a : A) → r ≡ ok a → Ends P (f a) Q R)
      → Ends P (lift r >>= f) Q R
  unfolding lift ◌>>=◌
  lift-Ends (ok a) f weaken ends = record { at = (ends a refl).at }
  lift-Ends (err e) f weaken ends = record { at = weaken }

  assemble-Ends : Ends Building (assemble setup) (λ _. Live) Vacant
  unfolding assemble change
  assemble-Ends =
      Ends-then {Q = Building} _ _ (record { at = λ d h. h })
        (lift-Ends _ _ Building-Vacant λ name _.
          Ends-bind _ _ (Ends-read Building _)
            λ l. lift-Ends _ _ Building-Vacant λ p made. record { at = install-Live l _ p made })

  -- A build leads from a bridge without a pipeline to one with a sound pipeline, or back.
  pub build-Ends : Ends Vacant (build setup) (λ _. Live) Vacant
  unfolding build
  build-Ends = Ends-then _ _ begin_generation-Ends (
      Ends-then _ _
        (Ends-catch {R = Building} _ _ (Ends_of_Keeps parts-Building) λ e.
          Ends-then _ _ (record { at = λ d h. discard-Ends.at d (h.0.0, Core-of d.world h.0.1.0) })
            (Ends-raise e Dropped-Vacant))
        assemble-Ends)

-- Between the calls of the bridge: a sound pipeline, or none.
abbrev pub Held : Daemon → Type 0
Held d = Live d ⊎ Vacant d

-- A method that first reads the whole state.
pub Ends-self :
    {B : Type 0} {P : Daemon → Type 0} {Q : B → Daemon → Type 0} {R : Daemon → Type 0}
    (k : Daemon → D B)
    → ((d : Daemon) → P d → After Q R (k d d))
    → Ends P (gets (λ d. d) >>= k) Q R
unfolding ◌>>=◌
Ends-self k ends = record { at = ends }

-- A pipeline with its flags sound keeps the invariant that every state has.
pub Live-Core : (d : Daemon) → Live d → On Core d
Live-Core d h = (h.0.0, IsSound-Core d.world h.0.1)

pub Held-Core : (d : Daemon) → Held d → On Core d
Held-Core d (inl live) = Live-Core d live
Held-Core d (inr vacant) = vacant.0

-- The flag tells which of the two it is.
pub there-Live : (d : Daemon) → Held d → d.has_pipeline ≡ true → Live d
there-Live d (inl live) there = live
there-Live d (inr vacant) there = absurd (true≢false (sym there ∙ vacant.1))

pub missing-Vacant : (d : Daemon) → Held d → d.has_pipeline ≡ false → Vacant d
missing-Vacant d (inl live) missing = absurd (true≢false (sym live.1 ∙ missing))
missing-Vacant d (inr vacant) missing = vacant

module _ (setup : Setup) where
  pub start-Ends : Ends Held (start setup) (λ _. Live) Held
  unfolding start pure
  start-Ends = Ends-self _ λ d h.
      if_cases (λ (m : D ⊤). After (λ _. Live) Held (m d)) d.has_pipeline _ _
        (λ there. there-Live d h there)
        (λ missing.
          (Ends-then _ _ (Ends-unless Vacant _ _ (λ _ v. inr v))
              (Ends-weaken (λ _ _ live. live) (λ _ v. inr v) (build-Ends setup))).at
            d (missing-Vacant d h missing))

  -- A rebuild leads to a sound pipeline; where it raises there is none.
  pub rebuild-Ends : Ends Held (rebuild setup) (λ _. Live) Held
  unfolding rebuild pure
  rebuild-Ends = Ends-self _ λ d h.
      if_cases (λ (m : D ⊤). After (λ _. Live) Held (m d))
        (d.has_pipeline && d.world.pipeline.commit_outstanding) _ _
        (λ kept. there-Live d h (ground arith))
        (λ _.
          (Ends-then _ _ (discard-Ends setup) (
              Ends-weaken (λ _ _ live. live) (λ _ v. inr v)
                (record { at = λ d h. (build-Ends setup).at d (Dropped-Vacant d h) }))).at
            d (Held-Core d h))
