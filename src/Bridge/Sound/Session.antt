-- ===== src/Bridge/Sound/Session.antt =====
-- A whole session: steps of the pipeline, and closings of the listener by another thread between them.
use kafka_fdb_streamline.Common.{Bool, true, false, ◌≡◌, refl, sym, subst, ap, List, [], ◌∷◌}
use kafka_fdb_streamline.Exec.Keeps.{
  Keeps, Keeps-bind, Keeps-then, Keeps-if, Keeps-gets, Keeps-pure,
}
use kafka_fdb_streamline.Bridge.Sound.Turn.{step-IsSound}
use kafka_fdb_streamline.Serialization.Message.{Protobuf}
use kafka_fdb_streamline.World.{Env, Pipeline, World, M}
use kafka_fdb_streamline.Cdc.Listener
use kafka_fdb_streamline.Bridge.Pipeline
use kafka_fdb_streamline.Bridge.Monitor.{Phase, status}
use kafka_fdb_streamline.Bridge.Ledger.{Publishes}
use kafka_fdb_streamline.Bridge.Ledger.Finish.{pending, IsAccounted}
use kafka_fdb_streamline.Bridge.Ledger.Session.{step-IsAccounted, close-IsAccounted}
use kafka_fdb_streamline.Bridge.Sound.{IsCore, status_of}
use kafka_fdb_streamline.Bridge.Sound.Ack.{IsWaiting}
use kafka_fdb_streamline.Bridge.Sound.Stages.{Resting-IsSound}
use kafka_fdb_streamline.Bridge.Sound.Flags.{flags, Stage, IsSound}

pub shut-IsCore : {p : Pipeline} → Keeps (IsCore p) (Listener.update Listener.shut)
unfolding Listener.update
shut-IsCore = record {
  at = λ w h. record {
    safe = h.safe;
    linked = h.linked;
    pipeline = h.pipeline;
    attached = λ _. refl;
  };
}

pub close_consumer-IsCore : {p : Pipeline} → Keeps (IsCore p) Listener.close_consumer
unfolding Listener.close_consumer
close_consumer-IsCore = record {
  at = λ w h. record {
    safe = h.safe;
    linked = h.linked;
    pipeline = h.pipeline;
    attached = h.attached;
  };
}

shut-IsWaiting :
    {p : Pipeline} {phase : Phase} → Keeps (IsWaiting p phase) (Listener.update Listener.shut)
unfolding Listener.update
shut-IsWaiting = record {
  at = λ w h. record { core = shut-IsCore.at w h.core; awaiting = h.awaiting; phased = h.phased };
}

close_consumer-IsWaiting :
    {p : Pipeline} {phase : Phase} → Keeps (IsWaiting p phase) Listener.close_consumer
unfolding Listener.close_consumer
close_consumer-IsWaiting = record {
  at = λ w h. record {
    core = close_consumer-IsCore.at w h.core;
    awaiting = h.awaiting;
    phased = h.phased;
  };
}

-- What the two parts of `close` keep in a waiting and in any state, they keep in every stage.
pub each-Stage :
    {A : Type 0} (m : M A)
    → ((p : Pipeline) → Keeps (IsCore p) m)
    → ((p : Pipeline) (phase : Phase) → Keeps (IsWaiting p phase) m)
    → (p : Pipeline) (outstanding unacked saved : Bool)
    → Keeps (Stage p outstanding unacked saved) m
each-Stage m core waiting p true false false = waiting _ _
each-Stage m core waiting p false true false = waiting _ _
each-Stage m core waiting p false true true = waiting _ _
each-Stage m core waiting p false false false = core _
each-Stage m core waiting p true true _ = record { at = λ w h. absurd h }
each-Stage m core waiting p true false true = record { at = λ w h. absurd h }
each-Stage m core waiting p false false true = record { at = λ w h. absurd h }

shut-IsSound : Keeps IsSound (Listener.update Listener.shut)
unfolding Listener.update
shut-IsSound = record {
  at = λ w.
      let p = w.pipeline in
      (each-Stage (Listener.update Listener.shut) (λ _. shut-IsCore) (λ _ _. shut-IsWaiting) p
          p.commit_outstanding p.delivered_unacked p.checkpointed).at
        w;
}

close_consumer-IsSound : Keeps IsSound Listener.close_consumer
unfolding Listener.close_consumer
close_consumer-IsSound = record {
  at = λ w.
      let p = w.pipeline in
      (each-Stage Listener.close_consumer (λ _. close_consumer-IsCore)
          (λ _ _. close_consumer-IsWaiting) p p.commit_outstanding p.delivered_unacked
          p.checkpointed).at
        w;
}

pub close-IsSound : Keeps IsSound Listener.close
unfolding Listener.close
close-IsSound = Keeps-bind _ _ (Keeps-gets _) λ had_consumer.
    Keeps-then _ _ shut-IsSound (Keeps-if had_consumer _ _ close_consumer-IsSound (Keeps-pure tt))

-- What happens in a session: a step, or `close` of the listener by another thread.
pub data Action : Type 0 where
  take_step close_listener : Action

abbrev pub run_session : Env → Protobuf → List Action → World → World
run_session env pb [] w = w
run_session env pb (take_step ∷ rest) w = run_session env pb rest (Pipeline.step env pb w).1
run_session env pb (close_listener ∷ rest) w = run_session env pb rest (Listener.close w).1

run-IsSound :
    (env : Env) (pb : Protobuf) (actions : List Action) (w : World)
    → IsSound w
    → IsSound (run_session env pb actions w)
run-IsSound env pb [] w h = h
run-IsSound env pb (take_step ∷ rest) w h = run-IsSound env pb rest _ ((step-IsSound env pb).at w h)
run-IsSound env pb (close_listener ∷ rest) w h = run-IsSound env pb rest _ (close-IsSound.at w h)

run-IsAccounted :
    (env : Env) (pb : Protobuf) (actions : List Action) (w : World)
    → IsAccounted pb w
    → IsAccounted pb (run_session env pb actions w)
run-IsAccounted env pb [] w h = h
run-IsAccounted env pb (take_step ∷ rest) w h =
    run-IsAccounted env pb rest _ ((step-IsAccounted pb env).at w h)
run-IsAccounted env pb (close_listener ∷ rest) w h =
    run-IsAccounted env pb rest _ ((close-IsAccounted pb env).at w h)

-- A session of steps, returning or raising, and of closings keeps two invariants: the pipeline's flags say
-- how far the monitor has got with the reply, and while they call a delivery pending, librdkafka has
-- accepted every record that the listener makes of the reply.
pub run_session-IsSound :
    (env : Env) (pb : Protobuf) (actions : List Action) (w : World)
    → IsSound w
    → IsAccounted pb w
    → IsSound (run_session env pb actions w) × IsAccounted pb (run_session env pb actions w)
run_session-IsSound env pb actions w sound accounted =
    (run-IsSound env pb actions w sound, run-IsAccounted env pb actions w accounted)

pub Stage-safe :
    (p : Pipeline) (a b c : Bool) (w : World) → Stage p a b c w → (status_of w).safe ≡ true
Stage-safe p true false false w h = h.core.safe
Stage-safe p false true false w h = h.core.safe
Stage-safe p false true true w h = h.core.safe
Stage-safe p false false false w h = h.safe
Stage-safe p true true _ w h = absurd h
Stage-safe p true false true w h = absurd h
Stage-safe p false false true w h = absurd h

-- The state of a bridge process before it has called anything: no reply awaits its acknowledgement, and
-- the pipeline's flags are those of its constructor.
pub record IsNew (w : World) : Type 0 where
  pub silent : w.trace ≡ []
  pub fresh : w.listener.awaiting_ack ≡ false
  pub resting : w.pipeline ≡ flags w.pipeline false false false

pub new-IsSound : (w : World) → IsNew w → IsSound w
new-IsSound w new = Resting-IsSound w.pipeline w (record {
  safe = subst (λ t. (status w.producer.transactional t).safe ≡ true) (sym new.silent) refl;
  linked = λ _ failed. cc (
    failed,
    subst (λ t. (status w.producer.transactional t).failed ≡ false) (sym new.silent) refl,
  );
  pipeline = new.resting;
  attached = λ waiting. cc (waiting, new.fresh);
})

pub new-IsAccounted : (pb : Protobuf) (w : World) → IsNew w → IsAccounted pb w
new-IsAccounted pb w new =
    (subst (Publishes pb) (sym new.silent) tt, λ on. cc (on, ap pending new.resting))

-- In every session of steps and closings that a new process goes through, whatever librdkafka, the
-- FoundationDB binding and the checkpoint answer, a native acknowledgement is sent only if the consumer was
-- resumed and nothing taken since, or librdkafka accepted every record that the listener makes of the reply
-- taken last, then confirmed them, and the cursor was saved after that. Each cursor that is saved is the
-- position that the binding gave last.
pub acknowledges_only_durable :
    (env : Env) (pb : Protobuf) (actions : List Action) (w : World)
    → IsNew w
    → ((status_of (run_session env pb actions w)).safe ≡ true)
      × Publishes pb (run_session env pb actions w).trace
acknowledges_only_durable env pb actions w new =
    let final = run_session env pb actions w in
    let p = final.pipeline in
    let (sound, accounted) =
      run_session-IsSound env pb actions w (new-IsSound w new) (new-IsAccounted pb w new) in
    (Stage-safe p p.commit_outstanding p.delivered_unacked p.checkpointed final sound, accounted.0)
