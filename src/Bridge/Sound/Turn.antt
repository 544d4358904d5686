-- ===== src/Bridge/Sound/Turn.antt =====
-- BridgePipeline.step keeps the invariant of the process, whichever stage it begins in.
use kafka_fdb_streamline.Common.{
  ℕ, ◌≡◌, Bool, true, false, refl, none, List, [], ◌∷◌, if◌then◌else◌, length,
}
use kafka_fdb_streamline.Exec.{Result, ok, err, ◌>>◌}
use kafka_fdb_streamline.Exec.Keeps.{Keeps}
use kafka_fdb_streamline.Exec.Ends.{
  After, after_cases, Ends, Ends-gets, Ends-pure, Ends-bind, Ends-then, Ends-known,
}
use kafka_fdb_streamline.Serialization.Message.{FdbMutationRecord, Protobuf}
use kafka_fdb_streamline.World.{Env, Pipeline, World}
use kafka_fdb_streamline.Cdc.Listener
use kafka_fdb_streamline.Bridge.Pipeline
use kafka_fdb_streamline.Bridge.Sound.Poll.{IsPolled, poll-IsCore, poll-IsPolled}
use kafka_fdb_streamline.Bridge.Sound.Stages.{IsIdle-AtRest, Resting-IsSound}
use kafka_fdb_streamline.Bridge.Sound.Flags.{
  flags, Resting, Stage, IsSound, AtRest, update-IsWaiting,
}
use kafka_fdb_streamline.Bridge.Sound.Step.{
  Polled, begin_and_produce-Ends, produce_and_flush-Ends, finish-Outstanding, finish-Confirmed,
  finish-Saved,
}

module _ (p : Pipeline) (env : Env) (pb : Protobuf) where
  IsReady : List FdbMutationRecord → World → Type 0
  IsReady messages w = Resting p w × IsPolled messages w

  poll-Ends : Ends (Resting p) (Listener.poll_records env pb none) IsReady IsSound
  unfolding IsReady
  poll-Ends = record {
    at = λ w h.
        let core = (poll-IsCore (flags p false false false) env pb none).at w h in
        let (r, w') = Listener.poll_records env pb none w in
        after_cases IsReady IsSound r w'
          (λ messages e. (core, (poll-IsPolled env pb none).at w tt messages e))
          (λ _ _. Resting-IsSound p w' core);
  }

  delivered-Ends :
      (b : Bool) (message : FdbMutationRecord) (rest : List FdbMutationRecord)
      → Ends
          (Polled p b)
          (do
            if b
                then Pipeline.begin_and_produce env pb (message ∷ rest)
                else Pipeline.produce_and_flush env pb (message ∷ rest)
            Pipeline.update (λ p. record p { pending_count = length (message ∷ rest) })
            Pipeline.finish_delivery env)
          (λ _. AtRest)
          IsSound
  delivered-Ends true message rest =
      Ends-then _ _ (begin_and_produce-Ends p env pb (message ∷ rest)) (
        Ends-then _ _ (update-IsWaiting (λ p. record p { pending_count = length (message ∷ rest) }))
          (finish-Outstanding (record p { pending_count = length (message ∷ rest) }) env))
  delivered-Ends false message rest =
      Ends-then _ _ (produce_and_flush-Ends p env pb (message ∷ rest)) (
        Ends-then _ _ (update-IsWaiting (λ p. record p { pending_count = length (message ∷ rest) }))
          (finish-Confirmed (record p { pending_count = length (message ∷ rest) }) env))

  deliver-Ends :
      (messages : List FdbMutationRecord)
      → Ends (IsReady messages) (Pipeline.deliver env pb messages) (λ _. AtRest) IsSound
  unfolding Pipeline.deliver IsReady
  deliver-Ends [] = Ends-pure 0 (λ w h. IsIdle-AtRest p w (record { core = h.0; idle = h.1.1 }))
  deliver-Ends (message ∷ rest) =
      Ends-bind {Q = Polled p} _ _
        (Ends-gets _ (λ w h. record {
          waiting = record { core = h.0; awaiting = h.1.1; phased = h.1.0 };
          mode = refl;
        }))
        λ transactional. delivered-Ends transactional message rest

  step-Ends :
      (outstanding unacked saved : Bool)
      → Ends (Stage p outstanding unacked saved) (Pipeline.step env pb) (λ _. AtRest) IsSound
  unfolding Pipeline.step
  step-Ends true false false =
      Ends-known _ (flags p true false false) _ (λ w h. h.core.pipeline) (finish-Outstanding p env)
  step-Ends false true false =
      Ends-known _ (flags p false true false) _ (λ w h. h.core.pipeline) (finish-Confirmed p env)
  step-Ends false true true =
      Ends-known _ (flags p false true true) _ (λ w h. h.core.pipeline) (finish-Saved p env)
  step-Ends false false false =
      Ends-known _ (flags p false false false) _ (λ w h. h.pipeline)
        (Ends-bind _ _ poll-Ends deliver-Ends)
  step-Ends true true _ = record { at = λ w h. absurd h }
  step-Ends true false true = record { at = λ w h. absurd h }
  step-Ends false false true = record { at = λ w h. absurd h }

IsSound-end :
    {A : Type 0} (r : Result A) (w : World) → After (λ _. AtRest) IsSound (r, w) → IsSound w
IsSound-end (ok a) w h = Resting-IsSound w.pipeline w h.core
IsSound-end (err e) w h = h

AtRest-end :
    {A : Type 0} (r : Result A) (w : World) (a : A)
    → r ≡ ok a
    → After (λ _. AtRest) IsSound (r, w)
    → AtRest w
AtRest-end (ok b) w a e h = h
AtRest-end (err x) w a e h = cc

module _ (env : Env) (pb : Protobuf) where
  step-After : (w : World) → IsSound w → After (λ _. AtRest) IsSound (Pipeline.step env pb w)
  step-After w h =
      let p = w.pipeline in
      (step-Ends p env pb p.commit_outstanding p.delivered_unacked p.checkpointed).at w h

  pub step-IsSound : Keeps IsSound (Pipeline.step env pb)
  step-IsSound = record {
    at = λ w h. let (r, w') = Pipeline.step env pb w in IsSound-end r w' (step-After w h);
  }

  -- A step that returns, from a state in which the invariant holds, leaves nothing pending: no commit is
  -- outstanding, no delivery is unacknowledged, no cursor is saved ahead of its acknowledgement, and no
  -- reply awaits its acknowledgement.
  pub step-AtRest :
      (w : World) (count : ℕ)
      → IsSound w
      → (Pipeline.step env pb w).0 ≡ ok count
      → AtRest (Pipeline.step env pb w).1
  step-AtRest w count h returned =
      let (r, w') = Pipeline.step env pb w in AtRest-end r w' count returned (step-After w h)
