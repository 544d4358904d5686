-- ===== src/Bridge/Daemon/Finish.antt =====
-- The loop that finishes an outstanding commit ends after one step of the pipeline.
use kafka_fdb_streamline.Common.{⊤, ℕ, Bool, true, false, ◌≡◌, if◌then◌else◌}
use kafka_fdb_streamline.Exec.{pure, catch, ◌>>=◌, ◌>>◌}
use kafka_fdb_streamline.Exec.Keeps.{Keeps}
use kafka_fdb_streamline.World.{Env, World, Pipeline}
use kafka_fdb_streamline.Cdc.Listener
use kafka_fdb_streamline.Bridge.Monitor.{Phase}
use kafka_fdb_streamline.Bridge.Sound.{IsCore}
use kafka_fdb_streamline.Bridge.Sound.Ack.{IsWaiting}
use kafka_fdb_streamline.Bridge.Sound.Flags.{IsSound}
use kafka_fdb_streamline.Bridge.Sound.Session.{each-Stage}
use kafka_fdb_streamline.Bridge.Daemon.{Setup, Daemon, D}
use kafka_fdb_streamline.Bridge.Daemon.Build.{inside, step}
use kafka_fdb_streamline.Bridge.Daemon.Stop.{finish_loop}
use kafka_fdb_streamline.Bridge.Daemon.Lift.{inside-Flagged}
use kafka_fdb_streamline.Bridge.Daemon.Sound.{Live}

-- Reading the clock changes nothing that the invariant is about.
read_monotonic-IsCore : (env : Env) (p : Pipeline) → Keeps (IsCore p) (Listener.read_monotonic env)
unfolding Listener.read_monotonic
read_monotonic-IsCore env p = record {
  at = λ w h. record {
    safe = h.safe;
    linked = h.linked;
    pipeline = h.pipeline;
    attached = h.attached;
  };
}

read_monotonic-IsWaiting :
    (env : Env) (p : Pipeline) (phase : Phase)
    → Keeps (IsWaiting p phase) (Listener.read_monotonic env)
unfolding Listener.read_monotonic
read_monotonic-IsWaiting env p phase = record {
  at = λ w h. record {
    core = (read_monotonic-IsCore env p).at w h.core;
    awaiting = h.awaiting;
    phased = h.phased;
  };
}

read_monotonic-IsSound : (env : Env) → Keeps IsSound (Listener.read_monotonic env)
unfolding Listener.read_monotonic
read_monotonic-IsSound env = record {
  at = λ w.
      let p = w.pipeline in
      (each-Stage (Listener.read_monotonic env) (read_monotonic-IsCore env)
          (read_monotonic-IsWaiting env) p p.commit_outstanding p.delivered_unacked
          p.checkpointed).at
        w;
}

abbrev pub IsUp : Bool → Bool → Type 0
IsUp has_listener has_pipeline = has_pipeline ≡ true

abbrev outstanding : Daemon → Bool
outstanding d = d.world.pipeline.commit_outstanding

module _ (setup : Setup) where
  pub read_monotonic-Live : Keeps Live (inside setup Listener.read_monotonic)
  read_monotonic-Live = inside-Flagged setup IsUp _ read_monotonic-IsSound

  module _ (deadline : ℕ) where
    -- What follows the attempt of a step.
    again : ℕ → Bool → D ⊤
    again fuel more = if more then finish_loop setup fuel deadline else pure tt

    -- An attempt: a step, and the loop once more where it returned.
    attempt : ℕ → D ⊤
    unfolding again
    attempt fuel = catch (step setup >> pure true) (λ _. pure false) >>= again fuel
