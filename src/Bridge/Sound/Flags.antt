-- ===== src/Bridge/Sound/Flags.antt =====
-- What the three flags of the pipeline say of a delivery.
use kafka_fdb_streamline.Common.{Bool, true, false, ap}
use kafka_fdb_streamline.Exec.Ends.{Ends}
use kafka_fdb_streamline.World.{Pipeline, World}
use kafka_fdb_streamline.Bridge.Pipeline
use kafka_fdb_streamline.Bridge.Monitor.{Phase, taken, delivered, durable}
use kafka_fdb_streamline.Bridge.Sound.{IsCore}
use kafka_fdb_streamline.Bridge.Sound.Ack.{IsIdle, IsWaiting}

-- The pipeline `p` with its three flags set anew.
abbrev pub flags : Pipeline → Bool → Bool → Bool → Pipeline
flags p outstanding unacked saved = record p {
  commit_outstanding = outstanding;
  delivered_unacked = unacked;
  checkpointed = saved;
}

-- A commit is outstanding; the delivery is confirmed; its cursor is saved; nothing is pending.
abbrev pub Outstanding : Pipeline → World → Type 0
Outstanding p = IsWaiting (flags p true false false) taken

abbrev pub Confirmed : Pipeline → World → Type 0
Confirmed p = IsWaiting (flags p false true false) delivered

abbrev pub Saved : Pipeline → World → Type 0
Saved p = IsWaiting (flags p false true true) durable

abbrev pub Resting : Pipeline → World → Type 0
Resting p = IsCore (flags p false false false)

-- What the three flags say of the process.
abbrev pub Stage : Pipeline → Bool → Bool → Bool → World → Type 0
Stage p true false false w = Outstanding p w
Stage p false true false w = Confirmed p w
Stage p false true true w = Saved p w
Stage p false false false w = Resting p w
Stage p true true _ w = ⊥
Stage p true false true w = ⊥
Stage p false false true w = ⊥

-- The invariant of a bridge process between steps.
abbrev pub IsSound : World → Type 0
IsSound w = let p = w.pipeline in Stage p p.commit_outstanding p.delivered_unacked p.checkpointed w

-- A change of the pipeline's attributes.
pub changed :
    {p : Pipeline} {R : World → Type 0} (f : Pipeline → Pipeline)
    → Ends (IsCore p) (Pipeline.update f) (λ _. IsCore (f p)) R
unfolding Pipeline.update
changed f = record {
  at = λ w h. record {
    safe = h.safe;
    linked = h.linked;
    pipeline = ap f h.pipeline;
    attached = h.attached;
  };
}

pub update-IsWaiting :
    {p : Pipeline} {phase : Phase} {R : World → Type 0} (f : Pipeline → Pipeline)
    → Ends (IsWaiting p phase) (Pipeline.update f) (λ _. IsWaiting (f p) phase) R
unfolding Pipeline.update
update-IsWaiting f = record {
  at = λ w h. record {
    core = record {
      safe = h.core.safe;
      linked = h.core.linked;
      pipeline = ap f h.core.pipeline;
      attached = h.core.attached;
    };
    awaiting = h.awaiting;
    phased = h.phased;
  };
}

-- The same, with no reply that awaits its acknowledgement.
pub changed-IsIdle :
    {p : Pipeline} {R : World → Type 0} (f : Pipeline → Pipeline)
    → Ends (IsIdle p) (Pipeline.update f) (λ _. IsIdle (f p)) R
unfolding Pipeline.update
changed-IsIdle f = record {
  at = λ w h. record {
    core = record {
      safe = h.core.safe;
      linked = h.core.linked;
      pipeline = ap f h.core.pipeline;
      attached = h.core.attached;
    };
    idle = h.idle;
  };
}

-- Nothing is pending: the flags are clear, and no reply awaits its acknowledgement.
abbrev pub AtRest : World → Type 0
AtRest w = IsIdle (flags w.pipeline false false false) w

abbrev pub StageOf : Pipeline → World → Type 0
StageOf p w = Stage p p.commit_outstanding p.delivered_unacked p.checkpointed w
