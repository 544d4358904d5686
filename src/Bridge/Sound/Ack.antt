-- ===== src/Bridge/Sound/Ack.antt =====
-- What reading the cursor and acknowledging do to a reply that awaits its acknowledgement.
use kafka_fdb_streamline.Common.{false, refl, ⊤, Bool, true, ◌≡◌, sym, subst, ap, ◌∙◌, Option, ◌∷◌}
use kafka_fdb_streamline.Errors.{Exn}
use kafka_fdb_streamline.Exec.{Result, ok, err}
use kafka_fdb_streamline.Exec.Keeps.{Keeps, keeps_rules, Keeps-raise_if, Keeps-gets}
use kafka_fdb_streamline.Exec.Ends.{
  After, Ends, Ends_of_Keeps, Ends-raise, Ends-catch, Ends-bind, Ends-then,
}
use kafka_fdb_streamline.World.{Cursor, Event, Env, Listener, Pipeline, World}
use kafka_fdb_streamline.Cdc.Listener
use kafka_fdb_streamline.Bridge.Pipeline
use kafka_fdb_streamline.Bridge.Monitor.{Phase, delivered, durable, is_durable, leave_delivered}
use kafka_fdb_streamline.Bridge.Sound.{IsCore}
use kafka_fdb_streamline.Bridge.Sound.Held.{require_attached}
use kafka_fdb_streamline.Bridge.Sound.Cdc.{
  HasPhase, IsAttached, awaiting-after_wait, after_wait-IsAttached, both_true,
}

module _ (p : Pipeline) where
  -- The invariant, with a reply in phase `phase` that awaits its acknowledgement.
  pub record IsWaiting (phase : Phase) (w : World) : Type 0 where
    pub core : IsCore p w
    pub awaiting : w.listener.awaiting_ack ≡ true
    pub phased : HasPhase phase w

-- The invariant, with no reply that awaits its acknowledgement.
pub record IsIdle (p : Pipeline) (w : World) : Type 0 where
  pub core : IsCore p w
  pub idle : w.listener.awaiting_ack ≡ false

module _ {p : Pipeline} where
  require_consumer-IsWaiting :
      (env : Env) (phase : Phase) → Keeps (IsWaiting p phase) (Listener.require_consumer env)
  require_consumer-IsWaiting env phase = record {
    at = λ w h.
        subst (IsWaiting p phase) (sym (require_attached env w (h.core.attached h.awaiting))) h;
  }

  native_position-IsWaiting :
      (env : Env) (phase : Phase) → Keeps (IsWaiting p phase) (Listener.native_position env)
  unfolding Listener.native_position
  native_position-IsWaiting env phase = record {
    at = λ w h. record {
      core = record {
        safe = h.core.safe;
        linked = h.core.linked;
        pipeline = h.core.pipeline;
        attached = h.core.attached;
      };
      awaiting = h.awaiting;
      phased = h.phased;
    };
  }

  pub get_position-IsWaiting :
      (env : Env) (phase : Phase) → Keeps (IsWaiting p phase) (Listener.get_position env)
  unfolding Listener.get_position
  get_position-IsWaiting env phase =
      search (keeps_rules, require_consumer-IsWaiting, native_position-IsWaiting) depth 8

  acknowledged :
      (w : World) (l : Listener) (closed : Bool) (outcome : Result ⊤)
      → IsWaiting p durable w
      → l.awaiting_ack ≡ true
      → IsAttached l
      → After
          (λ _. IsCore p)
          (IsWaiting p durable)
          (
            outcome,
            record w {
              listener = l;
              trace =
                  Event.acknowledged (record { closed_meanwhile = closed; outcome = outcome })
                  ∷ w.trace;
            },
          )
  acknowledged w l closed (ok tt) h waiting attached = record {
    safe = both_true _ _ h.core.safe (ap is_durable h.phased);
    linked = h.core.linked;
    pipeline = h.core.pipeline;
    attached = attached;
  }
  acknowledged w l closed (err e) h waiting attached = record {
    core = record {
      safe = both_true _ _ h.core.safe (ap is_durable h.phased);
      linked = h.core.linked;
      pipeline = h.core.pipeline;
      attached = attached;
    };
    awaiting = waiting;
    phased = h.phased;
  }

  native_acknowledge-Ends :
      (env : Env)
      → Ends
          (IsWaiting p durable)
          (Listener.native_acknowledge env)
          (λ _. IsCore p)
          (IsWaiting p durable)
  unfolding Listener.native_acknowledge
  native_acknowledge-Ends env = record {
    at = λ w h.
        let reply = env.acknowledge w.trace in
        acknowledged w _ reply.closed_meanwhile reply.outcome h
          (awaiting-after_wait _ w.listener ∙ h.awaiting)
          (after_wait-IsAttached _ w.listener h.core.attached);
  }

  set_acknowledged-Ends :
      Ends (IsCore p) Listener.set_acknowledged (λ _. IsIdle p) (IsWaiting p durable)
  unfolding Listener.set_acknowledged Listener.update
  set_acknowledged-Ends = record {
    at = λ w h. record {
      core = record {
        safe = h.safe;
        linked = h.linked;
        pipeline = h.pipeline;
        attached = λ waiting. cc waiting;
      };
      idle = refl;
    };
  }

  wait_failed-Ends :
      (e : Exn)
      → Ends
          (IsWaiting p durable)
          (Listener.wait_failed {A = ⊤} e)
          (λ _. IsCore p)
          (IsWaiting p durable)
  unfolding Listener.wait_failed
  wait_failed-Ends e =
      Ends-bind _ _ (Ends_of_Keeps (Keeps-gets _)) λ closed. Ends-raise _ (λ _ h. h)

  -- A native acknowledgement goes out only for a durable position. If it fails, all stays as it was.
  pub acknowledge-Ends :
      (env : Env)
      → Ends (IsWaiting p durable) (Listener.acknowledge env) (λ _. IsIdle p) (IsWaiting p durable)
  unfolding Listener.acknowledge
  acknowledge-Ends env = Ends-bind _ _ (Ends_of_Keeps (Keeps-gets _)) λ l.
      Ends-then _ _ (Ends_of_Keeps (Keeps-raise_if _ _)) (
        Ends-then _ _ (Ends_of_Keeps (Keeps-raise_if _ _)) (
          Ends-then _ _ (Ends_of_Keeps (Keeps-raise_if _ _)) (
            Ends-then _ _
              (Ends-catch _ _
                (Ends-then _ _ (Ends_of_Keeps (require_consumer-IsWaiting env durable))
                  (native_acknowledge-Ends env))
                wait_failed-Ends)
              set_acknowledged-Ends)))

  saved :
      (w : World) (cursor : Option Cursor) (reply : Result ⊤)
      → IsWaiting p delivered w
      → After
          (λ _. IsWaiting p durable)
          (IsWaiting p delivered)
          (reply, record w { trace = Event.checkpoint_saved cursor reply ∷ w.trace })
  saved w cursor (ok tt) h = record {
    core = record {
      safe = h.core.safe;
      linked = h.core.linked;
      pipeline = h.core.pipeline;
      attached = h.core.attached;
    };
    awaiting = h.awaiting;
    phased = ap leave_delivered h.phased;
  }
  saved w cursor (err e) h = record {
    core = record {
      safe = h.core.safe;
      linked = h.core.linked;
      pipeline = h.core.pipeline;
      attached = h.core.attached;
    };
    awaiting = h.awaiting;
    phased = h.phased;
  }

  pub save_checkpoint-Ends :
      (env : Env) (cursor : Option Cursor)
      → Ends
          (IsWaiting p delivered)
          (Pipeline.save_checkpoint env cursor)
          (λ _. IsWaiting p durable)
          (IsWaiting p delivered)
  unfolding Pipeline.save_checkpoint
  save_checkpoint-Ends env cursor = record {
    at = λ w h. saved w cursor (env.checkpoint w.trace cursor) h;
  }
