-- ===== src/Bridge/Sound/Poll.antt =====
-- Polling keeps the invariant of the process, and takes a reply where it returns records.
use kafka_fdb_streamline.Common.{
  ℕ, not, ◌≡◌, ◌≢◌, refl, ap, subst, if◌then◌else◌, Option, none, some, List, is_empty,
}
use kafka_fdb_streamline.Errors.{Exn}
use kafka_fdb_streamline.Exec.{Result, ok, err, pure, raise, ◌>>=◌}
use kafka_fdb_streamline.Exec.Keeps.{
  Keeps, keeps_rules, Keeps-bind, Keeps-then, Keeps-pure, Keeps-gets, Keeps-lift, Returns,
  Returns-bind, Returns-then, Returns-catch, Returns_of_Keeps,
}
use kafka_fdb_streamline.Exec.Run.{bind_at}
use kafka_fdb_streamline.Serialization.Message.{FdbMutationRecord, Protobuf}
use kafka_fdb_streamline.World.{Env, Pipeline, World, M}
use kafka_fdb_streamline.Cdc.Listener
use kafka_fdb_streamline.Cdc.Listener.Keeps.{wait_failed-Keeps}
use kafka_fdb_streamline.Bridge.Monitor.{Phase, taken, is_ok}
use kafka_fdb_streamline.Bridge.Sound.{IsCore}
use kafka_fdb_streamline.Bridge.Sound.Held.{IsHeld, after_wait-IsHeld, require_consumer-IsHeld}
use kafka_fdb_streamline.Bridge.Sound.Cdc.{HasPhase, after_wait-IsAttached, require_consumer-IsCore}

abbrev Any : World → Type 0
Any _ = Unit

returns-Any : {A : Type 0} (m : M A) → Returns Any m (λ _. Any)
returns-Any m = record { at = λ _ _ _ _. tt }

-- A reply is taken, and there is a consumer to acknowledge it by.
abbrev IsTaken : World → Type 0
IsTaken w = HasPhase taken w × IsHeld w

phase_taken :
    {A : Type 0} (r : Result A) (a : A) (p : Phase)
    → r ≡ ok a
    → (if is_ok r then taken else p) ≡ taken
phase_taken (ok b) a p e = refl
phase_taken (err x) a p e = cc

native_consume-IsTaken : (env : Env) → Returns IsHeld (Listener.native_consume env) (λ _. IsTaken)
unfolding Listener.native_consume
native_consume-IsTaken env = record {
  at = λ w h a e. (phase_taken _ a _ e, after_wait-IsHeld _ w.listener h);
}

wait_failed-raises :
    {A : Type 0} (e : Exn) (w : World) (a : A) → (Listener.wait_failed {A = A} e w).0 ≢ ok a
unfolding Listener.wait_failed raise ◌>>=◌
wait_failed-raises e w a = λ q. cc q

consume_batch-IsTaken : (env : Env) → Returns Any (Listener.consume_batch env) (λ _. IsTaken)
unfolding Listener.consume_batch
consume_batch-IsTaken env = Returns-bind _ _ (returns-Any _) λ _.
    Returns-then _ _ (returns-Any _) λ _. Returns-then _ _ (returns-Any _) λ _.
      Returns-catch _ _
        (Returns-then _ _ (require_consumer-IsHeld env) λ _. native_consume-IsTaken env)
        wait_failed-raises

set_delivery_failed-IsTaken : Keeps IsTaken Listener.set_delivery_failed
unfolding Listener.set_delivery_failed Listener.update
set_delivery_failed-IsTaken = record { at = λ w h. h }

timestamp-IsTaken : (env : Env) (t : Option ℕ) → Keeps IsTaken (Listener.timestamp_or_now env t)
unfolding Listener.timestamp_or_now Listener.read_time
timestamp-IsTaken env none = record { at = λ w h. h }
timestamp-IsTaken env (some t) = search keeps_rules

-- What `poll_records` leaves when it returns `records`.
abbrev pub IsPolled : List FdbMutationRecord → World → Type 0
IsPolled records w = HasPhase taken w × (w.listener.awaiting_ack ≡ not (is_empty records))

set_delivered-IsPolled :
    (records : List FdbMutationRecord)
    → Returns IsTaken (Listener.set_delivered records) (λ _. IsPolled records)
unfolding Listener.set_delivered Listener.update
set_delivered-IsPolled records = record { at = λ w h a e. (h.0, refl) }

ok_injective : {A : Type 0} {a b : A} → Result.ok a ≡ ok b → a ≡ b
ok_injective {a} e = ap (λ r. elim r [ ok x ↦ x | err _ ↦ a ]) e

pure-IsPolled :
    (records : List FdbMutationRecord)
    → Returns (IsPolled records) (pure {S = World} records) IsPolled
unfolding pure
pure-IsPolled records = record { at = λ w h a e. subst (λ r. IsPolled r w) (ok_injective e) h }

pub poll-IsPolled :
    (env : Env) (pb : Protobuf) (t : Option ℕ)
    → Returns Any (Listener.poll_records env pb t) IsPolled
unfolding Listener.poll_records
poll-IsPolled env pb t = Returns-bind _ _ (consume_batch-IsTaken env) λ reply.
    Returns-then _ _ (Returns_of_Keeps set_delivery_failed-IsTaken) λ _.
      Returns-bind _ _ (Returns_of_Keeps (timestamp-IsTaken env t)) λ now.
        Returns-bind _ _ (Returns_of_Keeps (Keeps-gets _)) λ l.
          Returns-bind _ _ (Returns_of_Keeps (Keeps-lift _))
            λ records. Returns-then _ _ (set_delivered-IsPolled records) λ _. pure-IsPolled records

module _ (p : Pipeline) where
  native_consume-IsCore : (env : Env) → Keeps (IsCore p) (Listener.native_consume env)
  unfolding Listener.native_consume
  native_consume-IsCore env = record {
    at = λ w h. record {
      safe = h.safe;
      linked = h.linked;
      pipeline = h.pipeline;
      attached = after_wait-IsAttached _ w.listener h.attached;
    };
  }

  consume_batch-IsCore : (env : Env) → Keeps (IsCore p) (Listener.consume_batch env)
  unfolding Listener.consume_batch
  consume_batch-IsCore env =
      search (keeps_rules, require_consumer-IsCore, native_consume-IsCore, wait_failed-Keeps) depth
        12

  abbrev IsHeldCore : World → Type 0
  IsHeldCore w = IsCore p w × IsHeld w

  set_delivery_failed-IsHeldCore : Keeps IsHeldCore Listener.set_delivery_failed
  unfolding Listener.set_delivery_failed Listener.update
  set_delivery_failed-IsHeldCore = record {
    at = λ w h. (
      record {
        safe = h.0.safe;
        linked = h.0.linked;
        pipeline = h.0.pipeline;
        attached = h.0.attached;
      },
      h.1,
    );
  }

  timestamp-IsHeldCore :
      (env : Env) (t : Option ℕ) → Keeps IsHeldCore (Listener.timestamp_or_now env t)
  unfolding Listener.timestamp_or_now Listener.read_time
  timestamp-IsHeldCore env none = record {
    at = λ w h. (
      record {
        safe = h.0.safe;
        linked = h.0.linked;
        pipeline = h.0.pipeline;
        attached = h.0.attached;
      },
      h.1,
    );
  }
  timestamp-IsHeldCore env (some t) = search keeps_rules

  set_delivered-IsHeldCore :
      (records : List FdbMutationRecord) → Keeps IsHeldCore (Listener.set_delivered records)
  unfolding Listener.set_delivered Listener.update
  set_delivered-IsHeldCore records = record {
    at = λ w h. (
      record { safe = h.0.safe; linked = h.0.linked; pipeline = h.0.pipeline; attached = λ _. h.1 },
      h.1,
    );
  }

  pub poll-IsCore :
      (env : Env) (pb : Protobuf) (t : Option ℕ) → Keeps (IsCore p) (Listener.poll_records env pb t)
  unfolding Listener.poll_records
  poll-IsCore env pb t = record {
    at = λ w h.
        let core = (consume_batch-IsCore env).at w h in
        bind_at (λ x. IsCore p x.1) (Listener.consume_batch env) _ w
          (λ reply e.
            ((Keeps-then _ _ set_delivery_failed-IsHeldCore (
                Keeps-bind _ _ (timestamp-IsHeldCore env t) λ now.
                  Keeps-bind _ _ (Keeps-gets _) λ l.
                    Keeps-bind _ _ (Keeps-lift _) λ records.
                      Keeps-then _ _ (set_delivered-IsHeldCore records) (Keeps-pure _))).at
              _ (core, ((consume_batch-IsTaken env).at w tt reply e).1)).0)
          (λ _ _. core);
  }
