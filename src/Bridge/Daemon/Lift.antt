-- ===== src/Bridge/Daemon/Lift.antt =====
-- What the methods of the objects keep, the bridge keeps of its current objects; and what the methods of the
-- producer, the listener and the client keep of the invariant.
use kafka_fdb_streamline.Common.{ℕ, Bool, true, false, ◌≡◌, refl, sym, subst, All, if_cases}
use kafka_fdb_streamline.Exec.{Result, ok, err, lift, ◌>>=◌}
use kafka_fdb_streamline.Exec.Keeps.{
  Keeps, Keeps-bind, Keeps-then, Keeps-gets, Keeps-if, Keeps-pure,
}
use kafka_fdb_streamline.World.{RdCall, Env, Producer, Pipeline, World, M}
use kafka_fdb_streamline.Kafka.Producer
use kafka_fdb_streamline.Kafka.Producer.Keeps.{IsPlain, init_transactions-Keeps}
use kafka_fdb_streamline.Cdc.Client
use kafka_fdb_streamline.Cdc.Client.Keeps.{open_client-Keeps}
use kafka_fdb_streamline.Cdc.Listener
use kafka_fdb_streamline.Bridge.Sound.{IsCore, status_of, rd-IsCore}
use kafka_fdb_streamline.Bridge.Sound.Kafka.{update-IsCore, close-IsCore}
use kafka_fdb_streamline.Bridge.Sound.Cdc.{IsFresh, fdb-IsFresh, set_db-IsFresh}
use kafka_fdb_streamline.Bridge.Sound.Flags.{Stage, IsSound}
use kafka_fdb_streamline.Bridge.Sound.Session.{shut-IsCore, close_consumer-IsCore}
use kafka_fdb_streamline.Bridge.Daemon.{Setup, Daemon}
use kafka_fdb_streamline.Bridge.Daemon.Build.{inside}

-- No acknowledgement of these objects was out of turn.
abbrev pub Safe : World → Type 0
Safe w = (status_of w).safe ≡ true

-- The generations before are safe, and `P` holds of the current objects.
abbrev pub On : (World → Type 0) → Daemon → Type 0
On P d = All Safe d.past × P d.world

module _ (setup : Setup) {P : World → Type 0} where
  pub inside-On :
      {A : Type 0} (m : Env → M A) → ((env : Env) → Keeps P (m env)) → Keeps (On P) (inside setup m)
  unfolding inside
  inside-On m kept = record { at = λ d h. (h.0, (kept _).at d.world h.1) }

  -- The flags stay as they are.
  pub inside-Flagged :
      (F : Bool → Bool → Type 0) {A : Type 0} (m : Env → M A)
      → ((env : Env) → Keeps P (m env))
      → Keeps (λ d. On P d × F d.has_listener d.has_pipeline) (inside setup m)
  unfolding inside
  inside-Flagged F m kept = record { at = λ d h. ((h.0.0, (kept _).at d.world h.0.1), h.1) }

pub lift-Keeps :
    {S A B : Type 0} {P : S → Type 0} (r : Result A) (f : A → S → Result B × S)
    → ((a : A) → r ≡ ok a → Keeps P (f a))
    → Keeps P (lift r >>= f)
unfolding lift ◌>>=◌
lift-Keeps (ok a) f kept = record { at = (kept a refl).at }
lift-Keeps (err e) f kept = record { at = λ s h. h }

-- The invariant with the pipeline's attributes as they are.
abbrev pub Core : World → Type 0
Core w = IsCore w.pipeline w

pub Core-of : {p : Pipeline} (w : World) → IsCore p w → Core w
Core-of w h = subst (λ q. IsCore q w) (sym h.pipeline) h

Stage-Core : (p : Pipeline) (a b c : Bool) (w : World) → Stage p a b c w → Core w
Stage-Core p true false false w h = Core-of w h.core
Stage-Core p false true false w h = Core-of w h.core
Stage-Core p false true true w h = Core-of w h.core
Stage-Core p false false false w h = Core-of w h
Stage-Core p true true _ w h = absurd h
Stage-Core p true false true w h = absurd h
Stage-Core p false false true w h = absurd h

pub IsSound-Core : (w : World) → IsSound w → Core w
IsSound-Core w h =
    let p = w.pipeline in Stage-Core p p.commit_outstanding p.delivered_unacked p.checkpointed w h

pub Core-Keeps : {A : Type 0} (m : M A) → ((p : Pipeline) → Keeps (IsCore p) m) → Keeps Core m
Core-Keeps m kept = record { at = λ w h. Core-of _ ((kept w.pipeline).at w h) }

listener_close-IsCore : (p : Pipeline) → Keeps (IsCore p) Listener.close
unfolding Listener.close
listener_close-IsCore p = Keeps-bind _ _ (Keeps-gets _) λ had_consumer.
    Keeps-then _ _ shut-IsCore (Keeps-if had_consumer _ _ close_consumer-IsCore (Keeps-pure tt))

pub listener_close-Core : Keeps Core Listener.close
listener_close-Core = Core-Keeps _ listener_close-IsCore

pub producer_close-Core : (env : Env) → Keeps Core (Producer.close env)
producer_close-Core env = Core-Keeps _ (λ p. close-IsCore p env)

set_db-IsCore : (p : Pipeline) (b : Bool) → Keeps (IsCore p) (Client.set_db b)
unfolding Client.set_db
set_db-IsCore p b = record {
  at = λ w h. record {
    safe = h.safe;
    linked = h.linked;
    pipeline = h.pipeline;
    attached = h.attached;
  };
}

pub close_client-Core : Keeps Core Client.close_client
unfolding Client.close_client
close_client-Core = Core-Keeps _ (λ p. set_db-IsCore p false)

-- The methods of the producer leave the listener alone.
module _ (p : Pipeline) where
  rd-IsFresh : (env : Env) (call : RdCall) → Keeps (IsFresh p) (Producer.rd env call)
  unfolding Producer.rd
  rd-IsFresh env call = record {
    at = λ w h. (
      (rd-IsCore p env call).at w h.0,
      if_cases (λ (x : Result ℕ × World). x.1.listener.awaiting_ack ≡ false) w.producer.handle _ _
          (λ _. h.1) (λ _. h.1),
    );
  }

  update-IsFresh : (f : Producer → Producer) → IsPlain f → Keeps (IsFresh p) (Producer.update f)
  unfolding Producer.update
  update-IsFresh f plain = record { at = λ w h. ((update-IsCore p f plain).at w h.0, h.1) }

  pub init_transactions-IsFresh : (env : Env) → Keeps (IsFresh p) (Producer.init_transactions env)
  init_transactions-IsFresh env = init_transactions-Keeps env (rd-IsFresh env) update-IsFresh

  pub open_client-IsFresh : (env : Env) → Keeps (IsFresh p) (Client.open_client env)
  open_client-IsFresh env = open_client-Keeps env (fdb-IsFresh p env) (set_db-IsFresh p)
