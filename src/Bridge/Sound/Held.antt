-- ===== src/Bridge/Sound/Held.antt =====
-- The listener holds a consumer, or is closed, after its start has returned.
use kafka_fdb_streamline.Common.{
  ⊤, ℕ, Bool, true, false, ◌||◌, ◌≡◌, ◌≢◌, ap, sym, subst, ◌∙◌, arith, refl, Option, none, some,
  inl, inr, Bool-cases,
}
use kafka_fdb_streamline.Errors.{Exn}
use kafka_fdb_streamline.Exec.{Result, ok, ◌>>◌, ◌>>=◌}
use kafka_fdb_streamline.Exec.Keeps.{
  Keeps, keeps_rules, Returns, Returns-bind, Returns-then, Returns-catch, Returns_of_Keeps,
}
use kafka_fdb_streamline.World.{FdbCall, Cursor, Env, Listener, World, M}
use kafka_fdb_streamline.Cdc.Client
use kafka_fdb_streamline.Cdc.Listener
use kafka_fdb_streamline.Cdc.Listener.Keeps.{await_version-Keeps}

abbrev pub IsHeld : World → Type 0
IsHeld w = (w.listener.consumer || w.listener.is_closed) ≡ true

abbrev Any : World → Type 0
Any _ = Unit

fdb-IsHeld : (env : Env) (call : FdbCall) → Keeps IsHeld (Client.fdb env call)
unfolding Client.fdb
fdb-IsHeld env call = record { at = λ w h. h }

set_db-IsHeld : (b : Bool) → Keeps IsHeld (Client.set_db b)
unfolding Client.set_db
set_db-IsHeld b = record { at = λ w h. h }

read_monotonic-IsHeld : (env : Env) → Keeps IsHeld (Listener.read_monotonic env)
unfolding Listener.read_monotonic
read_monotonic-IsHeld env = record { at = λ w h. h }

sleep-IsHeld : (ticks : ℕ) → Keeps IsHeld (Listener.sleep ticks)
unfolding Listener.sleep
sleep-IsHeld ticks = record { at = λ w h. h }

pub after_wait-IsHeld :
    (b : Bool) (l : Listener)
    → (l.consumer || l.is_closed) ≡ true
    → ((Listener.after_wait b l).consumer || (Listener.after_wait b l).is_closed) ≡ true
after_wait-IsHeld true l h = refl
after_wait-IsHeld false l h = h

native_acknowledge-IsHeld : (env : Env) → Keeps IsHeld (Listener.native_acknowledge env)
unfolding Listener.native_acknowledge
native_acknowledge-IsHeld env = record { at = λ w h. after_wait-IsHeld _ w.listener h }

wait-IsHeld :
    (env : Env) (fuel : ℕ) (target : _) (deadline : ℕ)
    → Keeps IsHeld (Listener.await_version env fuel target deadline)
wait-IsHeld env =
    await_version-Keeps env (fdb-IsHeld env) set_db-IsHeld (read_monotonic-IsHeld env) sleep-IsHeld

reconcile-IsHeld : (env : Env) (cursor : Cursor) → Keeps IsHeld (Listener.reconcile env cursor)
unfolding Listener.reconcile
reconcile-IsHeld env cursor =
    search (keeps_rules, read_monotonic-IsHeld, wait-IsHeld, native_acknowledge-IsHeld) depth 14

set_consumer-IsHeld : Returns Any (Listener.set_consumer true) (λ _. IsHeld)
unfolding Listener.set_consumer Listener.update
set_consumer-IsHeld = record { at = λ w _ _ _. refl }

abandon-raises : (e : Exn) (w : World) (a : ⊤) → (Listener.abandon e w).0 ≢ ok a
unfolding Listener.abandon Listener.set_consumer Listener.update Listener.close_consumer ◌>>◌
abandon-raises e w a = λ q. cc q

returns-Any : {A : Type 0} (m : M A) → Returns Any m (λ _. Any)
returns-Any m = record { at = λ _ _ _ _. tt }

attach-IsHeld :
    (env : Env) (cursor : Option Cursor) → Returns Any (Listener.attach env cursor) (λ _. IsHeld)
unfolding Listener.attach
attach-IsHeld env none =
    Returns-bind _ _ (returns-Any _) λ _. Returns-then _ _ (returns-Any _) λ _. set_consumer-IsHeld
attach-IsHeld env (some cursor) = Returns-then _ _ (returns-Any _) λ _.
    Returns-then _ _ set_consumer-IsHeld
      λ _. Returns-catch _ _ (Returns_of_Keeps (reconcile-IsHeld env cursor)) abandon-raises

start_detached-IsHeld :
    (env : Env) (l : Listener) → Returns Any (Listener.start_detached env l) (λ _. IsHeld)
unfolding Listener.start_detached
start_detached-IsHeld env l = Returns-then _ _ (returns-Any _) λ _.
    Returns-then _ _ (returns-Any _)
      λ _. Returns-then _ _ (returns-Any _) λ _. attach-IsHeld env l.initial_cursor

-- A listener whose reply awaits its acknowledgement is not started anew.
pub require_attached :
    (env : Env) (w : World)
    → (w.listener.consumer || w.listener.is_closed) ≡ true
    → (Listener.require_consumer env w).1 ≡ w
unfolding Listener.require_consumer ◌>>=◌ ◌>>◌
require_attached env w h = ground arith

require_detached :
    (env : Env) (w : World)
    → (w.listener.consumer || w.listener.is_closed) ≡ false
    → Listener.require_consumer env w ≡ Listener.start_detached env w.listener w
unfolding Listener.require_consumer Listener.start ◌>>=◌ ◌>>◌
require_detached env w h = ground arith

-- After the property `consumer` has returned there is a consumer.
pub require_consumer-IsHeld :
    (env : Env) → Returns Any (Listener.require_consumer env) (λ _. IsHeld)
require_consumer-IsHeld env = record {
  at = λ w _ a e. elim (Bool-cases (w.listener.consumer || w.listener.is_closed)) [
    | inl held ↦ subst IsHeld (sym (require_attached env w held)) held
    | inr detached ↦
        let same = require_detached env w detached in
        subst (λ (x : Result ⊤ × World). IsHeld x.1) (sym same)
          ((start_detached-IsHeld env w.listener).at w tt a
            (ap (λ (x : Result ⊤ × World). x.0) (sym same) ∙ e))
  ];
}
