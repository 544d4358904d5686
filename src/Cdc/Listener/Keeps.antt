-- ===== src/Cdc/Listener/Keeps.antt =====
-- What the calls of a resume keep, its wait for the read version keeps.
use kafka_fdb_streamline.Common.{ℕ, zero, suc, ℤ, Bool, Option, none, some, not, ltb_ℤ}
use kafka_fdb_streamline.Exec.{pure}
use kafka_fdb_streamline.Errors.{Exn}
use kafka_fdb_streamline.Exec.Keeps.{
  Keeps, keeps_rules, Keeps-bind, Keeps-then, Keeps-if, Keeps-gets, Keeps-raise_if,
}
use kafka_fdb_streamline.Serialization.Model.{Value}
use kafka_fdb_streamline.World.{FdbCall, Env, World}
use kafka_fdb_streamline.Cdc.Client
use kafka_fdb_streamline.Cdc.Client.Keeps.{get_read_version-Keeps, register_cdc_stream-Keeps}
use kafka_fdb_streamline.Cdc.Listener

pub wait_failed-Keeps :
    {A : Type 0} {P : World → Type 0} (e : Exn) → Keeps P (Listener.wait_failed {A = A} e)
unfolding Listener.wait_failed
wait_failed-Keeps e = search keeps_rules

module _ (env : Env) {P : World → Type 0}
    (on_fdb : (call : FdbCall) → Keeps P (Client.fdb env call))
    (on_db : (b : Bool) → Keeps P (Client.set_db b)) where
  pub register-Keeps : (range : Option (Value × Value)) → Keeps P (Listener.register env range)
  unfolding Listener.register
  register-Keeps none = search keeps_rules
  register-Keeps (some (begin_key, end_key)) =
      search (keeps_rules, register_cdc_stream-Keeps env on_fdb on_db) depth 8

  read_version : Keeps P (Client.get_read_version env)
  read_version = get_read_version-Keeps env on_fdb on_db

  module _ (on_monotonic : Keeps P (Listener.read_monotonic env))
      (on_sleep : (ticks : ℕ) → Keeps P (Listener.sleep ticks)) where
    pub await_version-Keeps :
        (fuel : ℕ) (target : ℤ) (deadline : ℕ)
        → Keeps P (Listener.await_version env fuel target deadline)
    unfolding Listener.await_version
    await_version-Keeps zero target deadline = search keeps_rules
    await_version-Keeps (suc fuel) target deadline = Keeps-bind _ _ read_version λ version.
        Keeps-if (not (ltb_ℤ version target)) (pure tt) _ (search keeps_rules) (
          Keeps-bind _ _ on_monotonic λ now. Keeps-then _ _ (Keeps-raise_if _ _) (
            Keeps-bind _ _ (Keeps-gets _)
              λ interval. Keeps-then _ _ (on_sleep _) (await_version-Keeps fuel target deadline)))
