-- ===== src/Cdc/Client/Keeps.antt =====
-- What each call of the binding keeps, the methods of FDBClient keep.
use kafka_fdb_streamline.Common.{ℤ, Bool}
use kafka_fdb_streamline.Errors
use kafka_fdb_streamline.Errors.{Exn}
use kafka_fdb_streamline.Exec.Keeps.{Keeps, keeps_rules}
use kafka_fdb_streamline.Serialization.Model.{Value}
use kafka_fdb_streamline.World.{FdbCall, Cursor, Env, World}
use kafka_fdb_streamline.Cdc.Client

pub translate-Keeps :
    {A : Type 0} {P : World → Type 0} (e : Exn)
    → Keeps P (Client.translate_cdc_runtime_error {A = A} e)
unfolding Client.translate_cdc_runtime_error
translate-Keeps (Exn.runtime_error (Errors.RuntimeReason.binding text)) = search keeps_rules
translate-Keeps _ = search keeps_rules

module _ (env : Env) {P : World → Type 0}
    (on_fdb : (call : FdbCall) → Keeps P (Client.fdb env call))
    (on_db : (b : Bool) → Keeps P (Client.set_db b)) where
  select_api_version-Keeps : (v : ℤ) (e : Exn) → Keeps P (Client.select_api_version env v e)
  unfolding Client.select_api_version
  select_api_version-Keeps v (Exn.runtime_error (Errors.RuntimeReason.binding text)) =
      search (keeps_rules, on_fdb)
  select_api_version-Keeps v _ = search keeps_rules

  init_fdb-Keeps : (v : ℤ) → Keeps P (Client.init_fdb env v)
  unfolding Client.init_fdb
  init_fdb-Keeps v = search (keeps_rules, select_api_version-Keeps) depth 12

  pub open_client-Keeps : Keeps P (Client.open_client env)
  unfolding Client.open_client
  open_client-Keeps = search (keeps_rules, on_db, init_fdb-Keeps) depth 12

  pub register_cdc_stream-Keeps :
      (name begin_key end_key : Value)
      → Keeps P (Client.register_cdc_stream env name begin_key end_key)
  unfolding Client.register_cdc_stream
  register_cdc_stream-Keeps name begin_key end_key =
      search (keeps_rules, open_client-Keeps, translate-Keeps) depth 12

  pub create_cdc_consumer-Keeps : (name : Value) → Keeps P (Client.create_cdc_consumer env name)
  unfolding Client.create_cdc_consumer
  create_cdc_consumer-Keeps name = search (keeps_rules, open_client-Keeps, translate-Keeps) depth 12

  pub resume_cdc_consumer-Keeps :
      (cursor : Cursor) → Keeps P (Client.resume_cdc_consumer env cursor)
  unfolding Client.resume_cdc_consumer
  resume_cdc_consumer-Keeps cursor =
      search (keeps_rules, open_client-Keeps, translate-Keeps) depth 12

  pub get_read_version-Keeps : Keeps P (Client.get_read_version env)
  unfolding Client.get_read_version
  get_read_version-Keeps = search (keeps_rules, open_client-Keeps) depth 8
