-- ===== src/Bridge/Ledger/Process.antt =====
-- What the methods that the bridge calls besides a step keep of an accounted process.
use kafka_fdb_streamline.Common.{true, false, ◌≡◌, refl, subst}
use kafka_fdb_streamline.Exec.Keeps.{Keeps}
use kafka_fdb_streamline.Serialization.Message.{Protobuf}
use kafka_fdb_streamline.World.{Trace, Env, Pipeline, M}
use kafka_fdb_streamline.Kafka.Producer
use kafka_fdb_streamline.Kafka.Producer.Keeps.{close-Keeps, init_transactions-Keeps}
use kafka_fdb_streamline.Cdc.Client
use kafka_fdb_streamline.Cdc.Client.Keeps.{open_client-Keeps}
use kafka_fdb_streamline.Cdc.Listener
use kafka_fdb_streamline.Bridge.Ledger.{IsPublished}
use kafka_fdb_streamline.Bridge.Ledger.Calls.{
  IsStable, IsPublished-IsStable, Holds, rd-Holds, update-Holds, set_db-Holds, fdb-Holds,
  read_monotonic-Holds,
}
use kafka_fdb_streamline.Bridge.Ledger.Poll.{start-Holds}
use kafka_fdb_streamline.Bridge.Ledger.Finish.{pending, IsAccounted}

-- What `p` calls pending was published.
abbrev Owing : Protobuf → Pipeline → Trace → Type 0
Owing pb p t = pending p ≡ true → IsPublished pb t

abbrev Is : Pipeline → Pipeline → Type 0
Is p q = q ≡ p

module _ (pb : Protobuf) where
  stable : IsStable (IsPublished pb)
  stable = IsPublished-IsStable pb

  Owing-IsStable : (p : Pipeline) → IsStable (Owing pb p)
  Owing-IsStable p = record {
    on_kafka = λ c r t h on. stable.on_kafka c r t (h on);
    on_fdb = λ c r t h on. stable.on_fdb c r t (h on);
    on_acknowledged = λ r t h on. stable.on_acknowledged r t (h on);
    on_position = λ r t h on. stable.on_position r t (h on);
    on_checkpoint = λ c r t h on. stable.on_checkpoint c r t (h on);
    on_clock = λ n t h on. stable.on_clock n t (h on);
    on_monotonic = λ n t h on. stable.on_monotonic n t (h on);
    on_slept = λ n t h on. stable.on_slept n t (h on);
    on_closed = λ t h on. stable.on_closed t (h on);
  }

  for_each_pipeline :
      {A : Type 0} {m : M A}
      → ((p : Pipeline) → Keeps (Holds pb (Is p) (Owing pb p)) m)
      → Keeps (IsAccounted pb) m
  for_each_pipeline kept = record {
    at = λ w h.
        let k = (kept w.pipeline).at w (record { ledger = h.0; there = h.1; flagged = refl }) in
        (k.ledger, λ on. k.there (subst (λ q. pending q ≡ true) k.flagged on));
  }

  pub producer_close-IsAccounted : (env : Env) → Keeps (IsAccounted pb) (Producer.close env)
  producer_close-IsAccounted env =
      for_each_pipeline
        λ p. close-Keeps env (rd-Holds (Owing-IsStable p).on_kafka env) (λ f _. update-Holds f)

  pub init_transactions-IsAccounted :
      (env : Env) → Keeps (IsAccounted pb) (Producer.init_transactions env)
  init_transactions-IsAccounted env = for_each_pipeline λ p.
      init_transactions-Keeps env (rd-Holds (Owing-IsStable p).on_kafka env) (λ f _. update-Holds f)

  pub open_client-IsAccounted : (env : Env) → Keeps (IsAccounted pb) (Client.open_client env)
  open_client-IsAccounted env =
      for_each_pipeline λ p. open_client-Keeps env (fdb-Holds (Owing-IsStable p) env) set_db-Holds

  pub close_client-IsAccounted : Keeps (IsAccounted pb) Client.close_client
  unfolding Client.close_client
  close_client-IsAccounted = for_each_pipeline λ p. set_db-Holds false

  pub start-IsAccounted : (env : Env) → Keeps (IsAccounted pb) (Listener.start env)
  start-IsAccounted env = for_each_pipeline λ p. start-Holds (Owing-IsStable p) env

  pub read_monotonic-IsAccounted :
      (env : Env) → Keeps (IsAccounted pb) (Listener.read_monotonic env)
  read_monotonic-IsAccounted env =
      for_each_pipeline λ p. read_monotonic-Holds (Owing-IsStable p) env
