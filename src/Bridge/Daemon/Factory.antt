-- ===== src/Bridge/Daemon/Factory.antt =====
-- bridge/pipeline.py, class Bridge: _producer_from_config, the default of `_producer_factory`.
use kafka_fdb_streamline.Common.{⊤, []}
use kafka_fdb_streamline.Common.Dict.{Dict}
use kafka_fdb_streamline.Exec.{Result, ok}
use kafka_fdb_streamline.Exec.Outcome.{◌>>=◌}
use kafka_fdb_streamline.World.{Producer}
use kafka_fdb_streamline.Kafka.Settings
use kafka_fdb_streamline.Kafka.Settings.{Setting}
use kafka_fdb_streamline.Bridge.Config.{BridgeConfig}

-- `_producer_from_config`; `create` is confluent_kafka.Producer.
unfoldable pub producer_from_config {ℓ} :
    {V : Type ℓ} → (Dict (Setting V) → Result ⊤) → BridgeConfig → Result Producer
producer_from_config create config =
    Settings.construct create config.kafka.bootstrap_servers [] config.kafka.transactional_id
    >>= λ made. ok made.producer
