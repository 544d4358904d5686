-- ===== src/Kafka/Faults.antt =====
-- kafka/producer.py, is_fatal_kafka_error, and the two readings of an error's flags in
-- bridge/pipeline.py.
use kafka_fdb_streamline.Common.{Bool, false, ◌||◌, Option, none, some, is_some, if◌then◌else◌}
use kafka_fdb_streamline.Errors.{KafkaError, Exn, kafka_exception}

-- `method() is True` of a method that may be missing.
abbrev pub says_true : Option Bool → Bool
says_true none = false
says_true (some answer) = answer

unfoldable pub is_fatal_kafka_error : Exn → Bool
is_fatal_kafka_error (kafka_exception (some error)) = says_true error.fatal
is_fatal_kafka_error _ = false

-- `_kafka_error`: the carried error, if it has one of the three flag methods.
unfoldable pub kafka_error : Exn → Option KafkaError
kafka_error (kafka_exception (some error)) =
    if is_some error.fatal || is_some error.retriable || is_some error.txn_requires_abort
    then some error
    else none
kafka_error _ = none

-- Whether `_commit_with_retry` tries again after a commit failure that is not fatal.
unfoldable pub commit_may_retry : Option KafkaError → Bool
commit_may_retry none = false
commit_may_retry (some error) =
    if says_true error.txn_requires_abort then false else says_true error.retriable
