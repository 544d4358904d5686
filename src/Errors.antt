-- ===== src/Errors.antt =====
-- The exceptions that the bridge raises and catches, as values: serialization/errors.py, cdc/errors.py,
-- and the built-in and library exceptions that its handlers name. Messages are left out.
use kafka_fdb_streamline.Common.{ℕ, Bool, Option, List, ℤ}

-- The argument or attribute that an input error reports.
pub data Field : Type 0 where
  fdb_version sequence_no first_sequence_no total_mutations max_record_bytes : Field
  stream_name bridge_timestamp_ns mutations type param1 param2 serialized : Field

-- serialization/errors.py, class DecodeFailure.
pub data DecodeFailure : Type 0 where
  malformed_wire no_record_arm no_mutation_arm missing_version_index : DecodeFailure
  type_code_out_of_range version_out_of_range empty_batch inconsistent_batch : DecodeFailure

-- serialization/errors.py: the subclasses of SerializationError with their attributes.
pub data SerializationError : Type 0 where
  input_type : Field → Option ℕ → SerializationError
  input_value : Field → Option ℕ → SerializationError
  record_too_large : Option ℕ → ℕ → ℕ → SerializationError
  record_decode : DecodeFailure → Option ℕ → SerializationError

-- cdc/errors.py. The last two carry the native error code.
pub data CdcError : Type 0 where
  cdc_error not_supported consumer_closed invalid_cursor invalid_range : CdcError
  retryable terminal : ℤ → CdcError

-- The flag methods of a librdkafka error; `none` is a method that the object does not have.
pub record KafkaError : Type 0 where
  pub code : ℕ
  pub fatal : Option Bool
  pub retriable : Option Bool
  pub txn_requires_abort : Option Bool

-- Which guard of the program raised a RuntimeError; `binding` is one of the FoundationDB binding, with
-- the code points of its message.
pub data RuntimeReason : Type 0 where
  producer_closed producer_fatal not_transactional not_initialized : RuntimeReason
  already_initialized transaction_open no_transaction not_started api_version_conflict
        no_record_value bridge_failed :
      RuntimeReason
  binding : List ℕ → RuntimeReason

-- `kafka_exception e` carries args[0], if there is one. `fdb_error` is the binding's FDBError.
pub data Exn : Type 0 where
  kafka_exception : Option KafkaError → Exn
  buffer_error timeout_error value_error type_error os_error other_error : Exn
  runtime_error : RuntimeReason → Exn
  cdc : CdcError → Exn
  fdb_error : ℤ → Exn
  serialization : SerializationError → Exn
