-- ===== src/Bridge/Construct.antt =====
-- bridge/pipeline.py, BridgePipeline.__init__ and its checks. The delays are checked and then left out.
use kafka_fdb_streamline.Common.{
  ℕ, false, Option, none, some, is_empty, if◌then◌else◌, pos, negsuc, pos_part, ltb_ℤ, ◌≡◌, ◌<◌,
  refl, subst, arith,
}
use kafka_fdb_streamline.Common.Number.{Number, is_negative, not_positive}
use kafka_fdb_streamline.Errors.{type_error, value_error}
use kafka_fdb_streamline.Exec.{Result, ok, err}
use kafka_fdb_streamline.Exec.Outcome.{◌>>=◌, ◌>>◌, refuse_if, bind_ok, ok_injective}
use kafka_fdb_streamline.Serialization.Model.{Bytes, Value}
use kafka_fdb_streamline.World.{Listener, Pipeline}
use kafka_fdb_streamline.Bridge.Pipeline.{resolve_partition_key}
use kafka_fdb_streamline.Bridge.Sound.Flags.{flags}

-- The arguments besides the listener, the producer and the checkpoint. A number is `none` where it is no
-- int or float, or a bool.
pub record Arguments : Type 0 where
  pub topic : Bytes
  pub partition_key : Option Value
  pub ack_retries : Value
  pub ack_retry_delay_seconds : Option Number
  pub commit_retries : Value
  pub commit_retry_delay_seconds : Option Number
  pub flush_timeout_seconds : Option Number

-- `_require_retries`
unfoldable pub retries : Value → Result ℕ
retries (Value.int z) = if ltb_ℤ z (pos 1) then err value_error else ok (pos_part z)
retries _ = err value_error

-- `_require_delay`
unfoldable pub require_delay : Option Number → Result Number
require_delay none = err type_error
require_delay (some delay) = if is_negative delay then err value_error else ok delay

-- `_resolve_partition_key`
unfoldable pub partition_key_of : Listener → Option Value → Result Bytes
partition_key_of l none = resolve_partition_key l none
partition_key_of l (some (Value.bytes key)) = resolve_partition_key l (some key)
partition_key_of l (some _) = err type_error

-- `__init__`
unfoldable pub construct : Listener → Arguments → Result Pipeline
construct l a = do
  ack_retries ← retries a.ack_retries
  commit_retries ← retries a.commit_retries
  ack_delay ← require_delay a.ack_retry_delay_seconds
  commit_delay ← require_delay a.commit_retry_delay_seconds
  flush_timeout ← require_delay a.flush_timeout_seconds
  refuse_if (not_positive flush_timeout) value_error
  partition_key ← partition_key_of l a.partition_key
  ok (record {
    topic = a.topic;
    partition_key = partition_key;
    ack_retries = ack_retries;
    commit_retries = commit_retries;
    pending_count = 0;
    delivered_unacked = false;
    checkpointed = false;
    commit_outstanding = false;
  })

-- A pipeline as its constructor leaves it: an attempt for each of its retried calls, a key, no flag set.
pub record IsReady (p : Pipeline) : Type 0 where
  pub acknowledges : 0 < p.ack_retries
  pub commits : 0 < p.commit_retries
  pub keyed : is_empty p.partition_key ≡ false
  pub resting : p ≡ flags p false false false

retries-positive : (v : Value) (n : ℕ) → retries v ≡ ok n → 0 < n
unfolding retries
retries-positive (Value.int (pos m)) n h = ground arith
retries-positive (Value.int (negsuc m)) n h = ground arith
retries-positive _ n h = ground arith

partition_key_of-nonempty :
    (l : Listener) (v : Option Value) (key : Bytes)
    → partition_key_of l v ≡ ok key
    → is_empty key ≡ false
unfolding partition_key_of resolve_partition_key
partition_key_of-nonempty l none key h = ground arith
partition_key_of-nonempty l (some (Value.bytes given)) key h = ground arith
partition_key_of-nonempty l (some _) key h = cc

-- A pipeline that the constructor returns makes at least one attempt to acknowledge and to commit, has a key
-- that is not empty for its records, and has no flag set.
pub construct-IsReady :
    (l : Listener) (a : Arguments) (p : Pipeline) → construct l a ≡ ok p → IsReady p
unfolding construct
construct-IsReady l a p returned =
    let (acks, has_acks, h1) = bind_ok (retries a.ack_retries) _ returned in
    let (commits, has_commits, h2) = bind_ok (retries a.commit_retries) _ h1 in
    let (_, _, h3) = bind_ok (require_delay a.ack_retry_delay_seconds) _ h2 in
    let (_, _, h4) = bind_ok (require_delay a.commit_retry_delay_seconds) _ h3 in
    let (flush, _, h5) = bind_ok (require_delay a.flush_timeout_seconds) _ h4 in
    let (_, _, h6) = bind_ok (refuse_if (not_positive flush) value_error) _ h5 in
    let (key, keyed, same) = bind_ok (partition_key_of l a.partition_key) _ h6 in
    subst IsReady (ok_injective same) (record {
      acknowledges = retries-positive a.ack_retries acks has_acks;
      commits = retries-positive a.commit_retries commits has_commits;
      keyed = partition_key_of-nonempty l a.partition_key key keyed;
      resting = refl;
    })
