-- ===== src/Bridge/Daemon/Stop.antt =====
-- bridge/pipeline.py, class Bridge: stop and _finish_outstanding_commit.
use kafka_fdb_streamline.Common.{
  ⊤, ℕ, zero, suc, ◌+◌, Bool, true, false, ◌&&◌, ◌||◌, not, Option, none, some, List, [], ◌∷◌,
  if◌then◌else◌, ltb,
}
use kafka_fdb_streamline.Errors.{Exn}
use kafka_fdb_streamline.Exec.{pure, raise, gets, catch, ◌>>=◌, ◌>>◌}
use kafka_fdb_streamline.Kafka.Producer
use kafka_fdb_streamline.Cdc.Client
use kafka_fdb_streamline.Cdc.Client.{to_bytes}
use kafka_fdb_streamline.Cdc.Listener
use kafka_fdb_streamline.Bridge.Daemon.{Setup, Daemon, D, change, request_shutdown, logged}
use kafka_fdb_streamline.Bridge.Daemon.Build.{inside, step}

unfoldable pub drop_all : Daemon → Daemon
drop_all d = record d {
  has_client = false;
  has_listener = false;
  has_producer = false;
  has_pipeline = false;
  last_records = [];
}

-- `raise first_error`
unfoldable pub raise_first : List (Option Exn) → D ⊤
raise_first [] = pure tt
raise_first (none ∷ rest) = raise_first rest
raise_first (some e ∷ rest) = raise e

-- The exception of a close, if it raised.
unfoldable pub closing : Bool → D ⊤ → D (Option Exn)
closing false close = pure none
closing true close = catch (close >> pure none) (λ e. pure (some e))

module _ (setup : Setup) where
  -- The loop of `_finish_outstanding_commit`; an exception of a step ends it.
  unfoldable pub finish_loop : ℕ → ℕ → D ⊤
  finish_loop zero deadline = pure tt
  finish_loop (suc fuel) deadline = do
    d ← gets (λ d. d)
    if not d.world.pipeline.commit_outstanding then pure tt else do
      now ← inside setup Listener.read_monotonic
      if not (ltb now deadline) then pure tt else do
        again ← catch (step setup >> pure true) (λ _. pure false)
        if again then finish_loop fuel deadline else pure tt

  -- `_finish_outstanding_commit`, with the timeout in ticks. Two turns of its loop are enough.
  unfoldable pub finish_outstanding_commit : ℕ → D ⊤
  finish_outstanding_commit timeout = do
    d ← gets (λ d. d)
    if not d.has_pipeline
        then pure tt
        else do now ← inside setup Listener.read_monotonic; finish_loop 2 (now + timeout)

  unfoldable pub close_all : Daemon → D ⊤
  close_all handles = do
    producer_error ← closing handles.has_producer (inside setup (λ env. Producer.close env))
    listener_error ← closing handles.has_listener (inside setup (λ env. Listener.close))
    client_error ← closing handles.has_client (inside setup (λ env. Client.close_client))
    raise_first (producer_error ∷ listener_error ∷ client_error ∷ [])

  -- `stop`: whether it got the lock at once, or else after it closed the listener.
  unfoldable pub stop : Bool → Bool → ℕ → D ⊤
  stop at_once later timeout = do
    change request_shutdown
    d ← gets (λ d. d)
    if not at_once && d.has_listener then logged (inside setup (λ env. Listener.close)) else pure tt
    if at_once || later then finish_outstanding_commit timeout else pure tt
    handles ← gets (λ d. d)
    change drop_all
    close_all handles
