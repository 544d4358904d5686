-- ===== src/Cdc/Listener/Turns.antt =====
-- Polling and acknowledging take turns.
use kafka_fdb_streamline.Common.{ℕ, true, ◌≡◌, Option, arith}
use kafka_fdb_streamline.Errors.{cdc, cdc_error}
use kafka_fdb_streamline.Exec.{err, ◌>>=◌, ◌>>◌}
use kafka_fdb_streamline.Serialization.Message.{Protobuf}
use kafka_fdb_streamline.World.{Env, World}
use kafka_fdb_streamline.Cdc.Listener

consume-refused :
    (env : Env) (w : World)
    → w.listener.awaiting_ack ≡ true
    → Listener.consume_batch env w ≡ (err (cdc cdc_error), w)
unfolding Listener.consume_batch ◌>>◌
consume-refused env w waiting = ground arith

-- While a reply awaits its acknowledgement, `poll_records` raises CDCError, calls nothing and changes nothing.
poll-refused :
    (env : Env) (pb : Protobuf) (t : Option ℕ) (w : World)
    → w.listener.awaiting_ack ≡ true
    → Listener.poll_records env pb t w ≡ (err (cdc cdc_error), w)
unfolding Listener.poll_records ◌>>=◌
poll-refused env pb t w waiting = rw (consume-refused env w waiting)
