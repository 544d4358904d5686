-- ===== src/Bridge/Monitor.antt =====
-- The delivery contract as a monitor of the calls that leave the program, independent of the flags that
-- BridgePipeline keeps. A native acknowledgement is allowed only while the position that it confirms is
-- durable: the reply taken last was confirmed by Kafka and a cursor was saved since, or the consumer
-- was resumed from a saved cursor.
use kafka_fdb_streamline.Common.{
  ℕ, zero, suc, Bool, true, false, ◌&&◌, ◌||◌, not, some, List, [], ◌∷◌, if◌then◌else◌, ℤ,
}
use kafka_fdb_streamline.Exec.{Result, ok, err}
use kafka_fdb_streamline.World.{RdCall, Callback, delivery_report, RdReply, FdbCall, Event, Trace}

-- `taken`: a reply was consumed. `lost`: part of it was refused, aborted or purged. `delivered`: Kafka
-- has confirmed it. `durable`: its cursor is saved.
pub data Phase : Type 0 where
  idle taken lost delivered durable : Phase

-- `failed`: a delivery report has told of a failure. `safe`: no acknowledgement was out of turn.
pub record Status : Type 0 where
  pub phase : Phase
  pub failed : Bool
  pub safe : Bool

abbrev pub initial : Status
initial = record { phase = idle; failed = false; safe = true }

abbrev pub reports_failure : List Callback → Bool
reports_failure [] = false
reports_failure (delivery_report (some _) ∷ _) = true
reports_failure (_ ∷ rest) = reports_failure rest

abbrev pub is_ok {ℓ} : {A : Type ℓ} → Result A → Bool
is_ok (ok _) = true
is_ok (err _) = false

-- A flush that leaves nothing in the queue.
abbrev pub drained : Result ℕ → Bool
drained (ok zero) = true
drained (ok (suc _)) = false
drained (err _) = false

-- Only a reply that was taken changes hands.
abbrev pub leave_taken : Phase → Phase → Phase
leave_taken taken next = next
leave_taken idle _ = idle
leave_taken lost _ = lost
leave_taken delivered _ = delivered
leave_taken durable _ = durable

abbrev pub leave_delivered : Phase → Phase
leave_delivered delivered = durable
leave_delivered idle = idle
leave_delivered taken = taken
leave_delivered lost = lost
leave_delivered durable = durable

-- A record that is produced has yet to be confirmed.
abbrev reopen : Phase → Phase
reopen idle = idle
reopen lost = lost
reopen taken = taken
reopen delivered = taken
reopen durable = taken

abbrev pub is_durable : Phase → Bool
is_durable durable = true
is_durable idle = false
is_durable taken = false
is_durable lost = false
is_durable delivered = false

-- The phase after a librdkafka call. Outside transactions a flush confirms delivery, if it leaves
-- nothing and no report tells of a failure.
abbrev pub kafka_phase : Bool → Bool → RdCall → Result ℕ → Phase → Phase
kafka_phase transactional failed RdCall.rd_commit outcome p =
    if is_ok outcome then leave_taken p delivered else p
kafka_phase transactional failed RdCall.rd_flush outcome p =
    if not transactional && not failed && drained outcome then leave_taken p delivered else p
kafka_phase transactional failed (RdCall.rd_produce topic key payload) outcome p =
    if is_ok outcome then reopen p else leave_taken p lost
kafka_phase transactional failed RdCall.rd_abort outcome p =
    if is_ok outcome then leave_taken p lost else p
kafka_phase transactional failed RdCall.rd_purge outcome p = leave_taken p lost
kafka_phase transactional failed RdCall.rd_init_transactions outcome p = p
kafka_phase transactional failed RdCall.rd_begin outcome p = p
kafka_phase transactional failed RdCall.rd_poll outcome p = p
kafka_phase transactional failed RdCall.rd_len outcome p = p

abbrev pub fdb_phase : FdbCall → Result ℤ → Phase → Phase
fdb_phase (FdbCall.fdb_resume_consumer cursor) outcome p = if is_ok outcome then durable else p
fdb_phase _ outcome p = p

abbrev pub on_kafka : Bool → RdCall → RdReply → Status → Status
on_kafka transactional call reply s =
    let failed = s.failed || reports_failure reply.callbacks in
    record s {
      phase = kafka_phase transactional failed call reply.outcome s.phase;
      failed = failed;
    }

abbrev pub advance : Bool → Event → Status → Status
advance transactional (Event.kafka call reply) s = on_kafka transactional call reply s
advance transactional (Event.consumed reply) s = record s {
  phase = if is_ok reply.outcome then taken else s.phase;
}
advance transactional (Event.checkpoint_saved cursor outcome) s = record s {
  phase = if is_ok outcome then leave_delivered s.phase else s.phase;
}
advance transactional (Event.acknowledged reply) s = record s {
  phase = if is_ok reply.outcome then idle else s.phase;
  safe = s.safe && is_durable s.phase;
}
advance transactional (Event.fdb call outcome) s = record s {
  phase = fdb_phase call outcome s.phase;
}
advance transactional (Event.position_read outcome) s = s
advance transactional (Event.clock_read now) s = s
advance transactional (Event.monotonic_read now) s = s
advance transactional (Event.slept ticks) s = s
advance transactional Event.consumer_closed s = s

-- The status after a trace, whose latest event stands first.
abbrev pub status : Bool → Trace → Status
status transactional [] = initial
status transactional (event ∷ trace) = advance transactional event (status transactional trace)
