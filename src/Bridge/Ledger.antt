-- ===== src/Bridge/Ledger.antt =====
-- What must have happened before a native acknowledgement and before a save of the cursor, read off the
-- calls that leave the program: each record of the reply was handed to librdkafka, and the cursor saved
-- is the position that the binding gave last.
pub mod Calls
pub mod Poll
pub mod Steps
pub mod Finish
pub mod Session
pub mod Process
use kafka_fdb_streamline.Common.{
  ℕ, Bool, true, Option, none, some, List, [], ◌∷◌, if◌then◌else◌, ℤ, ◌≡◌, ◌⊎◌, All,
}
use kafka_fdb_streamline.Exec.{Result, ok, err}
use kafka_fdb_streamline.Serialization.Model.{Bytes}
use kafka_fdb_streamline.Serialization.Message.{FdbMutationRecord, Protobuf}
use kafka_fdb_streamline.World.{
  RdCall, RdReply, FdbCall, Cursor, NativeReply, Event, Trace, Listener,
}
use kafka_fdb_streamline.Cdc.Listener.{records_of}
use kafka_fdb_streamline.Bridge.Monitor.{is_ok}

abbrev pub after_consume : Result NativeReply → Option NativeReply → Option NativeReply
after_consume (ok reply) before = some reply
after_consume (err e) before = before

abbrev pub after_fdb : FdbCall → Result ℤ → Option NativeReply → Option NativeReply
after_fdb (FdbCall.fdb_resume_consumer cursor) outcome before =
    if is_ok outcome then none else before
after_fdb _ outcome before = before

-- The reply that the program took last; a resumed consumer has given none.
abbrev pub taken_reply : Trace → Option NativeReply
taken_reply [] = none
taken_reply (Event.consumed reply ∷ trace) = after_consume reply.outcome (taken_reply trace)
taken_reply (Event.fdb call outcome ∷ trace) = after_fdb call outcome (taken_reply trace)
taken_reply (_ ∷ trace) = taken_reply trace

abbrev pub Accepts : Bytes → RdCall → RdReply → Type 0
Accepts payload (RdCall.rd_produce topic key content) reply =
    (content ≡ payload) × (is_ok reply.outcome ≡ true)
Accepts payload _ reply = ⊥

-- librdkafka accepted the payload since the reply was taken.
abbrev pub IsSent : Bytes → Trace → Type 0
IsSent payload [] = ⊥
IsSent payload (Event.kafka call reply ∷ trace) = Accepts payload call reply ⊎ IsSent payload trace
IsSent payload (Event.consumed reply ∷ trace) =
    if is_ok reply.outcome then ⊥ else IsSent payload trace
IsSent payload (_ ∷ trace) = IsSent payload trace

-- Every record that the listener makes of the reply was sent.
abbrev pub IsPublishedOf : Protobuf → Option NativeReply → Trace → Type 0
IsPublishedOf pb none trace = Unit
IsPublishedOf pb (some reply) trace =
    (l : Listener) × (timestamp_ns : ℕ) × (records : List FdbMutationRecord) × (records_of pb l
        timestamp_ns reply
      ≡ ok records)
    × All (λ (r : FdbMutationRecord). IsSent (pb.serialize r) trace) records

abbrev pub IsPublished : Protobuf → Trace → Type 0
IsPublished pb trace = IsPublishedOf pb (taken_reply trace) trace

abbrev pub IsLastRead : Option Cursor → Trace → Type 0
IsLastRead cursor [] = ⊥
IsLastRead cursor (Event.position_read outcome ∷ trace) = outcome ≡ ok cursor
IsLastRead cursor (_ ∷ trace) = IsLastRead cursor trace

-- At each native acknowledgement the reply was published, and each saved cursor was the last position.
abbrev pub Publishes : Protobuf → Trace → Type 0
Publishes pb [] = Unit
Publishes pb (Event.acknowledged reply ∷ trace) = IsPublished pb trace × Publishes pb trace
Publishes pb (Event.checkpoint_saved cursor outcome ∷ trace) =
    IsLastRead cursor trace × Publishes pb trace
Publishes pb (_ ∷ trace) = Publishes pb trace
