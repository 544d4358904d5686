-- ===== src/World.antt =====
-- What the program's objects keep (the fields of MutationProducer, FDBMutationListener and
-- BridgePipeline) and the calls that leave the program: librdkafka, the FoundationDB binding, the
-- checkpoint callback and the clock. Each such call and what came back is an event of the trace, and
-- the environment answers as it likes from the trace so far.
mod Calls
mod State
pub use Calls.*
pub use State.*
