-- ===== src/Lib.antt =====
-- Kafka-FDB-Streamline: the bridge that moves FoundationDB change-data-capture mutations to Kafka.
--
-- The program (Python, package src/fdb_kafka_bridge) polls a native CDC consumer for a reply of version
-- groups, writes each group as protobuf records within a size budget, produces the records to Kafka,
-- saves the consumer's cursor and acknowledges the reply to FoundationDB. Its parts and their files:
--
-- The package serialization is Serialization. Checks models _checks.py, Wire _wire.py, Serializer
-- serializer.py, VersionGroup version_group.py, Deserializer deserializer.py, Model model.py, and Message
-- the messages of protobuf/proto/fdbkafka/cdc/v1/mutations.proto; the other modules below it hold proofs.
-- A Python function keeps its name without a leading underscore; a function that raises gives a value of
-- Checked. A Python value is a Value, which tells apart what the checks tell apart; an attribute that a
-- native mutation does not have is `none`.
--
-- The file kafka/producer.py is Kafka: Producer has the methods of MutationProducer, Settings its
-- constructor, Faults the tests on a KafkaError. The file cdc/client.py is Cdc.Client, with the module's
-- functions and the methods of FDBClient. The file cdc/listener.py is Cdc.Listener, with the methods of
-- FDBMutationListener, Cdc.Construct, its constructor, and Cdc.KeyRange, strinc and subspace_to_key_range.
--
-- The file bridge/config.py is Bridge.Config: from_dict and the configuration classes. The file
-- bridge/pipeline.py is Bridge.Pipeline, the class BridgePipeline, with Bridge.Construct, its constructor;
-- Bridge.CursorFile, the save and the load of the cursor; and Bridge.Daemon, the class Bridge: Create is
-- its constructor, Build has start, the builds and rebuilds of the pipeline and the counting listener, Run
-- the loop, Stop the shutdown. Bridge.Monitor is the delivery contract, written on the calls that leave
-- the program and not on the flags of the classes: the order of confirmation, save and acknowledgement.
-- Bridge.Ledger is its other half: that the records made of the reply, all of them, were handed to
-- librdkafka, and that the saved cursor is the position read last. Bridge.Sound and the modules below
-- Bridge.Ledger relate the two to the flags, and Bridge.Daemon.Sound and Bridge.Daemon.Orderly carry them
-- over to the bridge; Bridge.Daemon.Factory has the default of its producer factory. World has the
-- attributes of the four objects and the calls out of the program, Common, Errors and Exec are shared, and
-- Examples has concrete runs.
--
-- The file demo/workload.py is Demo.Workload, the expected mutations, and Demo.Workload.Verifier. The file
-- demo/run_demo.py is Demo.Config, its configuration, Demo.Writer, the transactions that it commits,
-- Demo.Consumer, the loop that reads the topic, and Demo.Runner, the checks around them. What FoundationDB
-- makes of the writes is a parameter, and Demo.Native.IsNative states what the demo relies on: the
-- rewrites that demo/workload.py documents.
--
-- Methods are state passing with exceptions (Exec): a method takes the World, the attributes of the four
-- objects and the trace of calls so far, and gives a value or an exception beside the new World. A call
-- of librdkafka, of the FoundationDB binding, of the checkpoint callback or of the clock asks the Env,
-- which answers as it likes from the trace, and is added to the trace. The Env is a parameter of every
-- method, and so is the protobuf runtime (Protobuf) of the serializers. A librdkafka call may run delivery
-- reports and error callbacks, and during a native wait another thread may close the listener.
--
-- The bridge has a state of its own (Daemon), which holds the World of its current objects. Each build of a
-- pipeline begins a generation: a World with an empty trace and an Env of its own, while the Worlds before
-- are kept. A run is watched for a list of turns, which say before which turn a shutdown was requested. The
-- calls of the file system in a save of the cursor are a trace too, and CursorFile.Disk says what each
-- leaves on the disk, and what of it a crash may take. A checked constructor or parser without state is a
-- chain of Results (Exec.Outcome).
--
-- Bounds and fuel. The retry loops recurse on the number of attempts that the code is given. The wait for
-- the read version in a resume has fuel `timeout + 2`: each round but the last sleeps a tick at least,
-- where the poll interval is not shorter than a tick, so that a clock that advances by what is slept
-- passes the deadline first; a wait that runs out of fuel counts as timed out. The loop of a stop that
-- retries a commit has fuel 2, and more changes nothing. `int.bit_length` halves as often as the number
-- itself at most. Integers are unbounded, as in Python; the limits of the wire are those of model.py.
--
-- Not modelled: the arguments, threads, clean-up and prints of demo/run_demo.py; scripts and generated
-- code; the waits between turns and attempts, timeouts of librdkafka calls, logging and the texts of
-- messages; a stop beside a step that still runs, but for the closing of the listener; the JSON text of
-- the cursor file. The checkpoint callback answers through the Env, and its save is stated on its own.
pub mod Bridge
pub mod Cdc
pub mod Common
pub mod Demo
pub mod Errors
pub mod Examples
pub mod Exec
pub mod Kafka
pub mod Serialization
pub mod World
