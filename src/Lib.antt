-- ===== src/Lib.antt =====
-- trace0 is a tracer for Python programs, written in Rust (crates/). Threads record packed events with
-- ticks of a counter; a background thread drains them, keeps them in a ring of batches or hands them
-- to an exporter, and assembles dumps of the recent past.
--
-- The parts, and the files that model them:
-- - Clock: crates/core/src/clock.rs. Ticks and nanoseconds. `Quanta` stands for the third-party clock,
--   with its conversion as a field; a reading of the counter is an argument.
-- - Event: crates/core/src/event.rs. Kinds of event, packed words, exported events.
-- - Batch: `EventBatch` of crates/core/src/evqueue.rs.
-- - Ring: crates/core/src/ring.rs. Batches in order of arrival, with eviction by bytes, a floor, and a
--   horizon. Ring/Evict has the relation that the eviction loop runs through, Ring/Push what the
--   operations do.
-- - Spsc: the interface of the third-party crate `rtrb`, a bounded ring between two threads, with the
--   laws that its documentation states.
-- - Tls: the per-thread state of crates/core/src/tls.rs. A pointer into the batch is an offset from the
--   start of its buffer. Tls/Recorders is the list of the threads that record, Tls/Tails the reading of
--   another thread's batch, by what each of its tries loads.
-- - Queue: `EventQueue` of crates/core/src/evqueue.rs, and `Cold::flush_partial` of tls.rs. A queue
--   holds the rings; a thread's producer is an index into them. Queue/Entries is the abstract view: a
--   queue holds a list of entries with absolute ticks. Queue/Drain has `drain_batches`, Queue/Flush
--   `flush_every_thread` of tls.rs, and Queue/Tails what a read of a batch gives.
-- - Snapshot: crates/core/src/snapshot.rs. Batches are grouped by thread, each stream is replayed with
--   a stack of open frames, and the rows are sorted by ticks. Snapshot/Frames tells without a stack
--   what a stream leaves open and what is shown of it.
-- - Codecache: crates/core/src/codecache.rs. A direct-mapped table from code addresses to ids.
-- - Sink: crates/core/src/sink.rs. What is known of a code object, and a table of it;
--   Sink/Threads has the names of threads.
-- - Intern: crates/py/src/intern.rs. Ids for code objects, with recycling. Intern/Live has `forget` and
--   the invariant, Intern/Fresh has `insert`.
-- - Json: crates/json/src/lib.rs. The numbers, strings and records of the exporter, as bytes;
--   Json/Exporter has its operations over a shared file, with the bytes of an entry that serde_json
--   writes as a parameter.
-- - Registry: crates/py/src/threads.rs. The names of the threads that have recorded.
-- - Monitoring: crates/py/src/monitoring.rs, from a callback of the interpreter to the queue: the id of
--   a code object by the thread's caches and the interner, then `push_with_ctx`. Monitoring/Tool has
--   `enable` and `disable`, over `Interpreter`, which states what the documentation of sys.monitoring
--   promises. Codewatch:
--   crates/py/src/codewatch.rs, the notice that a code object is freed, which changes the generation
--   that the caches are checked against.
-- - Output: crates/core/src/output.rs, a file that several processes append to. Output/Shared has the
--   steps of several writers.
-- - Format: crates/py/src/format.rs. Recording: crates/py/src/recording.rs, the stages of a snapshot
--   block (Recording/Block) and the names of dumps (Recording/Names). Tracer: the handlers of deadly
--   signals of crates/py/src/tracer.rs, the hooks around a fork (Tracer/Forks), and a run from `__enter__`
--   to `__exit__` (Tracer/Runs), where `Calls` says which calls into Python and the system go well. Cli:
--   crates/py/src/cli.rs, the target and its arguments.
-- - Varint: `Varint` of crates/proto/src/lib.rs. Proto: the exporter of that file. Proto/Action is the
--   state with its two failures, an error and a panic; Proto/Sequences, Proto/Templates and Proto/Batches
--   have the operations, and the other files of Proto what the operations do.
-- - Pprof: crates/pprof/src/lib.rs. Self times by stack; Pprof/Profile has the tables of `finish`.
-- - Recorder: crates/core/src/recorder.rs, the draining into the ring, the windows and the floors;
--   Recorder/Control has the messages, `handle` and `dump`, and the files beside it what they do. The
--   sinks and exporters are a parameter there, and what other threads do between two steps of a dump is
--   an argument, `Meanwhile`. Recorder/Loop is `run_recorder`, turn by turn, where a `Turn` has the
--   messages and what goes on meanwhile.
-- - Pipeline: crates/core/src/pipeline.rs, `Writer::drain`. Pipeline/Threads has the serializer and the
--   writer of `run_pipeline`, each as a function from one access to what they share to the next;
--   Pipeline/Runs has the runs that interleave them with the threads that record, and the files beside
--   it what holds in them. The exporter is a parameter, by its `write_batch` and its `finish`.
-- - Examples: the theorems at concrete inputs, and a list that fills the interface `Spsc`.
-- - Prelude: what the files share: tests on numbers, lists, saturating and wrapping words, bits.
--
-- Numbers are natural numbers. What is a `u32`, a `u64` or a `usize` in the source wraps, saturates or
-- is cut where the source does so, for a 64-bit target in a release build, where an overflowing sum
-- wraps. A panic, by `unwrap` or by an index, is `none`, but where a comment says otherwise.
--
-- Loops: `widen` doubles a span below 2 ^ 64 and has fuel 65; `bisect` halves an interval below 2 ^ 64
-- and has fuel 65. `push_digits` has the 20 places of its array, `varint_bytes` 10. A ring is drained
-- with one more step than the batches it holds. `absorb_all` has two rounds, `chunks` as many as the
-- events, and the serial numbers of a dump are those of a `u32`. Each is enough where a theorem says
-- that its function gives a result. The other loops go over lists.
--
-- Concurrency: an operation of a thread on its own state and its ring is one step. The memory orders
-- of the atomics and the sleeping of idle loops are not modelled. A try to read another thread's batch
-- is given by what it loads, and nothing is assumed of tries in which the thread moves.
--
-- Not modelled: of crates/py, the C functions that Python calls; the file system; the parsing of the
-- command line and the encoding of messages, by the third-party crates clap and prost.
pub mod Prelude
pub mod Clock
pub mod Event
pub mod Batch
pub mod Ring
pub mod Sink
pub mod Codecache
pub mod Spsc
pub mod Tls
pub mod Queue
pub mod Snapshot
pub mod Intern
pub mod Registry
pub mod Monitoring
pub mod Codewatch
pub mod Output
pub mod Format
pub mod Recording
pub mod Tracer
pub mod Cli
pub mod Json
pub mod Varint
pub mod Proto
pub mod Pprof
pub mod Recorder
pub mod Pipeline
pub mod Examples
