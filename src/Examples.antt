-- ===== src/Examples.antt =====
-- The theorems at concrete inputs.
pub mod Clock
pub mod Event
pub mod Fifo
pub mod Ring
pub mod Queue
pub mod Pprof
pub mod Codes
pub mod Bytes
pub mod Recorder
pub mod Records
pub mod Snapshot
pub mod Calls
pub mod Exports
pub mod Dumps
pub mod Python
pub mod Files
pub mod Pipeline
pub mod Loop
pub mod Tool
pub mod Runs
