-- ===== src/LogStream.antt =====
-- logstream/: the sequence map, the streams' names, the replicator's `Publish` and `Listen`.
pub mod Setup
pub mod State
pub mod Names
pub mod Replicator
pub mod Publish
pub mod Listen
pub mod Lease
pub mod Snapshots
pub mod Streams
