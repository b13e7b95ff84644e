-- ===== src/Tests.antt =====
-- Concrete runs: each theorem that has hypotheses, at an input where they hold.
mod SeqMapCodec
mod LogStream
mod Db
mod Replicate
mod Lease
mod Streams
mod Wire
mod Watch
mod Pipeline
mod Storage
mod Main
mod Cdc
mod Snapshot
mod Pool
