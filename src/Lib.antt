-- ===== src/Lib.antt =====
-- Marmot replicates SQLite databases between nodes: triggers record each change of a table in a change
-- log, one node publishes the recorded changes to sharded JetStream streams, and every node listens to
-- the streams and writes what others have published into its own database.
--
-- The parts of the program, and the files that model them:
--   cfg/config.go: Cfg. The records, the defaults, `init` and `Load`.
--   logstream/replication_state.go: LogStream/State. The sequence map, its file, `init`, `save`, `get`;
--     State/Get and State/Durable prove what they do in memory and over a restart.
--   logstream/replicator.go: LogStream/Names (`streamName`, `subjectName`), LogStream/Publish (`Publish`),
--     LogStream/Listen (`Listen`, `invokeListener`); the files below each hold the proofs.
--     LogStream/Streams (the loop of `NewReplicator`), LogStream/Snapshots (`RestoreSnapshot`,
--     `SaveSnapshot`).
--   logstream/replicator_meta_store.go: LogStream/Lease. `AcquireLease` in two parts, between which other
--     nodes act, over a key-value store with the history of a key. LogStream/Setup: its bucket, and
--     `ReloadCertificates`.
--   db/change_log_event.go: Db/Event (`Wrap`, `Unwrap`, `Hash`).
--   db/change_log.go, db/table_change_log_script.tmpl: Db/Store (the tables) and Db/ChangeLog (the
--     triggers as `capture`, and `publishChangeLog` with all that it calls),
--     Db/Watch (`watchChanges`), Db/Cleanup (`CleanupChangeLogs`), Db/Replicate (`Replicate`, over an
--     engine with laws for its two statements).
--   db/sqlite.go, db/cleanup.go: Db/Catalog (the schema and the statements on it), Db/Tables
--     (`getTableInfo`, `listDBTables`), Db/Cdc (`InstallCDC`, `RemoveCDC`), Db/Backup (`BackupTo`, on the
--     schemas of files), Db/Restore (`RestoreFrom`, on the files' bytes),
--     Db/Open (`OpenStreamDB`). db/utils.go: Db/Rows (`fetchRow`).
--   snapshot/: Storage (the contract of a storage), Storage/Nats, Storage/S3, Storage/Sftp, Storage/WebDav,
--     Storage/Select (`NewSnapshotStorage`), Snapshot (`SaveSnapshot`, `RestoreSnapshot`, `cleanupDir`),
--     over Disk, the functions of `os` that they use.
--   stream/: Stream/Connect (`Connect`), Stream/Embedded (the embedded server), Stream/Routes (the
--     discovery of routes).
--   utils/timeout.go: Timer. utils/state_context.go: Context. telemetry/telemetry.go: Telemetry.
--   core/events.go, logstream/replication_event.go: Wire (`Marshal`, `Unmarshal`).
--   marmot.go: Start (`main` before its loop), Handlers (`onTableChanged`, `onChangeEvent`), MainLoop (the
--     loop of `main`; MainLoop/Node puts the replicator into it).
--   pool/connection_pool.go: Pool (`NewSQLitePool`, `Borrow`, `Dispose`).
--   Base has the shared types: results, actions on a state, maps, integers, numerals, paths, the FNV hash.
--   Tests runs the theorems at small inputs.
--
-- How the parts meet: `publish_change_log` hands each event to the callback `on_change`, in the program
-- `on_table_changed`, which marshals and hashes the event and calls `publish`; `listen` hands each payload
-- to its callback, in the program `on_change_event`, which unmarshals and replicates it; `publish` and
-- `listen` share the sequence map. Handlers/Pipeline puts the sending half together, from the change log
-- through `watch_changes` to the streams, and Handlers/Delivery the last step of the receiving half.
--
-- Shared state is passed explicitly. A call into a library, to the disk or to the database may fail, and
-- the faults are inputs: a list of faults in `Store`, `SaveFaults` of a `save`, fields of a `Message`. The
-- locks of the program are not modelled but for `publishLock` and that of a snapshot: an operation runs as
-- one step, and what another goroutine does in between is a turn of its own (`elsewhere` in
-- LogStream/Listen, `writes` in Db/Watch).
--
-- The retry loop of `invokeListener` runs on the seven rounds of `maxReplicateRetries`, that of
-- `cleanupDir` on five. The loops that wait for a server, in Storage/Nats, Db/Restore, Stream/Routes and
-- Stream/Embedded, run on rounds that are given, and have no result when they would go on; each has a
-- lemma that it ends once the server answers within the rounds. `watchChanges` has no end, and runs on the
-- turns that its channels give. All other loops are structural over what
-- is scanned or delivered. Sequence numbers and ids are natural numbers: the
-- program takes them from JetStream and SQLite, and only compares them. The number of replicas that is
-- computed from the shards wraps as an `int` does.
--
-- The CBOR codecs, zstd, the stream client, the key-value store, the SQL engine of the replicated tables
-- and the callbacks are parameters, where a theorem needs them with the laws that their documentation
-- gives. The change logs are modelled as tables of rows, since their statements stand in the source.
-- The client libraries of the storages, of NATS and its server, and what SQLite does to the files of a
-- database are parameters too. LIKE is one, with a law for a pattern that ends in a percent sign.
-- Not modelled: the parts of `NewReplicator` that put the rest together, and the texts of the scripts, for
-- which their statements stand.
-- Logging is left out, and so are the other parts' calls of the metrics, but for the counters of published
-- and pending changes.
pub mod Base
pub mod Cfg
pub mod LogStream
pub mod Db
pub mod Context
pub mod Disk
pub mod Handlers
pub mod MainLoop
pub mod Pool
pub mod Snapshot
pub mod Start
pub mod Storage
pub mod Stream
pub mod Telemetry
pub mod Tests
pub mod Timer
pub mod Wire
