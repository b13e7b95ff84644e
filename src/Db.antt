-- ===== src/Db.antt =====
-- db/: change events, the change log and its publisher, and the replication of events.
pub mod Event
pub mod Store
pub mod Catalog
pub mod Tables
pub mod Cdc
pub mod Restore
pub mod Backup
pub mod ChangeLog
pub mod Replicate
pub mod Cleanup
pub mod Watch
pub mod Rows
pub mod Open
