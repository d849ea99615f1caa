-- ===== src/Db.antt =====
-- db: SQL repositories over goqu, which builds queries, and sqlx, which runs them. Both are
-- parameters, in Db/Driver.
pub mod Driver
pub mod Client
pub mod Pgsql
pub mod Clickhouse
pub mod Open
pub mod Registry
pub mod Functions
pub mod Repository
pub mod Tx
pub mod Interface
pub mod Instances
pub mod Table
pub mod Meaning
pub mod Database
pub mod Writes
pub mod Reads
pub mod Same
pub mod Contract
pub mod Calls
pub mod Counted
pub mod Isolated
