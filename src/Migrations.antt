-- ===== src/Migrations.antt =====
-- db/migrations: migration records, the sources that they come from, and the manager of
-- provider/pgsql/migrations.go that applies them.
pub mod Record
pub mod Source
pub mod Manager
pub mod Progress
pub mod Opening
