-- ===== src/Db.antt =====
-- The database: the rows of app/domain/*/model.py, the statements of SQL, and transactions.
pub mod Rows
pub mod Empty
pub mod Sql
pub mod Action
pub mod Counters
pub mod Found
pub mod Tally
pub mod Links
pub mod Keyset
pub mod Walk
pub mod Ascending
