-- ===== src/Db.antt =====
-- The PostgreSQL tables that the backend reads and writes, and the way a statement runs.
-- Rows are those of src/models/ with the columns that only SQL touches (migrations/*.sql). A table
-- is the list of its rows. A `Turn` is what the server and the other connections do at one
-- statement: the time of NOW(), the value of gen_random_uuid(), whether the statement is refused
-- (sqlx::Error), and what other connections commit before it.
pub mod Models
pub mod Session
pub mod Transactions
pub mod Inversion
pub mod Reminders
pub mod Contracts
pub mod Dashboard
pub mod Details
pub mod Users
pub mod Sessions
pub mod Preservation
