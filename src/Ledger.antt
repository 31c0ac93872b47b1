-- ===== src/Ledger.antt =====
-- internal/db/repository.go: the ledger's transactions over PostgreSQL.
-- `Ledger.Schema` has the tables, `Ledger.Query` the statements of internal/db/sqlc, `Ledger.Book`
-- the loops over the books of an account, `Ledger.Debit`, `Ledger.Credit` and `Ledger.Stage` the
-- functions that move money.
pub mod Schema
pub mod Query
pub mod Book
pub mod Credit
pub mod Parts
pub mod Debit
pub mod Stage
pub mod Money
