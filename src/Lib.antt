-- ===== src/Lib.antt =====
-- A library about xmz-ai/coin, a ledger of credits: accounts with capabilities and an overdraft,
-- transfers and refunds between them in two stages, and accounts whose credit lies in books that
-- expire one by one. Paths are from the repository's root.
--
-- The parts, and how they interact. A service checks a request and writes a transaction's row
-- with status INIT; the repository then applies the two stages of the row, each in one database
-- transaction: the debit (INIT to PAY_SUCCESS) and the credit (PAY_SUCCESS to RECV_SUCCESS, with
-- an event for the merchant's webhook). The HTTP handlers check what a merchant sends, find its
-- parties, have a service write the row and tell the asynchronous processor of it. A debit of an
-- account with books first writes off its expired books to the merchant's write-off account, and
-- then takes from the books in the order of their expiry. A refund takes its amount from what its
-- origin can still refund, and credits books anew along the origin's debits. The asynchronous
-- processor drives the stages: a queue for each stage spreads the transactions over workers, a
-- guard lets one worker at a time process a stage of a transaction, and a stage that fails for
-- good fails the transaction; the recovery worker offers the queues again what has stayed in a
-- status. The webhook worker claims the events that settled transactions have left, and delivers
-- each or tries it again. The allocator leases ranges of sequence numbers from the database and
-- makes codes of them.
--
-- The files:
-- - Domain, Domain/Account, Domain/Error, Domain/StateMachine: internal/domain. `can_debit` is
--   CanDebit, `transit` is Transit, and so on; an `error` is an `Option Error`.
-- - Codes, Codes/Luhn: the check digit of internal/platform/id/code.go. A code is its bytes.
--   Codes/Allocator: the segments and buckets of db_code_provider.go in the same folder, with
--   LeaseRange; Codes/Allocator/Steps: nextSeq and renewAsync as the steps of goroutines
--   (`Move`); Codes/Provider: what the providers of both files make of a sequence number.
-- - Transfer: internal/service/transfer_service.go over `Repository`, the part of the interface
--   of internal/service/repository.go that it asks; Transfer/Routing: transfer_routing.go and
--   account_resolver.go of the same folder.
-- - Ledger/Schema: the tables, and `Tx`, a database transaction: what a statement has written
--   stays written when a later one fails, until the caller rolls back.
-- - Ledger/Query: the statements of internal/db/sqlc/queries.sql.go, by their SQL text.
-- - Ledger/Book: the loops over books of internal/db/repository.go, free of the database;
--   Ledger/Credit, Ledger/Parts and Ledger/Debit: what credits and debits an account there;
--   Ledger/Stage: ApplyTxnStage, and Ledger/Stage/Split the four functions for one stage each.
-- - Async: the stage queue of internal/service/txn_async_processor.go, with the steps of its
--   workers; Async/Processor: how the processor takes a transaction through its stages;
--   Async/Guard: processing_guard_memory.go of the same folder.
-- - Webhook: internal/service/webhook_worker.go, over the statements of Ledger/Query/Events;
--   Webhook/Claim: the claims and marks of several workers as a sequence of calls (`after`).
-- - Recovery, Recovery/Compensation: transfer_recovery_worker.go and compensation_worker.go of
--   the same folder, with the lists of internal/db/repository.go that they ask for.
-- - Listing: ListTransferTxns of internal/db/repository.go with its statement; Listing/Logs: the
--   lists of change logs and books of that file; Listing/Service:
--   internal/service/txn_query_service.go; Listing/Token: internal/service/pagination_token.go,
--   the text of a page token as its bytes.
-- - ExpiryBook: internal/service/expiry_book.go, over what it asks of the repository (`Accounts`).
-- - Enrolment: CreateMerchant of internal/service/merchant_service.go, CreateCustomer and
--   EnsureCustomerAccountForCredit of customer_service.go, over `Registry`, the part of the
--   repository and of the providers of ids and codes that they ask.
-- - Http: the answers of handlers, an `Outcome` that a refusal ends early; Http/Services: what
--   the handlers ask, with the records of internal/domain/transaction.go and of
--   internal/service/txn_query_service.go; Http/Transactions: the fields of requests and their
--   tests, and Http/Transactions/Handlers handleCredit, handleDebit, handleTransfer and
--   handleRefund (`handle_credit` and so on), of internal/api/business.go;
--   Http/Transactions/Bodies and CreditAccount: what a body asks for, and which account a credit
--   goes to, said apart from the handlers; Http/Transactions/Composed: these handlers over
--   Transfer and Transfer/Routing (`composed`);
--   Http/Queries: the other handlers of that file; Http/Auth: the middleware of
--   internal/api/auth.go; Http/Admin: the tokens, the middleware, the login and the refresh of
--   internal/api/admin_auth.go.
-- - Base, Int, Text: the lists, options, integers and texts that the rest shares. An int64 is an
--   integer, and each sum of the source wraps around (Int/Word: `add64`, `sub64`, `neg64`).
-- - The modules below a part prove what holds of it, and Tests applies the theorems.
--
-- Bounds. Every loop of the source that is modelled is structural recursion, over a list or over
-- the attempts that are left; the loop of nextSeq, which waits for other goroutines, is a step of
-- a relation. Only the client that follows page tokens runs on fuel, and as many calls as there
-- are rows are enough for it. Go's time.Sub stops at 106751 days, which `diff_days` keeps. Sums
-- that PostgreSQL takes in a bigint column fail out of its range.
--
-- Taken from outside, in `Env`: the instants that the clock returns, the UUIDs of the generator,
-- the codes of new accounts. The text of a UUID is not parsed: a UUID is its number, and where a
-- service holds its text the reading and writing of it are arguments, as is the text of an error.
-- What one event finds outside, the merchant's server included, is `Outside`. SHA-256, HMAC,
-- bcrypt, and the parsing of times and UUIDs are arguments where they are used; JSON and base64
-- of tokens are those of a `Codec`. A request's body is what binding its JSON gives, or nothing.
--
-- Not modelled: the routes and pages of the administration, the router, the ids of requests and
-- the text of answers, configuration, commands, clients and the web console (input and output);
-- connections, lost commits and lock waits (each database transaction is one step); the guard in
-- Redis, profiling, timers and the channel in front of the webhook worker; and the HTTP request of a
-- delivery and its signature. A handler finds all that it is configured with.
pub mod Async
pub mod Base
pub mod Int
pub mod Text
pub mod Domain
pub mod Codes
pub mod Ledger
pub mod Transfer
pub mod Webhook
pub mod Listing
pub mod Enrolment
pub mod Http
pub mod Recovery
pub mod ExpiryBook
pub mod Tests
