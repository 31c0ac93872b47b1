-- ===== src/Tests.antt =====
-- Runs of the model on small data, and the theorems applied there.
mod Data
mod Ledger
mod Services
mod Codes
mod Books
mod Allocator
mod Async
mod Delivery
mod Enrolment
mod Codec
mod Http
mod Accepted
mod Composed
mod Recovery
