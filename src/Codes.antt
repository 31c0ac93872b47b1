-- ===== src/Codes.antt =====
-- internal/platform/id/code.go: the check digit of merchant, customer and account numbers, and their
-- form. A code is the list of its bytes.
pub mod Luhn
pub mod Allocator
pub mod Provider
