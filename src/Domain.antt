-- ===== src/Domain.antt =====
-- internal/domain/domain.go: the types that every package shares.
-- A Go `string` that the program only compares is a `String`; one that it walks or joins is a `Text`.
-- `Line` is a Go `int` and may be negative. Identifiers, issue numbers and counts that GitHub and
-- Postgres hand out are not negative and are native numbers.
mod Review
mod Config
mod Records
mod Payloads
pub use Review.*
pub use Config.*
pub use Records.*
pub use Payloads.*
