-- ===== src/Posting.antt =====
-- internal/posting: what is written to GitHub.
pub mod Output
pub mod Markdown
pub mod World
pub mod Review
pub mod Trace
pub mod Push
pub mod Approve
