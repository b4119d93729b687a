-- ===== src/Commands.antt =====
-- The commands beside the server: cmd/codepeer/sync.go, cmd/codepeer/check.go and cmd/eval/main.go. What they print
-- is a list of lines or of numbers; the clients that they call are given by their answers.
pub mod Sync
pub mod Check
pub mod Score
