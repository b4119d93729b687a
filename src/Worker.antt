-- ===== src/Worker.antt =====
-- cmd/codepeer/main.go: the worker, which takes jobs from the queue, runs their passes and posts them.
pub mod Dispatch
pub mod Process
