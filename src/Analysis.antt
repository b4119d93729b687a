-- ===== src/Analysis.antt =====
-- internal/analysis: one analysis pass, from the changed files of a diff to the findings to post.
pub mod Findings
pub mod Caps
pub mod Diff
pub mod Chunk
pub mod Gates
pub mod Finish
pub mod Agents
pub mod Runs
pub mod Context
pub mod Pass
pub mod Push
