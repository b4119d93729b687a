-- ===== src/Tests.antt =====
-- The theorems at concrete inputs, and the inputs.
mod Data
mod Findings
mod Chunks
mod Gates
mod Finish
mod Agents
mod Config
mod Queue
mod Store
mod Diffs
mod Runs
mod Context
mod Passes
mod Webhook
mod Llm
mod Posting
mod Worker
mod Githubx
mod Environment
mod Codec
mod App
mod Commands
