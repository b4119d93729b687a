-- ===== src/Githubx.antt =====
-- internal/githubx: the client of GitHub's API. The library go-github is a parameter: the answer of each
-- of its calls.
pub mod Retry
pub mod Pages
pub mod Client
pub mod Payload
pub mod Served
pub mod Attempts
pub mod Auth
pub mod Operations
pub mod Gitdata
pub mod Install
