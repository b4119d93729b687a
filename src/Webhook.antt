-- ===== src/Webhook.antt =====
-- internal/httpapi/handler.go: the webhook receiver. JSON is a parameter: `Decoders` are the decoded
-- bodies, `encode` the payload of a job. `now` is the clock when a job is queued, `self` the login of the
-- app. A repository sync that a handler starts is an entry of `syncs`, run by `sync_repos`.
mod Events
pub mod Signature
pub mod Handlers
pub mod Receive
pub mod Once
pub use Events.*
