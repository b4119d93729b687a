-- ===== src/Domain/Payloads.antt =====
-- internal/domain/domain.go: the payloads of queue jobs. Each record is the Go struct that its JSON
-- encodes; `Payload` is a payload with the kind that says which struct it is.
use arcticworks_codepeer.Base.{ℕ, String}
use arcticworks_codepeer.Base.Text.{Text}

pub record AnalyzePrPayload : Type 0 where
  pub installation_id : ℕ
  pub repo_id : ℕ
  pub repo_owner : String
  pub repo_name : String
  pub pr_number : ℕ
  pub head_sha : String
  pub action : String
  pub sender_login : String

pub record AnalyzePushPayload : Type 0 where
  pub installation_id : ℕ
  pub repo_id : ℕ
  pub repo_owner : String
  pub repo_name : String
  pub before : String
  pub after : String
  pub ref : Text
  pub sender_login : String

pub record FeedbackPayload : Type 0 where
  pub installation_id : ℕ
  pub repo_id : ℕ
  pub repo_owner : String
  pub repo_name : String
  pub pr_number : ℕ

pub record ClosePrIssuesPayload : Type 0 where
  pub installation_id : ℕ
  pub repo_id : ℕ
  pub repo_owner : String
  pub repo_name : String
  pub pr_number : ℕ

pub record IssueCommandPayload : Type 0 where
  pub installation_id : ℕ
  pub repo_id : ℕ
  pub repo_owner : String
  pub repo_name : String
  pub issue_number : ℕ
  pub command : Text
  pub sender_login : String

pub data Payload : Type 0 where
  analyze_pr : AnalyzePrPayload → Payload
  analyze_push : AnalyzePushPayload → Payload
  feedback : FeedbackPayload → Payload
  close_pr_issues : ClosePrIssuesPayload → Payload
  issue_command : IssueCommandPayload → Payload
