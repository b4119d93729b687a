-- ===== src/Domain/Records.antt =====
-- internal/domain/domain.go: what the store keeps of runs, findings and issues, and queue jobs.
use arcticworks_codepeer.Base.{ℕ, String, ℤ, Bool, Option, List}
use arcticworks_codepeer.Base.Text.{Text}
use arcticworks_codepeer.Domain.Review.{Suggestion, ReviewResult}

-- `CreatedAt` is never read by the program and is left out.
pub record AnalysisRun : Type 0 where
  pub id : ℕ
  pub repo_id : ℕ
  pub kind : String
  pub input_sha : String
  pub pr_number : ℕ
  pub status : String
  pub result : Option ReviewResult
  pub error : Text

pub record FindingRecord : Type 0 where
  pub id : ℕ
  pub run_id : ℕ
  pub finding_id : String
  pub file : Text
  pub line : ℤ
  pub severity : String
  pub category : String
  pub title : Text
  pub body : Text
  pub suggestion : Option Suggestion
  pub confidence : ℤ
  pub actionable : Bool
  pub dedupe_hash : String
  pub comment_id : ℕ
  pub issue_number : ℕ

pub record IssueRecord : Type 0 where
  pub id : ℕ
  pub repo_id : ℕ
  pub number : ℕ
  pub title : Text
  pub kind : String
  pub pr_number : ℕ
  pub finding_ids : List String
  pub status : String
  pub fix_pr_number : ℕ

pub data JobStatus : Type 0 where
  pending running done failed : JobStatus

-- The kinds of a queue job are their names, since the worker refuses a name that it does not know.
abbrev pub job_analyze_pr : String
job_analyze_pr = "analyze_pr"

abbrev pub job_analyze_push : String
job_analyze_push = "analyze_push"

abbrev pub job_feedback : String
job_feedback = "feedback_sweep"

abbrev pub job_issue_close : String
job_issue_close = "close_pr_issues"

abbrev pub job_issue_cmd : String
job_issue_cmd = "issue_command"

-- An inline review comment. `StartLine` and `StartSide` are never set by the program.
pub record InlineComment : Type 0 where
  pub path : Text
  pub body : Text
  pub line : ℤ
  pub side : String

pub record Annotation : Type 0 where
  pub path : Text
  pub start_line : ℤ
  pub end_line : ℤ
  pub level : String
  pub message : Text
  pub title : Text

pub record Reaction : Type 0 where
  pub user : String
  pub content : String

-- A value of the detail of an audit entry.
pub data AuditValue : Type 0 where
  number : ℕ → AuditValue
  text : Text → AuditValue

-- `detail` is the map from keys to values.
pub record AuditEntry : Type 0 where
  pub event : String
  pub action : String
  pub repo_id : ℕ
  pub kind : String
  pub detail : List (String × AuditValue)
