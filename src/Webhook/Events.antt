-- ===== src/Webhook/Events.antt =====
-- internal/httpapi/handler.go: the decoded events, the fields that the handlers read.
use arcticworks_codepeer.Base.{ℕ, String, Bool, Option, List}
use arcticworks_codepeer.Base.Text.{Text}
use arcticworks_codepeer.Domain.{Payload}
use arcticworks_codepeer.Store.{Store}
use arcticworks_codepeer.Queue.{Jobs}

pub record EventEnvelope : Type 0 where
  pub action : String
  pub repository_id : ℕ
  pub repository_owner : String
  pub repository_name : String
  pub sender_login : String
  pub installation_id : ℕ

pub record PullRequestEvent : Type 0 where
  pub envelope : EventEnvelope
  pub number : ℕ
  pub pr_number : ℕ
  pub merged : Bool
  pub head_sha : String

pub record PushEvent : Type 0 where
  pub envelope : EventEnvelope
  pub ref : Text
  pub before : String
  pub after : String
  pub deleted : Bool

pub record InstallationEvent : Type 0 where
  pub action : String
  pub installation_id : ℕ
  pub account_id : ℕ
  pub account_login : String
  pub account_type : String

-- `on_pull_request` says that the issue is a pull request: its field `pull_request` is not nil.
pub record IssueCommentEvent : Type 0 where
  pub envelope : EventEnvelope
  pub body : Text
  pub issue_number : ℕ
  pub on_pull_request : Bool

pub record RepoRef : Type 0 where
  pub id : ℕ
  pub name : String
  pub default_branch : String
  pub owner_login : String

pub record InstallationReposEvent : Type 0 where
  pub installation_id : ℕ
  pub added : List RepoRef

-- json.Unmarshal for each event, and json.Marshal for a payload.
pub record Json : Type 0 where
  pub pull_request : Text → Option PullRequestEvent
  pub push : Text → Option PushEvent
  pub installation : Text → Option InstallationEvent
  pub installation_repos : Text → Option InstallationReposEvent
  pub issue_comment : Text → Option IssueCommentEvent
  pub encode : Payload → Text

-- What the handlers change: the database, its jobs table, and the syncs that they start.
pub record Server : Type 0 where
  pub store : Store
  pub jobs : Jobs
  pub syncs : List ℕ
