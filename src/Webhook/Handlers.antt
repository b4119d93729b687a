-- ===== src/Webhook/Handlers.antt =====
-- internal/httpapi/handler.go: the handler of each event, and `dispatch`.
pub mod Effects
use arcticworks_codepeer.Base.{
  ℕ, String, Bool, true, false, not, ◌&&◌, ◌||◌, Option, none, some, List, [], ◌∷◌, ◌++◌,
  if◌then◌else◌, str_eq, ◌==◌,
}
use arcticworks_codepeer.Base.Text.{Text, codes, text_eq, trim_space, to_lower}
use arcticworks_codepeer.Base.Result.{Result, ok, err}
use arcticworks_codepeer.Base.Action.{Action, pure, fail, modify, ◌>>=◌, ◌>>◌}
use arcticworks_codepeer.Domain.{
  AuditValue, number, text, Installation, Repo, Payload, analyze_pr, analyze_push, feedback,
  close_pr_issues, issue_command, job_analyze_pr, job_analyze_push, job_feedback, job_issue_close,
  job_issue_cmd,
}
use arcticworks_codepeer.Store.{Store, StoreError}
use arcticworks_codepeer.Store.Repos.{upsert_installation, upsert_repo}
use arcticworks_codepeer.Store.Audit as Log
use arcticworks_codepeer.Queue as Queue
use arcticworks_codepeer.Webhook.Events.{
  EventEnvelope, PullRequestEvent, PushEvent, InstallationEvent, IssueCommentEvent, RepoRef,
  InstallationReposEvent, Json, Server,
}

pub data HandleError : Type 0 where
  bad_json : HandleError
  store_failed : StoreError → HandleError

abbrev pub Handler : Type 0
Handler = Action Server HandleError (Unit {0})

-- json.Unmarshal and the rest of a handler.
abbrev pub decoded : {A : Type 0} → Option A → (A → Handler) → Handler
decoded none rest = fail bad_json
decoded (some ev) rest = rest ev

abbrev pub from_self : String → EventEnvelope → Bool
from_self self ev =
    not (str_eq ev.sender_login "") && not (str_eq self "") && str_eq ev.sender_login self

-- A write to the store that may be refused.
settle : Server → Result StoreError Store → Result HandleError (Unit {0}) × Server
settle v (err e) = (err (store_failed e), v)
settle v (ok s) = (ok tt, record v { store = s })

abbrev added_row : ℕ → RepoRef → Repo
added_row installation_id r = record {
  id = r.id;
  installation_id = installation_id;
  owner = r.owner_login;
  name = r.name;
  default_branch = r.default_branch;
  enabled = true;
  config = none;
}

upsert_repo_row : Repo → Handler
unfolding settle
upsert_repo_row r v = settle v (upsert_repo r v.store)

unfoldable pub audit : EventEnvelope → String → List (String × AuditValue) → Handler
audit ev kind detail = modify λ v. record v {
  store =
      Log.audit
        (record {
          event = kind;
          action = ev.action;
          repo_id = ev.repository_id;
          kind = kind;
          detail = detail ++ ("action", text (codes ev.action)) ∷ [];
        })
        v.store;
}

abbrev pub pr_number_of : PullRequestEvent → ℕ
pr_number_of ev = if ev.pr_number == 0 then ev.number else ev.pr_number

abbrev is_open : String → Bool
is_open action =
    str_eq action "opened" || str_eq action "reopened" || str_eq action "ready_for_review"

abbrev is_activation : String → Bool
is_activation action =
    str_eq action "created" || str_eq action "new_permissions_accepted" || str_eq action "unsuspend"

abbrev is_command : Text → Bool
is_command command = text_eq command (codes "approve") || text_eq command (codes "deny")

abbrev pub analyze_pr_of : PullRequestEvent → Payload
analyze_pr_of ev = analyze_pr (record {
  installation_id = ev.envelope.installation_id;
  repo_id = ev.envelope.repository_id;
  repo_owner = ev.envelope.repository_owner;
  repo_name = ev.envelope.repository_name;
  pr_number = pr_number_of ev;
  head_sha = ev.head_sha;
  action = ev.envelope.action;
  sender_login = ev.envelope.sender_login;
})

abbrev feedback_of : PullRequestEvent → Payload
feedback_of ev = feedback (record {
  installation_id = ev.envelope.installation_id;
  repo_id = ev.envelope.repository_id;
  repo_owner = ev.envelope.repository_owner;
  repo_name = ev.envelope.repository_name;
  pr_number = pr_number_of ev;
})

abbrev close_pr_issues_of : PullRequestEvent → Payload
close_pr_issues_of ev = close_pr_issues (record {
  installation_id = ev.envelope.installation_id;
  repo_id = ev.envelope.repository_id;
  repo_owner = ev.envelope.repository_owner;
  repo_name = ev.envelope.repository_name;
  pr_number = pr_number_of ev;
})

abbrev analyze_push_of : PushEvent → Payload
analyze_push_of ev = analyze_push (record {
  installation_id = ev.envelope.installation_id;
  repo_id = ev.envelope.repository_id;
  repo_owner = ev.envelope.repository_owner;
  repo_name = ev.envelope.repository_name;
  before = ev.before;
  after = ev.after;
  ref = ev.ref;
  sender_login = ev.envelope.sender_login;
})

abbrev issue_command_of : IssueCommentEvent → Text → Payload
issue_command_of ev command = issue_command (record {
  installation_id = ev.envelope.installation_id;
  repo_id = ev.envelope.repository_id;
  repo_owner = ev.envelope.repository_owner;
  repo_name = ev.envelope.repository_name;
  issue_number = ev.issue_number;
  command = command;
  sender_login = ev.envelope.sender_login;
})

module _ (json : Json) (self : String) (now : ℕ) where
  -- Queue.Enqueue encodes the payload.
  unfoldable pub enqueue : String → Payload → Handler
  enqueue kind p = modify λ v. record v { jobs = Queue.enqueue now kind (json.encode p) v.jobs }

  on_pull_request : PullRequestEvent → Handler
  unfolding audit enqueue
  on_pull_request ev =
      if from_self self ev.envelope
      then pure tt
      else audit ev.envelope "pull_request" (("pr", number (pr_number_of ev)) ∷ [])
        >> (if is_open ev.envelope.action
            then enqueue job_analyze_pr (analyze_pr_of ev)
            else if str_eq ev.envelope.action "synchronize"
            then enqueue job_analyze_pr (analyze_pr_of ev) >> enqueue job_feedback (feedback_of ev)
            else if str_eq ev.envelope.action "closed"
            then if not ev.merged then pure tt else enqueue job_issue_close (close_pr_issues_of ev)
            else pure tt)

  unfoldable pub handle_pull_request : Text → Handler
  unfolding on_pull_request
  handle_pull_request body = decoded (json.pull_request body) on_pull_request

  on_push : PushEvent → Handler
  unfolding audit enqueue
  on_push ev =
      if from_self self ev.envelope
      then pure tt
      else if ev.deleted || str_eq ev.before ev.after
      then pure tt
      else audit ev.envelope "push" (("ref", text ev.ref) ∷ [])
        >> enqueue job_analyze_push (analyze_push_of ev)

  unfoldable pub handle_push : Text → Handler
  unfolding on_push
  handle_push body = decoded (json.push body) on_push

  on_installation : InstallationEvent → Handler
  on_installation ev =
      if not (is_activation ev.action)
      then pure tt
      else modify λ v. record v {
        store =
            upsert_installation
              (record {
                id = ev.installation_id;
                account_id = ev.account_id;
                account_login = ev.account_login;
                account_type = ev.account_type;
              })
              v.store;
        syncs = v.syncs ++ ev.installation_id ∷ [];
      }

  unfoldable pub handle_installation : Text → Handler
  unfolding on_installation
  handle_installation body = decoded (json.installation body) on_installation

  on_issue_comment : IssueCommentEvent → Handler
  unfolding audit enqueue
  on_issue_comment ev =
      let command = to_lower (trim_space ev.body) in
      if not (str_eq ev.envelope.action "created")
      then pure tt
      else if from_self self ev.envelope
      then pure tt
      else if ev.on_pull_request
      then pure tt
      else if not (is_command command)
      then pure tt
      else audit ev.envelope "issue_comment"
          (("issue", number ev.issue_number) ∷ ("command", text command) ∷ [])
        >> enqueue job_issue_cmd (issue_command_of ev command)

  unfoldable pub handle_issue_comment : Text → Handler
  unfolding on_issue_comment
  handle_issue_comment body = decoded (json.issue_comment body) on_issue_comment

  -- The loop over the added repositories ends at the first that is refused.
  upsert_added : ℕ → List RepoRef → Handler
  unfolding upsert_repo_row
  upsert_added installation_id [] = pure tt
  upsert_added installation_id (r ∷ added) =
      upsert_repo_row (added_row installation_id r) >> upsert_added installation_id added

  unfoldable pub handle_installation_repos : Text → Handler
  unfolding upsert_added
  handle_installation_repos body =
      decoded (json.installation_repos body) λ ev. upsert_added ev.installation_id ev.added

  -- "ping" and an event that is not known change nothing.
  unfoldable pub dispatch : String → Text → Handler
  unfolding handle_pull_request handle_push handle_installation handle_installation_repos
      handle_issue_comment
  dispatch event body =
      if str_eq event "pull_request"
      then handle_pull_request body
      else if str_eq event "push"
      then handle_push body
      else if str_eq event "installation"
      then handle_installation body
      else if str_eq event "installation_repositories"
      then handle_installation_repos body
      else if str_eq event "issue_comment"
      then handle_issue_comment body
      else pure tt

-- What `upsert_repo` leaves of a repository that is refused: the error is logged.
keep_store : Store → Result StoreError Store → Store
keep_store s (err e) = s
keep_store s (ok s') = s'

upsert_each : List Repo → Store → Store
unfolding keep_store
upsert_each [] s = s
upsert_each (r ∷ repos) s = upsert_each repos (keep_store s (upsert_repo r s))

-- A sync, by what ListInstallationRepos returns.
unfoldable pub sync_repos : Result Text (List Repo) → Store → Store
unfolding upsert_each
sync_repos (err e) s = s
sync_repos (ok repos) s = upsert_each repos s
