-- ===== src/Githubx/Operations.antt =====
-- internal/githubx/client.go: every operation of the client; those of gitdata.go are in Githubx/Gitdata.
-- Each takes the token of its installation, calls go-github with retries, and passes on what the answer
-- has. The calls are parameters, by the token and what is sent.
pub mod Isolated
use arcticworks_codepeer.Base.{
  ℕ, ◌≡◌, Bool, Option, none, some, List, [], ◌∷◌, ◌++◌, map, String, str_eq, if◌then◌else◌,
}
use arcticworks_codepeer.Base.Text.{Text, codes}
use arcticworks_codepeer.Base.Result.{Result, ok, err}
use arcticworks_codepeer.Domain.{ChangedFile, Repo, PrInfo, Annotation, InlineComment, Reaction}
use arcticworks_codepeer.Githubx.Retry.{ClientError, do_with_retry}
use arcticworks_codepeer.Githubx.Client.{
  CommitFile, list_pr_files, list_installation_repos, get_push_diff, Call, Repository, map_ok,
  get_file, get_branch_sha, create_branch,
}
use arcticworks_codepeer.Githubx.Auth.{Issuer, Tokens, AuthError, installation_token}
use arcticworks_codepeer.Githubx.Payload.{
  CheckRunAnnotation, CheckRunOptions, DraftComment, PullRequestComment, map_annotations,
  check_run_options, draft_comment, pull_request_comment,
}

pub data OperationError : Type 0 where
  unauthorized : AuthError → OperationError
  refused : ClientError → OperationError

-- go-github's PullRequest and the bodies of requests, as far as the code reads or writes them.
record PullRequest : Type 0 where
  number : ℕ
  title : Text
  body : Text
  state : String
  draft : Bool
  head_sha : String
  base_ref : String
  head_ref : String
  user : Option String
  merged : Bool

record CheckRunUpdate : Type 0 where
  status : String
  conclusion : String
  summary : Text
  annotations : List CheckRunAnnotation
  completed : Bool

record ReviewBody : Type 0 where
  commit_id : String
  body : Text
  event : String
  comments : List DraftComment

record IssueBody : Type 0 where
  title : Option Text
  body : Option Text
  state : Option String
  labels : Option (List String)

record ListedReaction : Type 0 where
  user : Option String
  content : String

abbrev login_or_empty : Option String → String
login_or_empty none = ""
login_or_empty (some login) = login

pr_info : PullRequest → PrInfo
pr_info pr = record {
  number = pr.number;
  title = pr.title;
  body = pr.body;
  state = pr.state;
  draft = pr.draft;
  head_sha = pr.head_sha;
  base_ref = pr.base_ref;
  head_ref = pr.head_ref;
  user_login = login_or_empty pr.user;
  merged = pr.merged;
}

reaction_of : ListedReaction → Reaction
reaction_of r = record { user = login_or_empty r.user; content = r.content }

-- The installation that WithInstallation put in the context, or the client's own.
abbrev pub bound_or : Option ℕ → ℕ → ℕ
bound_or none id = id
bound_or (some bound) id = bound

-- A client is its token.
unfoldable pub client_for : Issuer → ℕ → Option ℕ → ℕ → Tokens → Result AuthError Text × Tokens
client_for app now bound id s = installation_token app now (bound_or bound id) s

abbrev pub refused_or : {A : Type 0} → Result ClientError A → Result OperationError A
refused_or (err e) = err (refused e)
refused_or (ok a) = ok a

called :
    {A : Type 0}
    → (Text → Result ClientError A)
    → Result AuthError Text × Tokens
    → Result OperationError A × Tokens
called api (err e, s) = (err (unauthorized e), s)
called api (ok token, s) = (refused_or (api token), s)

abbrev pub Operation : Type 0 → Type 0
Operation A = Tokens → Result OperationError A × Tokens

module _ (app : Issuer) (now : ℕ) (bound : Option ℕ) (id : ℕ) where
  unfoldable pub with_client : {A : Type 0} → (Text → Result ClientError A) → Operation A
  unfolding called
  with_client api s = called api (client_for app now bound id s)

  -- One call with retries, and what is read of its answer.
  pub request : {A B : Type 0} → (A → B) → (Text → Call A) → Operation B
  unfolding with_client map_ok
  request read api =
      with_client
        (λ token. map_ok read (do_with_retry (api token).reply (api token).cancelled_before))

  abbrev same : {A : Type 0} → A → A
  same a = a

  get_raw_diff : (Text → Call Text) → Operation Text
  get_raw_diff api = request same api

  get_pr : (Text → Call PullRequest) → Operation PrInfo
  unfolding pr_info
  get_pr api = request pr_info api

  get_default_branch : (Text → Call Repository) → Operation String
  get_default_branch api = request (λ r. r.default_branch) api

  create_check_run :
      (Text → CheckRunOptions → Call ℕ)
      → String
      → String
      → String
      → String
      → Text
      → Text
      → List Annotation
      → Operation ℕ
  create_check_run api name head_sha status conclusion title summary annotations =
      request same (λ token.
        api token (check_run_options name head_sha status conclusion title summary annotations))

  update_check_run :
      (Text → CheckRunUpdate → Call (Unit {0}))
      → String
      → String
      → Text
      → List Annotation
      → Operation (Unit {0})
  update_check_run api status conclusion summary annotations = request same (λ token.
      api token (record {
        status = status;
        conclusion = conclusion;
        summary = summary;
        annotations = map_annotations annotations;
        completed = str_eq status "completed";
      }))

  -- The event is always COMMENT.
  create_review : (Text → ReviewBody → Call ℕ) → String → Text → List InlineComment → Operation ℕ
  create_review api head_sha body comments = request same (λ token. api token (record {
    commit_id = head_sha;
    body = body;
    event = "COMMENT";
    comments = map draft_comment comments;
  }))

  create_comment : (Text → PullRequestComment → Call ℕ) → String → InlineComment → Operation ℕ
  create_comment api head_sha c =
      request same (λ token. api token (pull_request_comment head_sha c))

  create_issue : (Text → IssueBody → Call ℕ) → Text → Text → List String → Operation ℕ
  create_issue api title body labels = request same (λ token.
      api token
        (record { title = some title; body = some body; state = none; labels = some labels }))

  edit_issue :
      (Text → IssueBody → Call (Unit {0})) → Option Text → Option String → Operation (Unit {0})
  edit_issue api body state =
      request same
        (λ token. api token (record { title = none; body = body; state = state; labels = none }))

  add_issue_comment : (Text → Text → Call (Unit {0})) → Text → Operation (Unit {0})
  add_issue_comment api body = request same (λ token. api token body)

  get_reactions : (Text → Call (List ListedReaction)) → Operation (List Reaction)
  unfolding reaction_of
  get_reactions api = request (map reaction_of) api

  file_content : (Text → Call (Option Text)) → Operation Text
  file_content api = with_client (λ token. get_file (api token))

  -- `fuel` pages at most.
  pr_files : (Text → ℕ → Call (List CommitFile)) → ℕ → Operation (List ChangedFile)
  pr_files api fuel = with_client (λ token. list_pr_files (api token) fuel)

  push_diff :
      (Text → Call (List CommitFile))
      → (Text → Call (List CommitFile))
      → String
      → String
      → Operation (List ChangedFile)
  push_diff commit comparison before after s =
      let asked =
        with_client (λ token. get_push_diff (commit token) (comparison token) before after) s in
      if str_eq before after then (ok [], s) else asked

-- The installation is an argument here, but that of the context goes before it.
installation_repos :
    Issuer → ℕ → Option ℕ → ℕ → (Text → ℕ → Call (List Repository)) → ℕ → Operation (List Repo)
installation_repos app now bound installation api fuel =
    with_client app now bound installation
      (λ token. list_installation_repos (api token) fuel installation)
