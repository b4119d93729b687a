-- ===== src/Analysis/Push.antt =====
-- internal/analysis/pipeline.go: `AnalyzePush`, with the parameters of Analysis/Pass. GitHub's answers are
-- the default branch, the changed files and the files at the new commit.
use arcticworks_codepeer.Base.{
  ℕ, String, Bool, not, Option, none, some, List, [], ◌∷◌, ◌++◌, if◌then◌else◌, is_nil, str_eq,
  ◌==◌,
}
use arcticworks_codepeer.Base.Text.{Text, codes, text_eq}
use arcticworks_codepeer.Base.Assoc.{Assoc, insert}
use arcticworks_codepeer.Base.Result.{Result, ok, err}
use arcticworks_codepeer.Domain.{
  AnalyzePushPayload, ChangedFile, CompileInput, FindingRecord, Repo, RepoConfig, ReviewRequest,
  ReviewResult,
}
use arcticworks_codepeer.Store.{Store, StoreError}
use arcticworks_codepeer.Store.Repos.{get_repo}
use arcticworks_codepeer.Store.Runs.{fail_run}
use arcticworks_codepeer.Store.Learnings.{suppressed_keys}
use arcticworks_codepeer.Analysis.Gates.{
  Settings, mode_allows, user_ignored, filter_files, review_config, select_agents,
}
use arcticworks_codepeer.Analysis.Finish.{ChunkOutcome, dedupe_hash, finish_result}
use arcticworks_codepeer.Analysis.Agents.{Job, file_paths, run_agents}
use arcticworks_codepeer.Analysis.Runs.{open_run, store_result}
use arcticworks_codepeer.Analysis.Context.{build_context, build_instructions}
use arcticworks_codepeer.Analysis.Pass.{
  skipped, reviewed, store_error, remote_error, Answer, config_or_default,
}

pub record PushRemote : Type 0 where
  pub default_branch : Result Text String
  pub diff : Result Text (List ChangedFile)
  pub get_file : Text → Result Text Text

-- The tests before the default branch is known.
unfoldable pub push_gate : Repo → AnalyzePushPayload → Option String
push_gate repo payload =
    if not repo.enabled
    then some "repo disabled"
    else if not (mode_allows (config_or_default repo.config) "push")
    then some "push mode disabled"
    else if str_eq payload.before payload.after
    then some "no new commits"
    else none

-- The tests on the branch and the sender.
unfoldable pub branch_gate : RepoConfig → AnalyzePushPayload → String → Option String
branch_gate cfg payload default_branch =
    if not (text_eq payload.ref (codes "refs/heads/" ++ codes default_branch))
    then some "not default branch"
    else if user_ignored cfg payload.sender_login
    then some "user ignored"
    else none

abbrev patch_map : List ChangedFile → Assoc Text → Assoc Text
patch_map [] m = m
patch_map (f ∷ fs) m = patch_map fs (insert f.path f.patch m)

push_stored : ℕ → ReviewResult → List Text → Result StoreError (List FindingRecord) × Store → Answer
push_stored run_id result partial (err e, s) = (err (store_error e), s)
push_stored run_id result partial (ok rows, s) = (
  ok (
      reviewed
        (record { run_id = run_id; result = result; findings = rows; partial_files = partial })),
  s,
)

module _ (glob : Text → Text → Option Bool) (hash : Text → String) (focus : String → Text)
    (review : ReviewRequest → Job → ℕ → Result Text ReviewResult)
    (compile : CompileInput → Result Text ReviewResult) (order : List Job) (p : Settings)
    (remote : PushRemote) (payload : AnalyzePushPayload) where
  unfoldable pub push_request : RepoConfig → List ChangedFile → ReviewRequest
  push_request cfg kept = record {
    repo_owner = payload.repo_owner;
    repo_name = payload.repo_name;
    pr_number = 0;
    pr_title = [];
    pr_body = [];
    head_sha = payload.after;
    diff = [];
    files = kept;
    context = build_context remote.get_file kept;
    instructions = build_instructions remote.get_file cfg.instruction_files;
    config = review_config p cfg;
    focus = [];
  }

  push_concluded : Repo → ℕ → Assoc Text → Assoc Text → Store → Result Text ChunkOutcome → Answer
  unfolding push_stored
  push_concluded repo run_id diff_by_file ctx_files s (err e) =
      (err (remote_error e), fail_run run_id e s)
  push_concluded repo run_id diff_by_file ctx_files s (ok out) =
      let (result, partial) =
        finish_result hash p diff_by_file ctx_files (some (suppressed_keys repo.id s)) out in
      push_stored run_id result partial (store_result run_id result (dedupe_hash hash) s)

  -- The pass with its run open; the number 0 says that the commit was analyzed before.
  push_run : Repo → List ChangedFile → Store → Result StoreError (ℕ × Store) → Answer
  unfolding push_concluded
  push_run repo kept s (err e) = (err (store_error e), s)
  push_run repo kept s (ok (run_id, s')) =
      let cfg = config_or_default repo.config in
      let base = push_request cfg kept in
      if run_id == 0
      then (ok (skipped "already analyzed" []), s')
      else push_concluded repo run_id (patch_map kept []) base.context s'
          (run_agents review compile focus base (select_agents p.agents cfg) order)

  push_files : Repo → Store → Result Text (List ChangedFile) → Answer
  unfolding push_run
  push_files repo s (err e) = (err (remote_error e), s)
  push_files repo s (ok files) =
      let (kept, ignored) = filter_files glob files (config_or_default repo.config).ignore_paths in
      if is_nil kept
      then (ok (skipped "all files ignored" (file_paths ignored)), s)
      else push_run repo kept s (open_run repo.id "push" payload.after none s)

  after_branch_gate : Repo → Store → Option String → Answer
  unfolding push_files
  after_branch_gate repo s (some reason) = (ok (skipped reason []), s)
  after_branch_gate repo s none = push_files repo s remote.diff

  push_branch : Repo → Store → Result Text String → Answer
  unfolding after_branch_gate
  push_branch repo s (err e) = (err (remote_error e), s)
  push_branch repo s (ok branch) =
      after_branch_gate repo s (branch_gate (config_or_default repo.config) payload branch)

  after_push_gate : Repo → Store → Option String → Answer
  unfolding push_branch
  after_push_gate repo s (some reason) = (ok (skipped reason []), s)
  after_push_gate repo s none =
      push_branch repo s
        (if str_eq repo.default_branch "" then remote.default_branch else ok repo.default_branch)

  push_repo : Store → Result StoreError Repo → Answer
  unfolding after_push_gate
  push_repo s (err e) = (err (store_error e), s)
  push_repo s (ok repo) = after_push_gate repo s (push_gate repo payload)

  -- AnalyzePush
  unfoldable pub analyze_push : Store → Answer
  unfolding push_repo
  analyze_push s = push_repo s (get_repo payload.repo_id s)
