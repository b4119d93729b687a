-- ===== src/Analysis/Pass.antt =====
-- internal/analysis/pipeline.go: `AnalyzePR`. GitHub's answers for the pass are a record; the reviewer,
-- the prompts, the digest, the globs and the order of the jobs are parameters. No other pass writes to
-- the store in between.
pub mod Outcome
use arcticworks_codepeer.Base.{
  ℕ, String, Bool, true, false, not, Option, none, some, List, [], ◌∷◌, if◌then◌else◌, is_nil, ◌==◌,
}
use arcticworks_codepeer.Base.Text.{Text}
use arcticworks_codepeer.Base.Assoc.{Assoc}
use arcticworks_codepeer.Base.Result.{Result, ok, err}
use arcticworks_codepeer.Domain.{
  AnalyzePrPayload, ChangedFile, CompileInput, Finding, FindingRecord, PrInfo, Repo, RepoConfig,
  ReviewRequest, ReviewResult, default_repo_config,
}
use arcticworks_codepeer.Store.{Store, StoreError}
use arcticworks_codepeer.Store.Repos.{get_repo}
use arcticworks_codepeer.Store.Runs.{fail_run}
use arcticworks_codepeer.Store.Learnings.{suppressed_keys}
use arcticworks_codepeer.Analysis.Diff.{split_diff_by_file}
use arcticworks_codepeer.Analysis.Gates.{
  Settings, mode_allows, user_ignored, title_skipped, base_branch_allowed, filter_files,
  review_config, select_agents,
}
use arcticworks_codepeer.Analysis.Finish.{ChunkOutcome, dedupe_hash, finish_result}
use arcticworks_codepeer.Analysis.Agents.{Job, file_paths, run_agents}
use arcticworks_codepeer.Analysis.Runs.{open_run, store_result}
use arcticworks_codepeer.Analysis.Context.{build_context, build_instructions}

-- A reviewed change, as `ReviewOutput`; `findings` are the rows of the store.
pub record Reviewed : Type 0 where
  pub run_id : ℕ
  pub result : ReviewResult
  pub findings : List FindingRecord
  pub partial_files : List Text

-- What a pass returns besides an error: a reason to skip the change, or its review.
pub data ReviewOutput : Type 0 where
  skipped : String → List Text → ReviewOutput
  reviewed : Reviewed → ReviewOutput

pub data PassError : Type 0 where
  store_error : StoreError → PassError
  remote_error : Text → PassError

-- GitHub's answers: the pull request, its diff, its files, and the files at its head.
pub record Remote : Type 0 where
  pub pr : Result Text PrInfo
  pub raw_diff : Result Text Text
  pub files : Result Text (List ChangedFile)
  pub get_file : Text → Result Text Text

abbrev pub Answer : Type 0
Answer = Result PassError ReviewOutput × Store

abbrev pub config_or_default : Option RepoConfig → RepoConfig
config_or_default none = default_repo_config
config_or_default (some c) = c

-- The tests before the pull request is fetched.
unfoldable pub repo_gate : Repo → AnalyzePrPayload → Option String
repo_gate repo payload =
    let cfg = config_or_default repo.config in
    if not repo.enabled
    then some "repo disabled"
    else if not (mode_allows cfg "pr")
    then some "pr mode disabled"
    else if user_ignored cfg payload.sender_login
    then some "user ignored"
    else none

-- The tests on the pull request.
unfoldable pub pr_gate : RepoConfig → PrInfo → Option String
pr_gate cfg pr =
    if pr.draft
    then some "draft PR"
    else if title_skipped cfg pr.title
    then some "title keyword"
    else if not (base_branch_allowed cfg pr.base_ref)
    then some "base branch not allowed"
    else none

module _ (glob : Text → Text → Option Bool) (hash : Text → String) (focus : String → Text)
    (review : ReviewRequest → Job → ℕ → Result Text ReviewResult)
    (compile : CompileInput → Result Text ReviewResult) (order : List Job) (p : Settings)
    (remote : Remote) (payload : AnalyzePrPayload) where
  -- The request of the pass.
  unfoldable pub pr_request : RepoConfig → PrInfo → Text → List ChangedFile → ReviewRequest
  pr_request cfg pr raw_diff kept = record {
    repo_owner = payload.repo_owner;
    repo_name = payload.repo_name;
    pr_number = payload.pr_number;
    pr_title = pr.title;
    pr_body = pr.body;
    head_sha = payload.head_sha;
    diff = raw_diff;
    files = kept;
    context = build_context remote.get_file kept;
    instructions = build_instructions remote.get_file cfg.instruction_files;
    config = review_config p cfg;
    focus = [];
  }

  stored : ℕ → ReviewResult → List Text → Result StoreError (List FindingRecord) × Store → Answer
  stored run_id result partial (err e, s) = (err (store_error e), s)
  stored run_id result partial (ok rows, s) = (
    ok (
        reviewed
          (record { run_id = run_id; result = result; findings = rows; partial_files = partial })),
    s,
  )

  -- finish
  finish : Repo → ℕ → Assoc Text → Assoc Text → ChunkOutcome → Store → Answer
  unfolding stored
  finish repo run_id diff_by_file ctx_files out s =
      let (result, partial) =
        finish_result hash p diff_by_file ctx_files (some (suppressed_keys repo.id s)) out in
      stored run_id result partial (store_result run_id result (dedupe_hash hash) s)

  -- An error of the reviewer fails the run.
  concluded : Repo → ℕ → Assoc Text → Assoc Text → Store → Result Text ChunkOutcome → Answer
  unfolding finish
  concluded repo run_id diff_by_file ctx_files s (err e) =
      (err (remote_error e), fail_run run_id e s)
  concluded repo run_id diff_by_file ctx_files s (ok out) =
      finish repo run_id diff_by_file ctx_files out s

  -- The pass with its run open; the number 0 says that the change was analyzed before.
  with_run :
      Repo → PrInfo → Text → List ChangedFile → Store → Result StoreError (ℕ × Store) → Answer
  unfolding concluded
  with_run repo pr raw_diff kept s (err e) = (err (store_error e), s)
  with_run repo pr raw_diff kept s (ok (run_id, s')) =
      let cfg = config_or_default repo.config in
      let base = pr_request cfg pr raw_diff kept in
      if run_id == 0
      then (ok (skipped "already analyzed" []), s')
      else concluded repo run_id (split_diff_by_file raw_diff) base.context s'
          (run_agents review compile focus base (select_agents p.agents cfg) order)

  with_files : Repo → PrInfo → Text → List ChangedFile → Store → Answer
  unfolding with_run
  with_files repo pr raw_diff files s =
      let (kept, ignored) = filter_files glob files (config_or_default repo.config).ignore_paths in
      if is_nil files
      then (ok (skipped "no files changed" []), s)
      else if is_nil kept
      then (ok (skipped "all files ignored" (file_paths ignored)), s)
      else with_run repo pr raw_diff kept s
          (open_run repo.id "pr" payload.head_sha (some payload.pr_number) s)

  with_diff : Repo → PrInfo → Store → Result Text Text → Result Text (List ChangedFile) → Answer
  unfolding with_files
  with_diff repo pr s (err e) files = (err (remote_error e), s)
  with_diff repo pr s (ok raw_diff) (err e) = (err (remote_error e), s)
  with_diff repo pr s (ok raw_diff) (ok files) = with_files repo pr raw_diff files s

  after_pr_gate : Repo → PrInfo → Store → Option String → Answer
  unfolding with_diff
  after_pr_gate repo pr s (some reason) = (ok (skipped reason []), s)
  after_pr_gate repo pr s none = with_diff repo pr s remote.raw_diff remote.files

  with_pr : Repo → Store → Result Text PrInfo → Answer
  unfolding after_pr_gate
  with_pr repo s (err e) = (err (remote_error e), s)
  with_pr repo s (ok pr) = after_pr_gate repo pr s (pr_gate (config_or_default repo.config) pr)

  after_repo_gate : Repo → Store → Option String → Answer
  unfolding with_pr
  after_repo_gate repo s (some reason) = (ok (skipped reason []), s)
  after_repo_gate repo s none = with_pr repo s remote.pr

  with_repo : Store → Result StoreError Repo → Answer
  unfolding after_repo_gate
  with_repo s (err e) = (err (store_error e), s)
  with_repo s (ok repo) = after_repo_gate repo s (repo_gate repo payload)

  -- AnalyzePR
  unfoldable pub analyze_pr : Store → Answer
  unfolding with_repo
  analyze_pr s = with_repo s (get_repo payload.repo_id s)
