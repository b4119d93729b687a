-- ===== src/Worker/Dispatch.antt =====
-- cmd/codepeer/main.go: `dispatch` and `refreshConfig`. What the worker is built from is the record
-- `Parts`: the decoders of JSON and YAML, the reviewer, GitHub, and the clock.
pub mod Decodes
use arcticworks_codepeer.Base.{ℕ, String, Bool, Option, none, some, List, [], if◌then◌else◌, str_eq}
use arcticworks_codepeer.Base.Text.{Text}
use arcticworks_codepeer.Base.Result.{Result, ok, err}
use arcticworks_codepeer.Base.Action.{Action, fail, ◌>>◌}
use arcticworks_codepeer.Domain.{
  AnalyzePrPayload, AnalyzePushPayload, FeedbackPayload, ClosePrIssuesPayload, IssueCommandPayload,
  CompileInput, ReviewRequest, ReviewResult, RepoConfig, job_analyze_pr, job_analyze_push,
  job_feedback, job_issue_close, job_issue_cmd,
}
use arcticworks_codepeer.Config.{RawRepoConfig}
use arcticworks_codepeer.Config.Cache.{RepoConfigCache, cache_get}
use arcticworks_codepeer.Store.{Store}
use arcticworks_codepeer.Store.Repos.{set_repo_config}
use arcticworks_codepeer.Analysis.Agents.{Job}
use arcticworks_codepeer.Analysis.Gates.{Settings}
use arcticworks_codepeer.Analysis.Pass as Pass
use arcticworks_codepeer.Analysis.Pass.{Remote, Reviewed, PassError}
use arcticworks_codepeer.Analysis.Push as Push
use arcticworks_codepeer.Analysis.Push.{PushRemote}
use arcticworks_codepeer.Posting.Output.{ReviewOutput}
use arcticworks_codepeer.Posting.World.{Github, World, PostError, Posting}
use arcticworks_codepeer.Posting.Review.{post_pr_review}
use arcticworks_codepeer.Posting.Push.{post_push, close_pr_issues, learn_sweep}
use arcticworks_codepeer.Posting.Approve.{handle_issue_command}

-- json.Unmarshal for each payload.
pub record Decoders : Type 0 where
  pub analyze_pr : Text → Option AnalyzePrPayload
  pub analyze_push : Text → Option AnalyzePushPayload
  pub feedback : Text → Option FeedbackPayload
  pub close_pr_issues : Text → Option ClosePrIssuesPayload
  pub issue_command : Text → Option IssueCommandPayload

pub record Parts : Type 0 where
  pub decoders : Decoders
  pub glob : Text → Text → Option Bool
  pub hash : Text → String
  pub focus : String → Text
  pub review : ReviewRequest → Job → ℕ → Result Text ReviewResult
  pub compile : CompileInput → Result Text ReviewResult
  pub order : List Job
  pub settings : Settings
  pub remote : World → AnalyzePrPayload → Remote
  pub push_remote : World → AnalyzePushPayload → PushRemote
  pub github : Github
  pub key_order : List (ℕ × String) → List (ℕ × String)
  pub decode_config : Text → Option RawRepoConfig
  pub fetch_config : World → String → String → String → Result Text Text
  pub now : ℕ
  pub later : ℕ

-- What a job changes: the store and GitHub, and the cache of configurations.
pub record Site : Type 0 where
  pub world : World
  pub cache : RepoConfigCache

pub data WorkError : Type 0 where
  bad_payload unknown_kind : WorkError
  pass_failed : PassError → WorkError
  post_failed : PostError → WorkError

abbrev pub Work : Type 0
Work = Action Site WorkError (Unit {0})

abbrev no_result : ReviewResult
no_result = record { summary = []; status = ""; findings = [] }

pr_output : AnalyzePrPayload → Pass.ReviewOutput → ReviewOutput
pr_output p (Pass.skipped reason files) = record {
  repo_owner = p.repo_owner;
  repo_name = p.repo_name;
  repo_id = p.repo_id;
  pr_number = p.pr_number;
  head_sha = p.head_sha;
  result = no_result;
  findings = [];
  skipped = reason;
  partial_files = [];
}
pr_output p (Pass.reviewed r) = record {
  repo_owner = p.repo_owner;
  repo_name = p.repo_name;
  repo_id = p.repo_id;
  pr_number = p.pr_number;
  head_sha = p.head_sha;
  result = r.result;
  findings = r.findings;
  skipped = "";
  partial_files = r.partial_files;
}

push_output : AnalyzePushPayload → Pass.ReviewOutput → ReviewOutput
push_output p (Pass.skipped reason files) = record {
  repo_owner = p.repo_owner;
  repo_name = p.repo_name;
  repo_id = p.repo_id;
  pr_number = 0;
  head_sha = p.after;
  result = no_result;
  findings = [];
  skipped = reason;
  partial_files = [];
}
push_output p (Pass.reviewed r) = record {
  repo_owner = p.repo_owner;
  repo_name = p.repo_name;
  repo_id = p.repo_id;
  pr_number = 0;
  head_sha = p.after;
  result = r.result;
  findings = r.findings;
  skipped = "";
  partial_files = r.partial_files;
}

posted : Site → Result PostError (Unit {0}) × World → Result WorkError (Unit {0}) × Site
posted site (err e, w) = (err (post_failed e), record site { world = w })
posted site (ok _, w) = (ok tt, record site { world = w })

on_world : Posting (Unit {0}) → Work
unfolding posted
on_world action site = posted site (action site.world)

-- A pass, and the posting of what it returns.
analyzed : (Pass.ReviewOutput → Work) → Site → Pass.Answer → Result WorkError (Unit {0}) × Site
analyzed post site (err e, s) =
    (err (pass_failed e), record site { world = record site.world { store = s } })
analyzed post site (ok out, s) = post out (record site { world = record site.world { store = s } })

analyze_then : (Pass.ReviewOutput → Work) → (World → Store → Pass.Answer) → Work
unfolding analyzed
analyze_then post pass site = analyzed post site (pass site.world site.world.store)

abbrev decoded : {A : Type 0} → Option A → (A → Work) → Work
decoded none run = fail bad_payload
decoded (some p) run = run p

refreshed : ℕ → Site → Result Text RepoConfig × RepoConfigCache → Site
refreshed repo_id site (err e, c) = record site { cache = c }
refreshed repo_id site (ok cfg, c) = record site {
  world = record site.world { store = set_repo_config repo_id cfg site.world.store };
  cache = c;
}

module _ (parts : Parts) where
  -- An error is logged, and the job goes on with what is stored.
  unfoldable pub refresh_config : ℕ → String → String → String → Work
  unfolding refreshed
  refresh_config repo_id owner repo ref site = (
    ok tt,
    refreshed repo_id site (
        cache_get parts.decode_config site.cache owner repo parts.now
          (parts.fetch_config site.world owner repo ref) parts.later),
  )

  run_analyze_pr : AnalyzePrPayload → Work
  unfolding on_world pr_output analyze_then
  run_analyze_pr p =
      refresh_config p.repo_id p.repo_owner p.repo_name p.head_sha
      >> analyze_then (λ out. on_world (post_pr_review parts.github (pr_output p out)))
          (λ w.
            Pass.analyze_pr parts.glob parts.hash parts.focus parts.review parts.compile parts.order
              parts.settings (parts.remote w p) p)

  run_analyze_push : AnalyzePushPayload → Work
  unfolding on_world push_output analyze_then
  run_analyze_push p =
      refresh_config p.repo_id p.repo_owner p.repo_name p.after
      >> analyze_then (λ out. on_world (post_push parts.github (push_output p out)))
          (λ w.
            Push.analyze_push parts.glob parts.hash parts.focus parts.review parts.compile
              parts.order parts.settings (parts.push_remote w p) p)

  unfoldable pub dispatch : String → Text → Work
  unfolding run_analyze_pr run_analyze_push on_world
  dispatch kind payload =
      if str_eq kind job_analyze_pr
      then decoded (parts.decoders.analyze_pr payload) run_analyze_pr
      else if str_eq kind job_analyze_push
      then decoded (parts.decoders.analyze_push payload) run_analyze_push
      else if str_eq kind job_feedback
      then decoded (parts.decoders.feedback payload)
          (λ p. on_world (learn_sweep parts.github parts.key_order p))
      else if str_eq kind job_issue_close
      then decoded (parts.decoders.close_pr_issues payload) (λ p.
        on_world (close_pr_issues parts.github p.repo_id p.repo_owner p.repo_name p.pr_number))
      else if str_eq kind job_issue_cmd
      then decoded (parts.decoders.issue_command payload)
          (λ p. on_world (handle_issue_command parts.github p))
      else fail unknown_kind
