-- ===== src/Analysis/Pass/Outcome.antt =====
-- What a pass over a pull request returns and stores.
use arcticworks_codepeer.Base.{
  ℕ, ◌≡◌, refl, String, Bool, Option, none, some, inl, inr, List, arith, Bool-cases, is_nil, ◌==◌,
  All,
}
use arcticworks_codepeer.Base.Text.{Text}
use arcticworks_codepeer.Base.Assoc.{Assoc}
use arcticworks_codepeer.Base.Result.{Result, ok, err}
use arcticworks_codepeer.Domain.{
  AnalyzePrPayload, ChangedFile, CompileInput, FindingRecord, PrInfo, Repo, ReviewRequest,
  ReviewResult,
}
use arcticworks_codepeer.Store.{Store, StoreError}
use arcticworks_codepeer.Store.Repos.{get_repo}
use arcticworks_codepeer.Store.Findings.{findings_for_run}
use arcticworks_codepeer.Store.Learnings.{suppressed_keys}
use arcticworks_codepeer.Analysis.Diff.{split_diff_by_file}
use arcticworks_codepeer.Analysis.Gates.{Settings, filter_files}
use arcticworks_codepeer.Analysis.Finish.{ChunkOutcome, dedupe_hash, finish_result, merge_results}
use arcticworks_codepeer.Analysis.Finish.Publishable.{IsPublishable, finish_findings-IsPublishable}
use arcticworks_codepeer.Analysis.Agents.{Job}
use arcticworks_codepeer.Analysis.Runs.Opened.{
  IsNumbered, Opens, open_run-Opens, ReturnsRows, store_result-ReturnsRows,
}
use arcticworks_codepeer.Analysis.Pass.{
  Answer, Remote, ReviewOutput, config_or_default, stored, finish, concluded, with_run, with_files,
  with_diff, after_pr_gate, with_pr, after_repo_gate, with_repo, analyze_pr,
}

-- A skipped pass leaves the store as it is. The findings of a review are publishable on the diff that was
-- fetched, and its rows are those of its run in the store.
abbrev pub IsOutcome : Remote → Store → Answer → Type 0
IsOutcome remote s (err e, s') = Unit
IsOutcome remote s (ok (ReviewOutput.skipped reason files), s') = s' ≡ s
IsOutcome remote s (ok (ReviewOutput.reviewed r), s') =
    ((diff : Text) × (ctx : Assoc Text) × (remote.raw_diff ≡ ok diff)
      × All (IsPublishable (split_diff_by_file diff) ctx) r.result.findings)
    × (r.findings ≡ findings_for_run r.run_id s')

module _ (glob : Text → Text → Option Bool) (hash : Text → String) (focus : String → Text)
    (review : ReviewRequest → Job → ℕ → Result Text ReviewResult)
    (compile : CompileInput → Result Text ReviewResult) (order : List Job) (p : Settings)
    (remote : Remote) (payload : AnalyzePrPayload) where
  stored-IsOutcome :
      (run_id : ℕ) (result : ReviewResult) (partial : List Text) (diff : Text) (ctx : Assoc Text)
      (s : Store) (o : Result StoreError (List FindingRecord) × Store)
      → remote.raw_diff ≡ ok diff
      → All (IsPublishable (split_diff_by_file diff) ctx) result.findings
      → ReturnsRows run_id o
      → IsOutcome remote s
          (stored glob hash focus review compile order p remote payload run_id result partial o)
  unfolding stored
  stored-IsOutcome run_id result partial diff ctx s (err e, s') q a r = tt
  stored-IsOutcome run_id result partial diff ctx s (ok rows, s') q a r = ((diff, ctx, q, a), r)

  concluded-IsOutcome :
      (repo : Repo) (run_id : ℕ) (diff : Text) (ctx : Assoc Text) (s s0 : Store)
      (o : Result Text ChunkOutcome)
      → remote.raw_diff ≡ ok diff
      → IsOutcome remote s0 (
          concluded glob hash focus review compile order p remote payload repo run_id
            (split_diff_by_file diff)
            ctx
            s
            o)
  unfolding concluded finish finish_result
  concluded-IsOutcome repo run_id diff ctx s s0 (err e) q = tt
  concluded-IsOutcome repo run_id diff ctx s s0 (ok out) q =
      let keys = some (suppressed_keys repo.id s) in
      let (result, partial) = finish_result hash p (split_diff_by_file diff) ctx keys out in
      stored-IsOutcome run_id result partial diff ctx s0 _ q
        (finish_findings-IsPublishable hash p (split_diff_by_file diff) ctx keys
          (merge_results out).findings).0
        (store_result-ReturnsRows run_id result (dedupe_hash hash) s)

  with_run-IsOutcome :
      (repo : Repo) (pr : PrInfo) (diff : Text) (kept : List ChangedFile) (s : Store)
      (o : Result StoreError (ℕ × Store))
      → remote.raw_diff ≡ ok diff
      → Opens s o
      → IsOutcome remote s
          (with_run glob hash focus review compile order p remote payload repo pr diff kept s o)
  unfolding with_run
  with_run-IsOutcome repo pr diff kept s (err e) q h = tt
  with_run-IsOutcome repo pr diff kept s (ok (run_id, s')) q h = elim (Bool-cases (run_id == 0)) [
    | inl e ↦ rw e (h (ground arith))
    | inr e ↦ rw e (concluded-IsOutcome repo run_id diff _ s' s _ q)
  ]

  with_files-IsOutcome :
      (repo : Repo) (pr : PrInfo) (diff : Text) (files : List ChangedFile) (s : Store)
      → remote.raw_diff ≡ ok diff
      → IsNumbered s
      → IsOutcome remote s
          (with_files glob hash focus review compile order p remote payload repo pr diff files s)
  unfolding with_files
  with_files-IsOutcome repo pr diff files s q n = elim (Bool-cases (is_nil files)) [
    | inl e ↦ rw e refl
    | inr e ↦
        let kept = (filter_files glob files (config_or_default repo.config).ignore_paths).0 in
        elim (Bool-cases (is_nil kept)) [
          | inl k ↦ rw (e, k) refl
          | inr k ↦
              rw (e, k)
                (with_run-IsOutcome repo pr diff kept s _ q
                  (open_run-Opens repo.id "pr" payload.head_sha (some payload.pr_number) s n))
        ]
  ]

  with_diff-IsOutcome :
      (repo : Repo) (pr : PrInfo) (s : Store) (d : Result Text Text)
      (files : Result Text (List ChangedFile))
      → remote.raw_diff ≡ d
      → IsNumbered s
      → IsOutcome remote s
          (with_diff glob hash focus review compile order p remote payload repo pr s d files)
  unfolding with_diff
  with_diff-IsOutcome repo pr s (err e) files q n = tt
  with_diff-IsOutcome repo pr s (ok diff) (err e) q n = tt
  with_diff-IsOutcome repo pr s (ok diff) (ok files) q n =
      with_files-IsOutcome repo pr diff files s q n

  after_pr_gate-IsOutcome :
      (repo : Repo) (pr : PrInfo) (s : Store) (o : Option String)
      → IsNumbered s
      → IsOutcome remote s
          (after_pr_gate glob hash focus review compile order p remote payload repo pr s o)
  unfolding after_pr_gate
  after_pr_gate-IsOutcome repo pr s (some reason) n = refl
  after_pr_gate-IsOutcome repo pr s none n =
      with_diff-IsOutcome repo pr s remote.raw_diff remote.files refl n

  with_pr-IsOutcome :
      (repo : Repo) (s : Store) (o : Result Text PrInfo)
      → IsNumbered s
      → IsOutcome remote s (with_pr glob hash focus review compile order p remote payload repo s o)
  unfolding with_pr
  with_pr-IsOutcome repo s (err e) n = tt
  with_pr-IsOutcome repo s (ok pr) n = after_pr_gate-IsOutcome repo pr s _ n

  after_repo_gate-IsOutcome :
      (repo : Repo) (s : Store) (o : Option String)
      → IsNumbered s
      → IsOutcome remote s
          (after_repo_gate glob hash focus review compile order p remote payload repo s o)
  unfolding after_repo_gate
  after_repo_gate-IsOutcome repo s (some reason) n = refl
  after_repo_gate-IsOutcome repo s none n = with_pr-IsOutcome repo s remote.pr n

  with_repo-IsOutcome :
      (s : Store) (o : Result StoreError Repo)
      → IsNumbered s
      → IsOutcome remote s (with_repo glob hash focus review compile order p remote payload s o)
  unfolding with_repo
  with_repo-IsOutcome s (err e) n = tt
  with_repo-IsOutcome s (ok repo) n = after_repo_gate-IsOutcome repo s _ n

  -- In a store whose runs are numbered from one, whatever GitHub, the reviewer and the order of the jobs
  -- give: a pass that skips the change leaves the store as it was; the findings of a pass that reviews it
  -- are publishable on the diff that was fetched, and its rows are those of its run in the store.
  pub analyze_pr-IsOutcome :
      (s : Store)
      → IsNumbered s
      → IsOutcome remote s (analyze_pr glob hash focus review compile order p remote payload s)
  unfolding analyze_pr
  analyze_pr-IsOutcome s n = with_repo-IsOutcome s (get_repo payload.repo_id s) n
