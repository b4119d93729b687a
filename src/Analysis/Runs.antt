-- ===== src/Analysis/Runs.antt =====
-- internal/analysis/pipeline.go: how a pass opens its run in the store, and stores its result.
pub mod Recovery
pub mod Opened
use arcticworks_codepeer.Base.{
  ℕ, String, Bool, true, false, ◌||◌, Option, none, some, List, if◌then◌else◌, str_eq,
}
use arcticworks_codepeer.Base.Text.{Text}
use arcticworks_codepeer.Base.Result.{Result, ok, err}
use arcticworks_codepeer.Domain.{AnalysisRun, Finding, FindingRecord, ReviewResult}
use arcticworks_codepeer.Store.{Store, StoreError, duplicate_run, no_parent, no_rows}
use arcticworks_codepeer.Store.Runs.{create_run, run_by_key, complete_run, restart_run}
use arcticworks_codepeer.Store.Findings.{save_findings, findings_for_run}

-- A run that is done or has failed is not opened again: 0. Any other is restarted.
reopen : Option AnalysisRun → Store → ℕ × Store
reopen none s = (0, s)
reopen (some r) s =
    if str_eq r.status "done" || str_eq r.status "failed"
    then (0, s)
    else (r.id, restart_run r.id s)

-- recoverRun
unfoldable pub recover_run : ℕ → String → String → Store → ℕ × Store
unfolding reopen
recover_run repo_id kind sha s = reopen (run_by_key repo_id kind sha s) s

after_create :
    ℕ → String → String → Store → Result StoreError (ℕ × Store) → Result StoreError (ℕ × Store)
after_create repo_id kind sha s (ok opened) = ok opened
after_create repo_id kind sha s (err StoreError.duplicate_run) = ok (recover_run repo_id kind sha s)
after_create repo_id kind sha s (err StoreError.no_parent) = err no_parent
after_create repo_id kind sha s (err StoreError.no_rows) = err no_rows

-- The run of a pass; with the number 0 the pass is skipped as "already analyzed".
unfoldable pub open_run : ℕ → String → String → Option ℕ → Store → Result StoreError (ℕ × Store)
unfolding after_create
open_run repo_id kind sha pr_number s =
    after_create repo_id kind sha s (create_run repo_id kind sha pr_number s)

saved_findings :
    ℕ → Store → Result StoreError Store → Result StoreError (List FindingRecord) × Store
saved_findings run_id s (err e) = (err e, s)
saved_findings run_id s (ok s') = (ok (findings_for_run run_id s'), s')

-- The end of `finish`: the run is done even if its findings cannot be saved.
unfoldable pub store_result :
    ℕ → ReviewResult → (Finding → String) → Store → Result StoreError (List FindingRecord) × Store
unfolding saved_findings
store_result run_id result hash s =
    let done = complete_run run_id (some result) s in
    saved_findings run_id done (save_findings run_id result.findings hash done)
