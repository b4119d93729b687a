-- ===== src/Tests/Agents.antt =====
-- The specialists on the sample change, with a reviewer that fails on a file.
use mathlib.Core.List.{Perm}
use mathlib.Core.List.Perm
use arcticworks_codepeer.Base.{◌≡◌, ℕ, String, List, [], ◌∷◌, none, if◌then◌else◌, is_nil}
use arcticworks_codepeer.Base.Text.{Text, codes}
use arcticworks_codepeer.Base.Result.{Result, ok, err}
use arcticworks_codepeer.Domain.{
  ReviewRequest, ReviewResult, CompileInput, default_agents, status_changes_requested,
}
use arcticworks_codepeer.Analysis.Agents.{Job, nothing_recorded, run_jobs, run_agents}
use arcticworks_codepeer.Analysis.Agents.Schedule.{
  results_of, failed_files_of, failed_of, Accounts, run_jobs-perm, run_agents-Accounts,
}
use arcticworks_codepeer.Tests.Data.{sample_files, sample_request, sample_findings}

-- It fails on a job without a diff.
abbrev sample_review : ReviewRequest → Job → ℕ → Result Text ReviewResult
sample_review req j n =
    if is_nil req.diff
    then err (codes "empty")
    else ok (record { summary = []; status = status_changes_requested; findings = sample_findings })

abbrev sample_compile : CompileInput → Result Text ReviewResult
sample_compile c = err (codes "no lead")

abbrev sample_focus : String → Text
sample_focus name = codes name

abbrev good_job : Job
good_job = record { spec = none; chunk = record { files = sample_files; diff_text = codes "+x" } }

abbrev bad_job : Job
bad_job = record { spec = none; chunk = record { files = sample_files; diff_text = [] } }

abbrev planned : List Job
planned = good_job ∷ bad_job ∷ []

abbrev order : List Job
order = bad_job ∷ good_job ∷ []

run_jobs-perm_example :
    Perm
      (run_jobs sample_review sample_request nothing_recorded order).results
      (results_of sample_review sample_request planned)
    × Perm
        (run_jobs sample_review sample_request nothing_recorded order).failed_files
        (failed_files_of sample_review sample_request planned)
    × ((run_jobs sample_review sample_request nothing_recorded order).failed
        ≡ failed_of sample_review sample_request planned)
run_jobs-perm_example =
    run_jobs-perm sample_review sample_request planned order (Perm.swap good_job bad_job [])

run_agents-Accounts_example :
    Accounts sample_review sample_request order
      (run_agents sample_review sample_compile sample_focus sample_request default_agents order)
run_agents-Accounts_example =
    run_agents-Accounts sample_review sample_request sample_compile sample_focus default_agents
      order
