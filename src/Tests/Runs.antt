-- ===== src/Tests/Runs.antt =====
-- A run of one key, opened again.
use arcticworks_codepeer.Base.{◌≡◌, Option, some, [], ◌∷◌, refl}
use arcticworks_codepeer.Base.Text.{Text}
use arcticworks_codepeer.Base.Result.{ok}
use arcticworks_codepeer.Domain.{AnalysisRun, ReviewResult}
use arcticworks_codepeer.Store.{Store, empty_store}
use arcticworks_codepeer.Store.Runs.{new_run, run_by_key, complete_run, fail_run, restart_run}
use arcticworks_codepeer.Analysis.Runs.{open_run}
use arcticworks_codepeer.Analysis.Runs.Recovery.{open_run_outcomes}

abbrev sample_run : AnalysisRun
sample_run = new_run 1 5 "pr" "abc" (some 7)

abbrev sample_store : Store
sample_store = record empty_store { runs = sample_run ∷ []; next_run = 2 }

run_found : run_by_key 5 "pr" "abc" sample_store ≡ some sample_run
unfolding run_by_key
run_found = refl

open_run_outcomes_example :
    ((result : Option ReviewResult)
      → open_run 5 "pr" "abc" (some 7) (complete_run 1 result sample_store)
        ≡ ok (0, complete_run 1 result sample_store))
    × ((message : Text)
        → open_run 5 "pr" "abc" (some 7) (fail_run 1 message sample_store)
          ≡ ok (0, fail_run 1 message sample_store))
    × (sample_run.status ≡ "running"
        → open_run 5 "pr" "abc" (some 7) sample_store ≡ ok (1, restart_run 1 sample_store))
open_run_outcomes_example =
    open_run_outcomes 5 "pr" "abc" (some 7) sample_store sample_run run_found
