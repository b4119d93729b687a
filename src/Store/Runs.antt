-- ===== src/Store/Runs.antt =====
-- internal/store/store.go: analysis runs.
use arcticworks_codepeer.Base.{
  ℕ, ◌+◌, String, Bool, ◌&&◌, Option, none, some, [], ◌∷◌, ◌++◌, if◌then◌else◌, str_eq, any, find,
  ◌==◌,
}
use arcticworks_codepeer.Base.Text.{Text}
use arcticworks_codepeer.Base.Result.{Result, ok, err}
use arcticworks_codepeer.Domain.{Repo, AnalysisRun, ReviewResult}
use arcticworks_codepeer.Store.{Store, StoreError, duplicate_run, no_parent, update_rows}

-- UNIQUE (repo_id, kind, input_sha)
abbrev pub is_run : ℕ → String → String → AnalysisRun → Bool
is_run repo_id kind input_sha r =
    r.repo_id == repo_id && (str_eq r.kind kind && str_eq r.input_sha input_sha)

-- A number that is NULL is read as zero.
abbrev pub number_or_zero : Option ℕ → ℕ
number_or_zero none = 0
number_or_zero (some n) = n

abbrev pub new_run : ℕ → ℕ → String → String → Option ℕ → AnalysisRun
new_run id repo_id kind input_sha pr_number = record {
  id = id;
  repo_id = repo_id;
  kind = kind;
  input_sha = input_sha;
  pr_number = number_or_zero pr_number;
  status = "running";
  result = none;
  error = [];
}

-- CreateRun: the number of the run, and the store.
unfoldable pub create_run : ℕ → String → String → Option ℕ → Store → Result StoreError (ℕ × Store)
create_run repo_id kind input_sha pr_number s =
    if any (is_run repo_id kind input_sha) s.runs
    then err duplicate_run
    else if any (λ (x : Repo). x.id == repo_id) s.repos
    then ok (
      s.next_run,
      record s {
        runs = s.runs ++ new_run s.next_run repo_id kind input_sha pr_number ∷ [];
        next_run = s.next_run + 1;
      },
    )
    else err no_parent

unfoldable pub update_run : ℕ → (AnalysisRun → AnalysisRun) → Store → Store
update_run id f s = record s { runs = update_rows (λ r. r.id == id) f s.runs }

unfoldable pub complete_run : ℕ → Option ReviewResult → Store → Store
complete_run id result s = update_run id (λ r. record r { status = "done"; result = result }) s

unfoldable pub run_by_key : ℕ → String → String → Store → Option AnalysisRun
run_by_key repo_id kind input_sha s = find (is_run repo_id kind input_sha) s.runs

unfoldable pub restart_run : ℕ → Store → Store
restart_run id s = update_run id (λ r. record r { status = "running"; error = [] }) s

unfoldable pub fail_run : ℕ → Text → Store → Store
fail_run id message s = update_run id (λ r. record r { status = "failed"; error = message }) s
