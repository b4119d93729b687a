-- ===== src/Analysis/Runs/Recovery.antt =====
-- Which runs are opened a second time.
use arcticworks_codepeer.Base.{
  ℕ, ◌≡◌, refl, ap, ◌∙◌, String, Bool, true, Option, some, inl, inr, List, [], ◌∷◌, arith,
  Bool-cases, str_eq_iff, find, ◌==◌, any,
}
use arcticworks_codepeer.Base.Text.{Text}
use arcticworks_codepeer.Base.Result.{ok, err}
use arcticworks_codepeer.Domain.{AnalysisRun, ReviewResult}
use arcticworks_codepeer.Store.{Store, update_rows, duplicate_run}
use arcticworks_codepeer.Store.Runs.{
  is_run, create_run, run_by_key, update_run, complete_run, fail_run, restart_run,
}
use arcticworks_codepeer.Analysis.Runs.{reopen, recover_run, after_create, open_run}

-- A search that an update of the rows does not disturb finds the updated row.
find-update_rows :
    (p q : AnalysisRun → Bool) (f : AnalysisRun → AnalysisRun) (rows : List AnalysisRun)
    (r : AnalysisRun)
    → ((x : AnalysisRun) → p (f x) ≡ p x)
    → find p rows ≡ some r
    → q r ≡ true
    → (find p (update_rows q f rows) ≡ some (f r)) × (any p (update_rows q f rows) ≡ true)
unfolding update_rows
find-update_rows p q f [] r keeps h k = absurd cc
find-update_rows p q f (x ∷ rows) r keeps h k = elim (Bool-cases (p x)) [
  | inl e ↦
      let same : x ≡ r = ground arith in
      let hit : q x ≡ true = rw same k in (ground (arith, keeps x), ground (arith, keeps x))
  | inr e ↦
      let (a, b) = find-update_rows p q f rows r keeps (ground arith) k in
      elim (Bool-cases (q x)) [
        | inl t ↦ (ground (arith, keeps x), ground (arith, keeps x))
        | inr t ↦ (ground arith, ground arith)
      ]
]

module _ (repo_id : ℕ) (kind sha : String) (s : Store) (r : AnalysisRun)
    (h : run_by_key repo_id kind sha s ≡ some r) where
  updated :
      (f : AnalysisRun → AnalysisRun)
      → ((x : AnalysisRun) → is_run repo_id kind sha (f x) ≡ is_run repo_id kind sha x)
      → (run_by_key repo_id kind sha (update_run r.id f s) ≡ some (f r))
        × (any (is_run repo_id kind sha) (update_run r.id f s).runs ≡ true)
  unfolding run_by_key update_run
  updated f keeps =
      find-update_rows (is_run repo_id kind sha) (λ x. x.id == r.id) f s.runs r keeps h
        (ground arith)

module _ (repo_id : ℕ) (kind sha : String) (s : Store) (r : AnalysisRun)
    (h : run_by_key repo_id kind sha s ≡ some r) where
  completed :
      (result : Option ReviewResult)
      → run_by_key repo_id kind sha (complete_run r.id result s)
        ≡ some (record r { status = "done"; result = result })
  unfolding complete_run
  completed result =
      (updated repo_id kind sha s r h (λ x. record x { status = "done"; result = result })
        (λ x. refl)).0

  failed :
      (message : Text)
      → run_by_key repo_id kind sha (fail_run r.id message s)
        ≡ some (record r { status = "failed"; error = message })
  unfolding fail_run
  failed message =
      (updated repo_id kind sha s r h (λ x. record x { status = "failed"; error = message })
        (λ x. refl)).0

find-any :
    (p : AnalysisRun → Bool) (rows : List AnalysisRun) (r : AnalysisRun)
    → find p rows ≡ some r
    → any p rows ≡ true
find-any p [] r h = absurd cc
find-any p (x ∷ rows) r h = ground (arith, find-any p rows r)

create_run-duplicate :
    (repo_id : ℕ) (kind sha : String) (pr_number : Option ℕ) (s : Store) (r : AnalysisRun)
    → run_by_key repo_id kind sha s ≡ some r
    → create_run repo_id kind sha pr_number s ≡ err duplicate_run
unfolding create_run run_by_key
create_run-duplicate repo_id kind sha pr_number s r h =
    ground (arith, find-any (is_run repo_id kind sha) s.runs r h)

-- With a run of the key, the pass goes by the status of this run.
open_run-reopen :
    (repo_id : ℕ) (kind sha : String) (pr_number : Option ℕ) (s : Store) (r : AnalysisRun)
    → run_by_key repo_id kind sha s ≡ some r
    → open_run repo_id kind sha pr_number s ≡ ok (reopen (some r) s)
open_run-reopen repo_id kind sha pr_number s r h =
    unfold open_run in
    (ap (after_create repo_id kind sha s) (create_run-duplicate repo_id kind sha pr_number s r h)
      ∙ (unfold after_create recover_run in ap (λ o. ok (reopen o s)) h))

reopen-done :
    (r : AnalysisRun) (result : Option ReviewResult) (s : Store)
    → reopen (some (record r { status = "done"; result = result })) s ≡ (0, s)
unfolding reopen
reopen-done r result s = ground (arith, str_eq_iff "done" "done")

reopen-failed :
    (r : AnalysisRun) (message : Text) (s : Store)
    → reopen (some (record r { status = "failed"; error = message })) s ≡ (0, s)
unfolding reopen
reopen-failed r message s = ground (arith, str_eq_iff "failed" "failed")

reopen-running :
    (r : AnalysisRun) (s : Store)
    → r.status ≡ "running"
    → reopen (some r) s ≡ (r.id, restart_run r.id s)
unfolding reopen
reopen-running r s e = ground (
  arith,
  str_eq_iff r.status "done",
  str_eq_iff r.status "failed",
  str_eq_iff "running" "done",
  str_eq_iff "running" "failed",
)

module _ (repo_id : ℕ) (kind sha : String) (pr_number : Option ℕ) (s : Store) (r : AnalysisRun)
    (h : run_by_key repo_id kind sha s ≡ some r) where
  -- For a key that has a run: once the run is completed or has failed, a pass for the key is skipped and
  -- changes nothing; while the run has the status "running", a pass for the key restarts this run and
  -- uses its number.
  pub open_run_outcomes :
      ((result : Option ReviewResult)
        → open_run repo_id kind sha pr_number (complete_run r.id result s)
          ≡ ok (0, complete_run r.id result s))
      × ((message : Text)
          → open_run repo_id kind sha pr_number (fail_run r.id message s)
            ≡ ok (0, fail_run r.id message s))
      × (r.status ≡ "running"
          → open_run repo_id kind sha pr_number s ≡ ok (r.id, restart_run r.id s))
  open_run_outcomes = (
    λ result.
        open_run-reopen repo_id kind sha pr_number _ _ (completed repo_id kind sha s r h result)
        ∙ ap ok (reopen-done r result _),
    λ message.
        open_run-reopen repo_id kind sha pr_number _ _ (failed repo_id kind sha s r h message)
        ∙ ap ok (reopen-failed r message _),
    λ e. open_run-reopen repo_id kind sha pr_number s r h ∙ ap ok (reopen-running r s e),
  )
