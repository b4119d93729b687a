-- ===== src/Analysis/Runs/Opened.antt =====
-- The number of an opened run, and the rows of a stored result.
use arcticworks_codepeer.Base.{
  ℕ, ◌≤◌, ◌≡◌, refl, subst, String, Bool, ◌||◌, Option, none, some, inl, inr, List, [], ◌∷◌, arith,
  Bool-cases, str_eq, ◌==◌, any, All, find,
}
use arcticworks_codepeer.Base.Result.{Result, ok, err}
use arcticworks_codepeer.Domain.{AnalysisRun, FindingRecord, ReviewResult, Finding, Repo}
use arcticworks_codepeer.Store.{Store, StoreError}
use arcticworks_codepeer.Store.Runs.{is_run, create_run, run_by_key}
use arcticworks_codepeer.Store.Findings.{findings_for_run}
use arcticworks_codepeer.Analysis.Runs.{
  reopen, recover_run, after_create, open_run, saved_findings, store_result,
}

-- The sequence of the runs starts at one.
abbrev pub IsNumbered : Store → Type 0
IsNumbered s = (1 ≤ s.next_run) × All (λ r. 1 ≤ r.id) s.runs

-- Only an opened run has a number that is not zero.
abbrev pub Opens : Store → Result StoreError (ℕ × Store) → Type 0
Opens s (err e) = Unit
Opens s (ok (run_id, s')) = run_id ≡ 0 → s' ≡ s

reopen-Opens :
    (o : Option AnalysisRun) (s : Store)
    → ((r : AnalysisRun) → o ≡ some r → 1 ≤ r.id)
    → Opens s (ok (reopen o s))
unfolding reopen
reopen-Opens none s h e = refl
reopen-Opens (some r) s h e =
    let positive = h r refl in
    elim (Bool-cases (str_eq r.status "done" || str_eq r.status "failed")) [
      | inl d ↦ ground arith
      | inr d ↦ absurd (ground arith)
    ]

find-positive :
    (p : AnalysisRun → Bool) (rows : List AnalysisRun) (r : AnalysisRun)
    → All (λ x. 1 ≤ x.id) rows
    → find p rows ≡ some r
    → 1 ≤ r.id
find-positive p [] r h e = absurd cc
find-positive p (x ∷ rows) r h e = elim (Bool-cases (p x)) [
  | inl k ↦ let same : x ≡ r = ground arith in subst (λ (y : AnalysisRun). 1 ≤ y.id) same h.0
  | inr k ↦ find-positive p rows r h.1 (ground arith)
]

create_run-positive :
    (repo_id : ℕ) (kind sha : String) (pr_number : Option ℕ) (s s' : Store) (id : ℕ)
    → 1 ≤ s.next_run
    → create_run repo_id kind sha pr_number s ≡ ok (id, s')
    → 1 ≤ id
unfolding create_run
create_run-positive repo_id kind sha pr_number s s' id h e =
    elim (Bool-cases (any (is_run repo_id kind sha) s.runs)) [
      | inl k ↦ absurd (ground arith)
      | inr k ↦ elim (Bool-cases (any (λ (x : Repo). x.id == repo_id) s.repos)) [
        | inl f ↦ ground arith
        | inr f ↦ absurd (ground arith)
      ]
    ]

after_create-Opens :
    (repo_id : ℕ) (kind sha : String) (s : Store) (o : Result StoreError (ℕ × Store))
    → IsNumbered s
    → ((id : ℕ) (s' : Store) → o ≡ ok (id, s') → 1 ≤ id)
    → Opens s (after_create repo_id kind sha s o)
unfolding after_create recover_run run_by_key
after_create-Opens repo_id kind sha s (ok (id, s')) n h =
    λ z. absurd (let k = h id s' refl in omega arith)
after_create-Opens repo_id kind sha s (err StoreError.duplicate_run) n h =
    reopen-Opens (find (is_run repo_id kind sha) s.runs) s
      (λ r e. find-positive (is_run repo_id kind sha) s.runs r n.1 e)
after_create-Opens repo_id kind sha s (err StoreError.no_parent) n h = tt
after_create-Opens repo_id kind sha s (err StoreError.no_rows) n h = tt

pub open_run-Opens :
    (repo_id : ℕ) (kind sha : String) (pr_number : Option ℕ) (s : Store)
    → IsNumbered s
    → Opens s (open_run repo_id kind sha pr_number s)
unfolding open_run
open_run-Opens repo_id kind sha pr_number s n =
    after_create-Opens repo_id kind sha s (create_run repo_id kind sha pr_number s) n
      (λ id s' e. create_run-positive repo_id kind sha pr_number s s' id n.0 e)

-- The rows that are returned are those of the run in the store.
abbrev pub ReturnsRows : ℕ → Result StoreError (List FindingRecord) × Store → Type 0
ReturnsRows run_id (err e, s) = Unit
ReturnsRows run_id (ok rows, s) = rows ≡ findings_for_run run_id s

saved_findings-ReturnsRows :
    (run_id : ℕ) (s : Store) (o : Result StoreError Store)
    → ReturnsRows run_id (saved_findings run_id s o)
unfolding saved_findings
saved_findings-ReturnsRows run_id s (err e) = tt
saved_findings-ReturnsRows run_id s (ok s') = refl

pub store_result-ReturnsRows :
    (run_id : ℕ) (result : ReviewResult) (hash : Finding → String) (s : Store)
    → ReturnsRows run_id (store_result run_id result hash s)
unfolding store_result
store_result-ReturnsRows run_id result hash s = saved_findings-ReturnsRows run_id _ _
