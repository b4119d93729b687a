-- ===== src/Analysis/Agents/Schedule.antt =====
-- The order in which the reviews finish decides only the order of what is recorded.
use mathlib.Core.List.{Perm}
use arcticworks_codepeer.Base.{
  ℕ, String, ◌+◌, ◌≡◌, ◌≢◌, ◌<◌, refl, sym, ap, ◌∙◌, true, inl, inr, Option, none, some, List, [],
  ◌∷◌, ◌++◌, arith, is_nil, length, append_assoc, append-nil, Bool-cases, subst, length-append,
}
use arcticworks_codepeer.Base.Text.{Text}
use arcticworks_codepeer.Base.Result.{Result, ok, err}
use arcticworks_codepeer.Base.Flat.{flat, flat-perm, sum_of, sum_of-perm}
use arcticworks_codepeer.Domain.{ReviewResult, ReviewRequest, CompileInput}
use arcticworks_codepeer.Analysis.Finish.{ChunkOutcome}
use arcticworks_codepeer.Analysis.Agents.{
  Job, Recorded, nothing_recorded, record_review, run_job, run_jobs, file_paths, conclude_chunks,
  conclude_agents, run_agents, agent_specs, empty_outcome,
}

is_nil-length : {A : Type 0} (xs : List A) → is_nil xs ≡ true → length xs ≡ 0
is_nil-length [] h = refl
is_nil-length (x ∷ xs) h = cc

module _ (review : ReviewRequest → Job → ℕ → Result Text ReviewResult) (base : ReviewRequest) where
  abbrev outcome : Job → Result Text ReviewResult
  outcome = run_job review base

  abbrev ok_results : Result Text ReviewResult → List ReviewResult
  ok_results (ok r) = r ∷ []
  ok_results (err e) = []

  abbrev err_files : Job → Result Text ReviewResult → List Text
  err_files j (ok r) = []
  err_files j (err e) = file_paths j.chunk.files

  abbrev err_count : Result Text ReviewResult → ℕ
  err_count (ok r) = 0
  err_count (err e) = 1

  -- The successful results of the jobs, the files of the others, and the number of those.
  abbrev pub results_of : List Job → List ReviewResult
  results_of = flat (λ j. ok_results (outcome j))

  abbrev pub failed_files_of : List Job → List Text
  failed_files_of = flat (λ j. err_files j (outcome j))

  abbrev pub failed_of : List Job → ℕ
  failed_of = sum_of (λ j. err_count (outcome j))

  record_results :
      (r : Recorded) (j : Job) (o : Result Text ReviewResult)
      → (record_review r j o).results ≡ r.results ++ ok_results o
  unfolding record_review
  record_results r j (ok x) = refl
  record_results r j (err e) = sym (append-nil r.results)

  record_files :
      (r : Recorded) (j : Job) (o : Result Text ReviewResult)
      → (record_review r j o).failed_files ≡ r.failed_files ++ err_files j o
  unfolding record_review
  record_files r j (ok x) = sym (append-nil r.failed_files)
  record_files r j (err e) = refl

  record_failed :
      (r : Recorded) (j : Job) (o : Result Text ReviewResult)
      → (record_review r j o).failed ≡ r.failed + err_count o
  unfolding record_review
  record_failed r j (ok x) = omega arith
  record_failed r j (err e) = refl

  run_jobs-results :
      (r : Recorded) (js : List Job)
      → (run_jobs review base r js).results ≡ r.results ++ results_of js
  unfolding run_jobs
  run_jobs-results r [] = sym (append-nil r.results)
  run_jobs-results r (j ∷ js) =
      run_jobs-results (record_review r j (outcome j)) js
      ∙ ap (λ l. l ++ results_of js) (record_results r j (outcome j))
      ∙ append_assoc r.results (ok_results (outcome j)) (results_of js)

  run_jobs-files :
      (r : Recorded) (js : List Job)
      → (run_jobs review base r js).failed_files ≡ r.failed_files ++ failed_files_of js
  unfolding run_jobs
  run_jobs-files r [] = sym (append-nil r.failed_files)
  run_jobs-files r (j ∷ js) =
      run_jobs-files (record_review r j (outcome j)) js
      ∙ ap (λ l. l ++ failed_files_of js) (record_files r j (outcome j))
      ∙ append_assoc r.failed_files (err_files j (outcome j)) (failed_files_of js)

  run_jobs-failed :
      (r : Recorded) (js : List Job) → (run_jobs review base r js).failed ≡ r.failed + failed_of js
  unfolding run_jobs
  run_jobs-failed r [] = omega arith
  run_jobs-failed r (j ∷ js) =
      omega
        (arith, run_jobs-failed (record_review r j (outcome j)) js, record_failed r j (outcome j))

  -- For every order in which the planned jobs take the lock: the recorded results and failed files are
  -- those of the jobs, up to order, and the count of failures is theirs.
  pub run_jobs-perm :
      (planned order : List Job)
      → Perm order planned
      → let r = run_jobs review base nothing_recorded order in
        Perm r.results (results_of planned)
        × Perm r.failed_files (failed_files_of planned)
        × (r.failed ≡ failed_of planned)
  run_jobs-perm planned order p = (
    subst (λ l. Perm l (results_of planned)) (sym (run_jobs-results nothing_recorded order))
        (flat-perm (λ j. ok_results (outcome j)) p),
    subst (λ l. Perm l (failed_files_of planned)) (sym (run_jobs-files nothing_recorded order))
        (flat-perm (λ j. err_files j (outcome j)) p),
    omega
        (arith, run_jobs-failed nothing_recorded order, sum_of-perm (λ j. err_count (outcome j)) p),
  )

  accounted :
      (r : Recorded) (js : List Job)
      → length (run_jobs review base r js).results + (run_jobs review base r js).failed
        ≡ length r.results + r.failed + length js
  unfolding run_jobs
  accounted r [] = omega arith
  accounted r (j ∷ js) =
      omega (arith, accounted (record_review r j (outcome j)) js, one (outcome j))
    where
      one :
          (o : Result Text ReviewResult)
          → length (record_review r j o).results + (record_review r j o).failed
            ≡ length r.results + r.failed + 1
      one (ok x) = unfold record_review in omega (arith, length-append r.results (x ∷ []))
      one (err e) = unfold record_review in omega arith

  first_error :
      (r : Recorded) (js : List Job)
      → (r.first_err ≢ none → r.failed ≢ 0)
      → ((run_jobs review base r js).first_err ≢ none → (run_jobs review base r js).failed ≢ 0)
  unfolding run_jobs
  first_error r [] h = h
  first_error r (j ∷ js) h = first_error (record_review r j (outcome j)) js (keep (outcome j))
    where
      keep :
          (o : Result Text ReviewResult)
          → (record_review r j o).first_err ≢ none
          → (record_review r j o).failed ≢ 0
      keep (ok x) = unfold record_review in h
      keep (err e) = unfold record_review in λ _. omega arith

  -- Every job that ran is accounted for: an outcome has a result or a failure for each, and an error is
  -- returned only where there were jobs and all of them failed.
  abbrev pub Accounts : List Job → Result Text ChunkOutcome → Type 0
  Accounts order (ok out) = length out.results + out.failed ≡ length order
  Accounts order (err e) = (failed_of order ≡ length order) × (0 < length order)

  empty-Accounts :
      (order : List Job) (r : Recorded)
      → length r.results + r.failed ≡ length order
      → r.failed ≡ failed_of order
      → (r.first_err ≢ none → r.failed ≢ 0)
      → (o : Option Text) → r.first_err ≡ o
      → length r.results ≡ 0
      → Accounts order (empty_outcome r o)
  unfolding empty_outcome
  empty-Accounts order r h f k none q z = h
  empty-Accounts order r h f k (some e) q z =
      let failures : r.failed ≢ 0 = k (λ p. cc) in (omega arith, omega arith)

  conclude-Accounts :
      (compile : CompileInput → Result Text ReviewResult) (order : List Job) (r : Recorded)
      → length r.results + r.failed ≡ length order
      → r.failed ≡ failed_of order
      → (r.first_err ≢ none → r.failed ≢ 0)
      → Accounts order (conclude_chunks r) × Accounts order (conclude_agents compile base r)
  unfolding conclude_chunks conclude_agents
  conclude-Accounts compile order r h f k = elim (Bool-cases (is_nil r.results)) [
    | inl e ↦
        let none_left = empty-Accounts order r h f k r.first_err refl (is_nil-length r.results e) in
        rw e (none_left, none_left)
    | inr e ↦ rw e (h, h)
  ]

  -- For every list of agents and every order of the jobs that ran: an outcome has a result or a
  -- failure for each of these jobs, and an error is returned only if there were jobs and all failed.
  pub run_agents-Accounts :
      (compile : CompileInput → Result Text ReviewResult) (focus : String → Text)
      (agents : List String) (order : List Job)
      → Accounts order (run_agents review compile focus base agents order)
  unfolding run_agents
  run_agents-Accounts compile focus agents order =
      let r = run_jobs review base nothing_recorded order in
      let both =
        conclude-Accounts compile order r (omega (arith, accounted nothing_recorded order))
          (omega (arith, run_jobs-failed nothing_recorded order))
          (first_error nothing_recorded order (λ h. absurd (h refl))) in
      elim (Bool-cases (is_nil (agent_specs focus agents))) [
        | inl e ↦ rw e both.0
        | inr e ↦ rw e both.1
      ]
