-- ===== src/Tests/Queue.antt =====
-- The jobs table with two jobs, one of them claimed.
use arcticworks_codepeer.Base.{
  ℕ, ◌+◌, ◌≡◌, ◌≤◌, ◌<◌, Bool, true, false, some, [], ◌∷◌, Memᴰ, ◌==◌, refl, arith,
}
use arcticworks_codepeer.Base.Text.{codes}
use arcticworks_codepeer.Domain.{JobStatus, job_analyze_pr, job_feedback}
use arcticworks_codepeer.Queue.{
  JobRow, Jobs, new_row, enqueue, dequeue, fail, reschedule, give_up, reap_expired, update_where,
  rescheduled, given_up, claim, is_running, next_row,
}
use arcticworks_codepeer.Queue.Claim.{Claims, dequeue-Claims}
use arcticworks_codepeer.Queue.Retry.{fail_outcome}
use arcticworks_codepeer.Queue.Invariant.{
  State, tried, IsRunning, empty, Reachable, starts, follows, enqueues, dequeues, reaps,
  reschedules, gives_up,
}
use arcticworks_codepeer.Queue.Exhausted.{IsSettled, Reachable-IsSettled}

abbrev pub free : ℕ → Bool
free id = false

abbrev two_jobs : Jobs
two_jobs = enqueue 20 job_feedback (codes "{}") (enqueue 10 job_analyze_pr (codes "{}") empty)

dequeue-Claims_example : Claims free 30 900 two_jobs (dequeue free 30 900 two_jobs)
dequeue-Claims_example = dequeue-Claims free 30 900 two_jobs

abbrev first_job : JobRow
first_job = claim 30 900 (new_row 1 10 job_analyze_pr (codes "{}"))

abbrev second_job : JobRow
second_job = claim 31 900 (new_row 2 20 job_feedback (codes "{}"))

first_claim : (dequeue free 30 900 two_jobs).0 ≡ some first_job
unfolding dequeue enqueue next_row update_where
first_claim = refl

second_claim : (dequeue free 31 900 (dequeue free 30 900 two_jobs).1).0 ≡ some second_job
unfolding dequeue enqueue next_row update_where
second_claim = refl

abbrev running_jobs : Jobs
running_jobs = record { rows = first_job ∷ second_job ∷ []; next_id = 3 }

abbrev pub same_delay : ℕ → ℕ
same_delay d = d

fail_outcome_example :
    (is_running first_job.status ≡ true
      → first_job.attempts < first_job.max_attempts
      → (at : ℕ) × (40 + 800_000_000 ≤ at)
        × (at ≤ 40 + 720_000_000_000)
        × ((fail same_delay 40 1 (codes "down") running_jobs).rows
            ≡ update_where (λ x. x.id == 1) (rescheduled at (codes "down")) running_jobs.rows))
    × (is_running first_job.status ≡ true
        → first_job.max_attempts ≤ first_job.attempts
        → (fail same_delay 40 1 (codes "down") running_jobs).rows
          ≡ update_where (λ x. x.id == 1) (given_up (codes "down")) running_jobs.rows)
    × (is_running first_job.status ≡ false
        → (fail same_delay 40 1 (codes "down") running_jobs).rows ≡ running_jobs.rows)
fail_outcome_example =
    fail_outcome same_delay 40 (codes "down") running_jobs first_job ((λ e. cc, tt), (tt, tt))
      (Memᴰ.head refl) (λ d. (omega arith, omega arith))

-- The first job is claimed, reaped and claimed again until its attempts are used up, and fails then.
abbrev told : State
told = record { jobs = enqueue 10 job_analyze_pr (codes "{}") empty; failing = [] }

abbrev reclaimed : ℕ → State → State
reclaimed now s = record s { jobs = (dequeue free now 5 (reap_expired now s.jobs).0).1 }

reclaimed-Reachable : (now : ℕ) (s : State) → Reachable true s → Reachable true (reclaimed now s)
reclaimed-Reachable now s h =
    follows (follows h (reaps refl now s))
      (dequeues free now 5 (record s { jobs = (reap_expired now s.jobs).0 }))

abbrev used_up : State
used_up = reclaimed 60 (reclaimed 50 (reclaimed 40 (reclaimed 30 (reclaimed 20 told))))

used_up-Reachable : Reachable true used_up
used_up-Reachable = reclaimed-Reachable 60 _ (
    reclaimed-Reachable 50 _ (
      reclaimed-Reachable 40 _ (
        reclaimed-Reachable 30 _ (
          reclaimed-Reachable 20 told
            (follows starts (enqueues 10 job_analyze_pr (codes "{}") _))))))

failed_history : Reachable true (record {
  jobs = give_up 1 (codes "down") (reschedule 70 1 (codes "down") used_up.jobs).1;
  failing = [];
})
unfolding tried reschedule dequeue reap_expired enqueue next_row update_where
failed_history =
    follows (follows used_up-Reachable (reschedules 70 1 (codes "down") used_up (λ e. absurd cc)))
      (gives_up 1 (codes "down") [] [] (reschedule 70 1 (codes "down") used_up.jobs).1)

-- A job is claimed and failed once, without reaping.
abbrev claimed_job : State
claimed_job = record told { jobs = (dequeue free 20 5 told.jobs).1 }

retried :
    Reachable false (tried 1 (codes "down") [] (reschedule 70 1 (codes "down") claimed_job.jobs))
retried =
    follows
      (follows (follows starts (enqueues 10 job_analyze_pr (codes "{}") _))
        (dequeues free 20 5 told))
      (reschedules 70 1 (codes "down") claimed_job (λ e. claimed_runs))
  where
    claimed_runs : IsRunning claimed_job.jobs 1
    claimed_runs = unfold dequeue enqueue next_row update_where in (omega arith, (λ q. refl, tt))

Reachable-IsSettled_example :
    IsSettled false
      (tried 1 (codes "down") [] (reschedule 70 1 (codes "down") claimed_job.jobs)).jobs
Reachable-IsSettled_example = Reachable-IsSettled false retried

-- With reaping, a job that is reaped before the first update of Fail and claimed again before the second is
-- failed with attempts left.
abbrev reaped_job : State
reaped_job = record claimed_job { jobs = (reap_expired 30 claimed_job.jobs).0 }

abbrev failing_job : State
failing_job = tried 1 (codes "down") [] (reschedule 70 1 (codes "down") reaped_job.jobs)

abbrev taken_again : State
taken_again = record failing_job { jobs = (dequeue free 40 900 failing_job.jobs).1 }

failed_early :
    Reachable true (record { jobs = give_up 1 (codes "down") taken_again.jobs; failing = [] })
unfolding tried reschedule dequeue reap_expired enqueue next_row update_where
failed_early =
    follows
      (follows
        (follows
          (follows
            (follows (follows starts (enqueues 10 job_analyze_pr (codes "{}") _))
              (dequeues free 20 5 told))
            (reaps refl 30 claimed_job))
          (reschedules 70 1 (codes "down") reaped_job (λ e. absurd cc)))
        (dequeues free 40 900 failing_job))
      (gives_up 1 (codes "down") [] [] taken_again.jobs)

failed_early_attempts :
    (give_up 1 (codes "down") taken_again.jobs).rows
    ≡ (record (claim 40 900 (new_row 1 10 job_analyze_pr (codes "{}"))) {
      status = JobStatus.failed;
      attempts = 2;
      last_error = some (codes "down");
    })
      ∷ []
unfolding tried reschedule give_up dequeue reap_expired enqueue next_row update_where
failed_early_attempts = refl
