-- ===== src/Webhook/Handlers/Effects.antt =====
-- What a handler changes: the jobs that it queues, and never the deliveries.
use arcticworks_codepeer.Base.{
  ℕ, ◌≤◌, ◌≡◌, refl, ◌∙◌, String, ◌||◌, Option, none, some, inl, inr, List, [], ◌∷◌, arith,
  Bool-cases, length, str_eq, any, ◌==◌,
}
use arcticworks_codepeer.Base.Text.{Text, trim_space, to_lower}
use arcticworks_codepeer.Base.Result.{Result, ok, err}
use arcticworks_codepeer.Base.Action.{resume}
use arcticworks_codepeer.Domain.{
  Repo, Installation, Payload, analyze_pr, analyze_push, feedback, close_pr_issues, issue_command,
  job_analyze_pr, job_analyze_push, job_feedback, job_issue_close, job_issue_cmd,
}
use arcticworks_codepeer.Store.{Store, StoreError}
use arcticworks_codepeer.Store.Repos.{upsert_installation, upsert_repo}
use arcticworks_codepeer.Store.Audit as Log
use arcticworks_codepeer.Queue as Queue
use arcticworks_codepeer.Queue.{Jobs}
use arcticworks_codepeer.Webhook.Events.{
  PullRequestEvent, PushEvent, InstallationEvent, IssueCommentEvent, RepoRef,
  InstallationReposEvent, Json, Server,
}
use arcticworks_codepeer.Webhook.Handlers.{
  Handler, from_self, decoded, settle, upsert_repo_row, upsert_added, on_pull_request, on_push,
  on_installation, on_issue_comment, handle_pull_request, handle_push, handle_installation,
  handle_installation_repos, handle_issue_comment, dispatch, enqueue, audit, analyze_pr_of,
  feedback_of, close_pr_issues_of, analyze_push_of, issue_command_of, added_row, is_open,
  is_activation, is_command,
}

-- The kind under which a payload is queued.
abbrev pub kind_of : Payload → String
kind_of (analyze_pr p) = job_analyze_pr
kind_of (analyze_push p) = job_analyze_push
kind_of (feedback p) = job_feedback
kind_of (close_pr_issues p) = job_issue_close
kind_of (issue_command p) = job_issue_cmd

module _ (json : Json) (self : String) (now : ℕ) where
  abbrev pub enqueue_all : List Payload → Jobs → Jobs
  enqueue_all [] t = t
  enqueue_all (p ∷ ps) t = enqueue_all ps (Queue.enqueue now (kind_of p) (json.encode p) t)

  -- `v'` has the deliveries of `v`, and after its jobs at most two new ones, of matching kinds.
  abbrev pub Queues : Server → Server → Type 0
  Queues v v' =
      (v'.store.deliveries ≡ v.store.deliveries)
      × ((ps : List Payload) × (length ps ≤ 2) × (v'.jobs ≡ enqueue_all ps v.jobs))

  Queues-refl : (v : Server) → Queues v v
  Queues-refl v = (refl, ([], ground arith, refl))

  on_pull_request-Queues :
      (ev : PullRequestEvent) (v : Server) → Queues v ((on_pull_request json self now ev v).1)
  unfolding on_pull_request audit enqueue Log.audit
  on_pull_request-Queues ev v = elim (Bool-cases (from_self self ev.envelope)) [
    | inl e ↦ rw e (Queues-refl v)
    | inr e ↦ rw e (elim (Bool-cases (is_open ev.envelope.action)) [
      | inl f ↦ rw f (refl, (analyze_pr_of ev ∷ [], ground arith, refl))
      | inr f ↦ rw f (elim (Bool-cases (str_eq ev.envelope.action "synchronize")) [
        | inl g ↦ rw g (refl, (analyze_pr_of ev ∷ feedback_of ev ∷ [], ground arith, refl))
        | inr g ↦ rw g (elim (Bool-cases (str_eq ev.envelope.action "closed")) [
          | inl h ↦ rw h (elim (Bool-cases ev.merged) [
            | inl m ↦ rw m (refl, (close_pr_issues_of ev ∷ [], ground arith, refl))
            | inr m ↦ rw m (refl, ([], ground arith, refl))
          ])
          | inr h ↦ rw h (refl, ([], ground arith, refl))
        ])
      ])
    ])
  ]

  on_push-Queues : (ev : PushEvent) (v : Server) → Queues v ((on_push json self now ev v).1)
  unfolding on_push audit enqueue Log.audit
  on_push-Queues ev v = elim (Bool-cases (from_self self ev.envelope)) [
    | inl e ↦ rw e (Queues-refl v)
    | inr e ↦ rw e (elim (Bool-cases (ev.deleted || str_eq ev.before ev.after)) [
      | inl f ↦ rw f (Queues-refl v)
      | inr f ↦ rw f (refl, (analyze_push_of ev ∷ [], ground arith, refl))
    ])
  ]

  on_installation-Queues :
      (ev : InstallationEvent) (v : Server) → Queues v ((on_installation json self now ev v).1)
  unfolding on_installation upsert_installation
  on_installation-Queues ev v = elim (Bool-cases (is_activation ev.action)) [
    | inl e ↦ rw e (ground arith, ([], ground arith, refl))
    | inr e ↦ rw e (Queues-refl v)
  ]

  on_issue_comment-Queues :
      (ev : IssueCommentEvent) (v : Server) → Queues v ((on_issue_comment json self now ev v).1)
  unfolding on_issue_comment audit enqueue Log.audit
  on_issue_comment-Queues ev v =
      let command = to_lower (trim_space ev.body) in
      elim (Bool-cases (str_eq ev.envelope.action "created")) [
        | inr e ↦ rw e (Queues-refl v)
        | inl e ↦ rw e (elim (Bool-cases (from_self self ev.envelope)) [
          | inl f ↦ rw f (Queues-refl v)
          | inr f ↦ rw f (elim (Bool-cases ev.on_pull_request) [
            | inl g ↦ rw g (Queues-refl v)
            | inr g ↦ rw g (elim (Bool-cases (is_command command)) [
              | inl h ↦ rw h (refl, (issue_command_of ev command ∷ [], ground arith, refl))
              | inr h ↦ rw h (Queues-refl v)
            ])
          ])
        ])
      ]

  upsert_repo-deliveries :
      (r : Repo) (s s' : Store) → upsert_repo r s ≡ ok s' → s'.deliveries ≡ s.deliveries
  unfolding upsert_repo
  upsert_repo-deliveries r s s' h =
      elim (Bool-cases (any (λ (i : Installation). i.id == r.installation_id) s.installations)) [
        | inr e ↦ absurd (ground arith)
        | inl e ↦ elim (Bool-cases (any (λ (x : Repo). x.id == r.id) s.repos)) [
          | inl f ↦ ground arith
          | inr f ↦ ground arith
        ]
      ]

  -- The rest of the loop, given that it keeps both.
  abbrev Keeps : Server → Server → Type 0
  Keeps v v' = (v'.store.deliveries ≡ v.store.deliveries) × (v'.jobs ≡ v.jobs)

  settle-Keeps :
      (r : Repo) (rest : Handler) (v : Server) (o : Result StoreError Store)
      → upsert_repo r v.store ≡ o
      → ((w : Server) → Keeps w ((rest w).1))
      → Keeps v ((resume (λ _. rest) (settle v o)).1)
  unfolding settle
  settle-Keeps r rest v (err e) h k = (refl, refl)
  settle-Keeps r rest v (ok s) h k =
      let (same, jobs) = k (record v { store = s }) in
      (same ∙ upsert_repo-deliveries r v.store s h, jobs)

  upsert_added-Keeps :
      (id : ℕ) (added : List RepoRef) (v : Server)
      → Keeps v ((upsert_added json self now id added v).1)
  unfolding upsert_added upsert_repo_row
  upsert_added-Keeps id [] v = (refl, refl)
  upsert_added-Keeps id (r ∷ added) v =
      settle-Keeps (added_row id r) (upsert_added json self now id added) v
        (upsert_repo (added_row id r) v.store) refl (upsert_added-Keeps id added)

  decoded-Queues :
      {A : Type 0} (o : Option A) (rest : A → Handler) (v : Server)
      → ((ev : A) → Queues v ((rest ev v).1))
      → Queues v ((decoded o rest v).1)
  decoded-Queues none rest v h = Queues-refl v
  decoded-Queues (some ev) rest v h = h ev

  repos-Queues :
      (ev : InstallationReposEvent) (v : Server)
      → Queues v ((upsert_added json self now ev.installation_id ev.added v).1)
  repos-Queues ev v =
      let (same, jobs) = upsert_added-Keeps ev.installation_id ev.added v in
      (same, ([], ground arith, jobs))

  -- The handler of every event keeps the deliveries, and queues at most two jobs.
  pub dispatch-Queues :
      (event : String) (body : Text) (v : Server)
      → Queues v ((dispatch json self now event body v).1)
  unfolding dispatch handle_pull_request handle_push handle_installation handle_installation_repos
      handle_issue_comment
  dispatch-Queues event body v = elim (Bool-cases (str_eq event "pull_request")) [
    | inl e ↦ rw e (
        decoded-Queues (json.pull_request body) (on_pull_request json self now) v
          (λ ev. on_pull_request-Queues ev v))
    | inr e ↦ rw e (elim (Bool-cases (str_eq event "push")) [
      | inl f ↦
          rw f
            (decoded-Queues (json.push body) (on_push json self now) v (λ ev. on_push-Queues ev v))
      | inr f ↦ rw f (elim (Bool-cases (str_eq event "installation")) [
        | inl g ↦ rw g (
            decoded-Queues (json.installation body) (on_installation json self now) v
              (λ ev. on_installation-Queues ev v))
        | inr g ↦ rw g (elim (Bool-cases (str_eq event "installation_repositories")) [
          | inl h ↦ rw h (
              decoded-Queues (json.installation_repos body)
                (λ ev. upsert_added json self now ev.installation_id ev.added) v
                (λ ev. repos-Queues ev v))
          | inr h ↦ rw h (elim (Bool-cases (str_eq event "issue_comment")) [
            | inl k ↦ rw k (
                decoded-Queues (json.issue_comment body) (on_issue_comment json self now) v
                  (λ ev. on_issue_comment-Queues ev v))
            | inr k ↦ rw k (Queues-refl v)
          ])
        ])
      ])
    ])
  ]
