-- ===== src/App/Invariant.antt =====
-- The jobs over all histories of the program: the jobs table is consistent, it has at most two jobs for
-- each accepted request, and each job is a payload that the webhook handler encoded.
use arcticworks_codepeer.Base.{
  ℕ, ◌+◌, ◌*◌, ◌≤◌, ◌≡◌, refl, subst, String, Bool, true, false, Option, none, some, inl, inr, List,
  [], ◌∷◌, arith, Bool-cases, All, All-around, All-replace, ◌++◌, length, leb,
}
use arcticworks_codepeer.Base.Text.{Text}
use arcticworks_codepeer.Domain.{Payload}
use arcticworks_codepeer.Queue as Queue
use arcticworks_codepeer.Queue.{JobRow, Jobs, dequeue, complete, reschedule, give_up, reap_expired}
use arcticworks_codepeer.Queue.Invariant as History
use arcticworks_codepeer.Queue.Invariant.{
  IsConsistent, enqueue-IsConsistent, dequeue-IsConsistent, complete-IsConsistent,
  reschedule-IsConsistent, give_up-IsConsistent, reap_expired-IsConsistent, Reachable-IsConsistent,
}
use arcticworks_codepeer.Queue.Kept.{
  Returns, dequeue-next_id, enqueue-All, dequeue-All, complete-All, reschedule-All, give_up-All,
  reap_expired-All,
}
use arcticworks_codepeer.Webhook.{Json, Server}
use arcticworks_codepeer.Webhook.Signature.{verify_signature}
use arcticworks_codepeer.Webhook.Handlers.Effects.{kind_of, enqueue_all}
use arcticworks_codepeer.Webhook.Receive.{Request, max_body_bytes, handle_webhook}
use arcticworks_codepeer.Webhook.Once.{is_known, handle_webhook_effects, record_delivery-known}
use arcticworks_codepeer.Base.Result.{Result, ok, err}
use arcticworks_codepeer.Worker.Dispatch.{Parts, WorkError, dispatch}
use arcticworks_codepeer.App.{
  App, Hand, at_work, failing, taken, take_job, tried, closed, finished, finish_job, give_up_job,
  site_of, reap, sync, receive, is_accepted, heard, Step, takes, finishes, gives_up, reaps, syncs,
  Reachable, starts, receives, follows,
}

-- A job as the webhook handler queues it.
abbrev pub IsQueued : Json → String → Text → Type 0
IsQueued json kind payload = (p : Payload) × (kind ≡ kind_of p) × (payload ≡ json.encode p)

abbrev pub Queued : Json → JobRow → Type 0
Queued json r = IsQueued json r.kind r.payload

abbrev pub Holds : Json → Hand → Type 0
Holds json h = Queued json h.job

-- What holds of the table and the jobs in hand, with `n` requests accepted.
pub record IsSafe (json : Json) (reaping : Bool) (n : ℕ) (t : Jobs) (hands : List Hand)
    : Type 0 where
  pub consistent : IsConsistent reaping t
  pub counted : t.next_id ≤ 1 + 2 * n
  pub queued : All (Queued json) t.rows
  pub held : All (Holds json) hands

module _ (json : Json) (self : String) (now : ℕ) (reaping : Bool) where
  enqueue_all-IsConsistent :
      (ps : List Payload) (t : Jobs)
      → IsConsistent reaping t
      → IsConsistent reaping (enqueue_all json self now ps t)
  enqueue_all-IsConsistent [] t c = c
  enqueue_all-IsConsistent (p ∷ ps) t c =
      enqueue_all-IsConsistent ps (Queue.enqueue now (kind_of p) (json.encode p) t)
        (enqueue-IsConsistent reaping now (kind_of p) (json.encode p) t c)

  enqueue_all-Queued :
      (ps : List Payload) (t : Jobs)
      → All (Queued json) t.rows
      → All (Queued json) (enqueue_all json self now ps t).rows
  enqueue_all-Queued [] t c = c
  enqueue_all-Queued (p ∷ ps) t c =
      enqueue_all-Queued ps (Queue.enqueue now (kind_of p) (json.encode p) t)
        (enqueue-All (IsQueued json) now (kind_of p) (json.encode p) t (p, refl, refl) c)

  enqueue-next_id :
      (kind : String) (payload : Text) (t : Jobs)
      → (Queue.enqueue now kind payload t).next_id ≡ t.next_id + 1
  unfolding Queue.enqueue
  enqueue-next_id kind payload t = refl

  enqueue_all-next_id :
      (ps : List Payload) (t : Jobs)
      → (enqueue_all json self now ps t).next_id ≡ t.next_id + length ps
  enqueue_all-next_id [] t = omega arith
  enqueue_all-next_id (p ∷ ps) t = omega (
    arith,
    enqueue_all-next_id ps (Queue.enqueue now (kind_of p) (json.encode p) t),
    enqueue-next_id (kind_of p) (json.encode p) t,
  )

module _ (json : Json) (reaping : Bool) (n : ℕ) where
  taken-IsSafe :
      (app : App) (o : Option JobRow × Jobs)
      → IsConsistent reaping o.1
      → o.1.next_id ≤ 1 + 2 * n
      → Returns (Queued json) o.0
      → All (Queued json) o.1.rows
      → All (Holds json) app.hands
      → IsSafe json reaping n (taken app o).server.jobs (taken app o).hands
  unfolding taken
  taken-IsSafe app (none, t) c k q rows held = record {
    consistent = c;
    counted = k;
    queued = rows;
    held = held;
  }
  taken-IsSafe app (some j, t) c k q rows held = record {
    consistent = c;
    counted = k;
    queued = rows;
    held = (q, held);
  }

  abbrev AppIsSafe : App → Type 0
  AppIsSafe app = IsSafe json reaping n app.server.jobs app.hands

  take_job-IsSafe :
      (locked : ℕ → Bool) (now ttl : ℕ) (app : App)
      → AppIsSafe app
      → AppIsSafe (take_job locked now ttl app)
  unfolding take_job
  take_job-IsSafe locked now ttl app s =
      let t = app.server.jobs in
      let (q, rows) = dequeue-All (IsQueued json) locked now ttl t s.queued in
      taken-IsSafe app (dequeue locked now ttl t)
        (dequeue-IsConsistent reaping locked now ttl t s.consistent)
        (omega (arith, s.counted, dequeue-next_id locked now ttl t)) q rows s.held

  completed-IsSafe :
      (id : ℕ) (t : Jobs) (hands : List Hand)
      → IsSafe json reaping n t hands
      → IsSafe json reaping n (complete id t) hands
  completed-IsSafe id t hands s = record {
    consistent = complete-IsConsistent reaping id t s.consistent;
    counted = unfold complete in s.counted;
    queued = complete-All (IsQueued json) id t s.queued;
    held = s.held;
  }

  rescheduled-IsSafe :
      (at id : ℕ) (message : Text) (t : Jobs) (hands : List Hand)
      → IsSafe json reaping n t hands
      → IsSafe json reaping n (reschedule at id message t).1 hands
  rescheduled-IsSafe at id message t hands s = record {
    consistent = reschedule-IsConsistent reaping at id message t s.consistent;
    counted = unfold reschedule in s.counted;
    queued = reschedule-All (IsQueued json) at id message t s.queued;
    held = s.held;
  }

  given_up-IsSafe :
      (id : ℕ) (message : Text) (t : Jobs) (hands : List Hand)
      → IsSafe json reaping n t hands
      → IsSafe json reaping n (give_up id message t) hands
  given_up-IsSafe id message t hands s = record {
    consistent = give_up-IsConsistent reaping id message t s.consistent;
    counted = unfold give_up in s.counted;
    queued = give_up-All (IsQueued json) id message t s.queued;
    held = s.held;
  }

  reaped-IsSafe :
      (now : ℕ) (t : Jobs) (hands : List Hand)
      → reaping ≡ true
      → IsSafe json reaping n t hands
      → IsSafe json reaping n (reap_expired now t).0 hands
  reaped-IsSafe now t hands e s = record {
    consistent = reap_expired-IsConsistent reaping now t e s.consistent;
    counted = unfold reap_expired in s.counted;
    queued = reap_expired-All (IsQueued json) now t s.queued;
    held = s.held;
  }

  fewer-IsSafe :
      (h : Hand) (before after : List Hand) (t : Jobs)
      → IsSafe json reaping n t (before ++ h ∷ after)
      → IsSafe json reaping n t (before ++ after)
  fewer-IsSafe h before after t s = record {
    consistent = s.consistent;
    counted = s.counted;
    queued = s.queued;
    held = All-around (Holds json) before h after s.held;
  }

  tried-IsSafe :
      (j : JobRow) (message : Text) (before after : List Hand) (o : Bool × Jobs)
      → IsSafe json reaping n o.1 (before ++ at_work j ∷ after)
      → let (hands, t) = tried j message before after o in IsSafe json reaping n t hands
  unfolding tried
  tried-IsSafe j message before after (true, t) s = fewer-IsSafe (at_work j) before after t s
  tried-IsSafe j message before after (false, t) s = record {
    consistent = s.consistent;
    counted = s.counted;
    queued = s.queued;
    held = All-replace (Holds json) before (at_work j) (failing j message) after (λ q. q) s.held;
  }

  closed-IsSafe :
      (describe : WorkError → Text) (at : ℕ) (j : JobRow) (before after : List Hand) (t : Jobs)
      (r : Result WorkError (Unit {0}))
      → IsSafe json reaping n t (before ++ at_work j ∷ after)
      → let (hands, t') = closed describe at j before after t r in IsSafe json reaping n t' hands
  unfolding closed
  closed-IsSafe describe at j before after t (ok done) s =
      completed-IsSafe j.id t (before ++ after) (fewer-IsSafe (at_work j) before after t s)
  closed-IsSafe describe at j before after t (err e) s =
      tried-IsSafe j (describe e) before after (reschedule at j.id (describe e) t)
        (rescheduled-IsSafe at j.id (describe e) t (before ++ at_work j ∷ after) s)

  finish_job-IsSafe :
      (describe : WorkError → Text) (at : ℕ) (parts : Parts) (j : JobRow) (before after : List Hand)
      (app : App)
      → app.hands ≡ before ++ at_work j ∷ after
      → AppIsSafe app
      → AppIsSafe (finish_job describe at parts j before after app)
  unfolding finish_job finished
  finish_job-IsSafe describe at parts j before after app e s =
      closed-IsSafe describe at j before after app.server.jobs
        (dispatch parts j.kind j.payload (site_of app)).0
        (subst (IsSafe json reaping n app.server.jobs) e s)

  give_up_job-IsSafe :
      (j : JobRow) (message : Text) (before after : List Hand) (app : App)
      → app.hands ≡ before ++ failing j message ∷ after
      → AppIsSafe app
      → AppIsSafe (give_up_job j message before after app)
  unfolding give_up_job
  give_up_job-IsSafe j message before after app e s =
      given_up-IsSafe j.id message app.server.jobs (before ++ after) (
        fewer-IsSafe (failing j message) before after app.server.jobs
          (subst (IsSafe json reaping n app.server.jobs) e s))

  Step-IsSafe : {app app' : App} → Step reaping app app' → AppIsSafe app → AppIsSafe app'
  Step-IsSafe (takes locked now ttl app) s = take_job-IsSafe locked now ttl app s
  Step-IsSafe (finishes describe at parts j before after app e) s =
      finish_job-IsSafe describe at parts j before after app e s
  Step-IsSafe (gives_up j message before after app e) s =
      give_up_job-IsSafe j message before after app e s
  Step-IsSafe (reaps e now app) s = unfold reap in reaped-IsSafe now app.server.jobs app.hands e s
  Step-IsSafe (syncs listed app) s = unfold sync in s

module _ (hmac : Text → Text → Text) (secret : Text) (json : Json) (self : String)
    (reaping : Bool) where
  refused :
      (now : ℕ) (r : Request) (v : Server)
      → is_accepted hmac secret json self r v.store ≡ false
      → (handle_webhook hmac secret json self now r v).1 ≡ v
  unfolding handle_webhook
  refused now r v h = elim (Bool-cases (leb (length r.body) max_body_bytes)) [
    | inr e ↦ rw e refl
    | inl e ↦ elim (Bool-cases (verify_signature hmac secret r.body r.signature)) [
      | inr f ↦ rw (e, f) refl
      | inl f ↦ elim (Bool-cases (is_known r.delivery v.store)) [
        | inl g ↦ rw (e, f, record_delivery-known r.delivery v.store g) refl
        | inr g ↦ absurd (ground (arith, h))
      ]
    ]
  ]

  abbrev LogIsSafe : List Request → Server → List Hand → Type 0
  LogIsSafe log v hands = IsSafe json reaping (length log) v.jobs hands

  accepted-IsSafe :
      (now : ℕ) (r : Request) (log : List Request) (v : Server) (hands : List Hand)
      → LogIsSafe log v hands
      → LogIsSafe (r ∷ log) (handle_webhook hmac secret json self now r v).1 hands
  accepted-IsSafe now r log v hands s =
      let (ps, few, jobs) = (handle_webhook_effects hmac secret json self now r v).0 in
      rw jobs (record {
        consistent = enqueue_all-IsConsistent json self now reaping ps v.jobs s.consistent;
        counted = omega (arith, s.counted, enqueue_all-next_id json self now reaping ps v.jobs);
        queued = enqueue_all-Queued json self now reaping ps v.jobs s.queued;
        held = s.held;
      })

  receive-IsSafe :
      (now : ℕ) (r : Request) (log : List Request) (app : App)
      → LogIsSafe log app.server app.hands
      → LogIsSafe
          (heard hmac secret json self r app.server.store log)
          (receive hmac secret json self now r app).server
          (receive hmac secret json self now r app).hands
  unfolding receive
  receive-IsSafe now r log app s =
      elim (Bool-cases (is_accepted hmac secret json self r app.server.store)) [
        | inl e ↦ rw e (accepted-IsSafe now r log app.server app.hands s)
        | inr e ↦ rw (e, refused now r app.server e) s
      ]

  -- In every history of the program, for any requests, jobs and interleaving, with or without reaping:
  -- the identifiers in the jobs table are distinct, and a running job has a lease and at least one
  -- attempt; without reaping no job has more attempts than its maximum, and a pending one has fewer; the table was
  -- given at most two jobs for each accepted request; and each job
  -- in it or in a worker's hands has a payload that the webhook handler encoded, under the kind of it.
  pub Reachable-IsSafe :
      {log : List Request} {app : App}
      → Reachable hmac secret json self reaping log app
      → IsSafe json reaping (length log) app.server.jobs app.hands
  Reachable-IsSafe (starts s cache) = record {
    consistent = Reachable-IsConsistent reaping History.starts;
    counted = omega arith;
    queued = tt;
    held = tt;
  }
  Reachable-IsSafe (receives {log} {app} h now r) =
      receive-IsSafe now r log app (Reachable-IsSafe h)
  Reachable-IsSafe (follows {log} h step) =
      Step-IsSafe json reaping (length log) step (Reachable-IsSafe h)
