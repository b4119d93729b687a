-- ===== src/App/Hands.antt =====
-- The jobs in the workers' hands: where leases are not reaped, no two workers have the same job.
use arcticworks_codepeer.Base.{
  ℕ, ◌<◌, ◌≡◌, ◌≢◌, refl, sym, ap, subst, ◌∙◌, String, Bool, true, false, Option, none, some, inl,
  inr, List, [], ◌∷◌, arith, Bool-cases, All, All-append, All-filter, All-mem, All-weaken,
  All-trivial, Pairs, Pairs-around, Pairs-others, Pairs-replace, All-around, All-replace, Memᴰ,
  ◌==◌, ◌++◌, any,
}
use arcticworks_codepeer.Base.Text.{Text}
use arcticworks_codepeer.Domain.{Payload}
use arcticworks_codepeer.Queue as Queue
use arcticworks_codepeer.Queue.{
  JobRow, Jobs, is_running, claim, update_where, dequeue, complete, can_retry, rescheduled,
  reschedule, give_up,
}
use arcticworks_codepeer.Queue.Rows.{update_where-All, update_where_none, any-false}
use arcticworks_codepeer.Queue.Invariant.{IsRunning}
use arcticworks_codepeer.Queue.Claim.{Claims, dequeue-Claims}
use arcticworks_codepeer.Queue.Kept.{dequeue-next_id, reschedule-All_of, give_up-All_of}
use arcticworks_codepeer.Webhook.{Json, Server}
use arcticworks_codepeer.Webhook.Handlers.Effects.{kind_of, enqueue_all}
use arcticworks_codepeer.Webhook.Receive.{Request, handle_webhook}
use arcticworks_codepeer.Webhook.Once.{handle_webhook_effects}
use arcticworks_codepeer.Base.Result.{Result, ok, err}
use arcticworks_codepeer.Worker.Dispatch.{Parts, WorkError, dispatch}
use arcticworks_codepeer.App.{
  App, Hand, at_work, failing, taken, take_job, tried, closed, finished, finish_job, give_up_job,
  site_of, sync, receive, Step, takes, finishes, gives_up, reaps, syncs, Reachable, starts,
  receives, follows,
}
use arcticworks_codepeer.App.Invariant.{Reachable-IsSafe}

-- The jobs in hand are different ones, and their rows are running.
pub record IsExclusive (t : Jobs) (hands : List Hand) : Type 0 where
  pub distinct : Pairs (λ a b. a.job.id ≢ b.job.id) hands
  pub running : All (λ h. IsRunning t h.job.id) hands

-- A claim makes its row run, and leaves the others.
claimed_rows :
    (now ttl id : ℕ) (rows : List JobRow)
    → All
        (λ x. x.id ≡ id → is_running x.status ≡ true)
        (update_where (λ x. x.id == id) (claim now ttl) rows)
unfolding update_where
claimed_rows now ttl id [] = tt
claimed_rows now ttl id (x ∷ rows) = elim (Bool-cases (x.id == id)) [
  | inl e ↦ rw e (λ q. refl, claimed_rows now ttl id rows)
  | inr e ↦ rw e (λ q. absurd (ground arith), claimed_rows now ttl id rows)
]

module _ (hands : List Hand) where
  enqueue-IsExclusive :
      (now : ℕ) (kind : String) (payload : Text) (t : Jobs)
      → IsExclusive t hands
      → IsExclusive (Queue.enqueue now kind payload t) hands
  unfolding Queue.enqueue
  enqueue-IsExclusive now kind payload t v = record {
    distinct = v.distinct;
    running =
        All-weaken _ _
          (λ h (known, rows).
            (omega arith, All-append _ t.rows _ rows (λ e. absurd (omega arith), tt)))
          hands v.running;
  }

  enqueue_all-IsExclusive :
      (json : Json) (self : String) (now : ℕ) (ps : List Payload) (t : Jobs)
      → IsExclusive t hands
      → IsExclusive (enqueue_all json self now ps t) hands
  enqueue_all-IsExclusive json self now [] t v = v
  enqueue_all-IsExclusive json self now (p ∷ ps) t v =
      enqueue_all-IsExclusive json self now ps (Queue.enqueue now (kind_of p) (json.encode p) t)
        (enqueue-IsExclusive now (kind_of p) (json.encode p) t v)

  receive-IsExclusive :
      (hmac : Text → Text → Text) (secret : Text) (json : Json) (self : String) (now : ℕ)
      (r : Request) (v : Server)
      → IsExclusive v.jobs hands
      → IsExclusive (handle_webhook hmac secret json self now r v).1.jobs hands
  receive-IsExclusive hmac secret json self now r v x =
      let (ps, few, jobs) = (handle_webhook_effects hmac secret json self now r v).0 in
      rw jobs (enqueue_all-IsExclusive json self now ps v.jobs x)

  take_runs :
      (now ttl : ℕ) (t t' : Jobs) (r : JobRow)
      → t'.rows ≡ update_where (λ x. x.id == r.id) (claim now ttl) t.rows
      → t'.next_id ≡ t.next_id
      → IsExclusive t hands
      → All (λ h. IsRunning t' h.job.id) hands
  take_runs now ttl t t' r e k v =
      All-weaken _ _
        (λ h (known, rows). (
          omega arith,
          subst (All (λ x. x.id ≡ h.job.id → is_running x.status ≡ true)) (sym e) (
              update_where-All (λ x. x.id ≡ h.job.id → is_running x.status ≡ true) _ (claim now ttl)
                t.rows rows (All-trivial _ t.rows (λ x c s q. refl))),
        ))
        hands v.running

  -- A job that can run is in no worker's hands.
  free_job :
      (t : Jobs) (r : JobRow)
      → Memᴰ r t.rows
      → is_running r.status ≡ false
      → IsExclusive t hands
      → All (λ h. r.id ≢ h.job.id) hands
  free_job t r m free v =
      All-weaken _ _
        (λ h (known, rows) same.
          cc (All-mem (λ x. x.id ≡ h.job.id → is_running x.status ≡ true) t.rows rows m same))
        hands v.running

taken_row :
    (now ttl : ℕ) (t t' : Jobs) (r j : JobRow)
    → Memᴰ r t.rows
    → j ≡ claim now ttl r
    → t'.rows ≡ update_where (λ x. x.id == r.id) (claim now ttl) t.rows
    → t'.next_id ≡ t.next_id
    → All (λ x. x.id < t.next_id) t.rows
    → IsRunning t' j.id
taken_row now ttl t t' r j m same rows k known =
    let e : j.id ≡ r.id = ap (λ x. x.id) same in
    (
      omega (arith, All-mem (λ x. x.id < t.next_id) t.rows known m),
      rw (e, rows) (claimed_rows now ttl r.id t.rows),
    )

taken-IsExclusive :
    (locked : ℕ → Bool) (now ttl : ℕ) (app : App) (o : Option JobRow × Jobs)
    → Claims locked now ttl app.server.jobs o
    → o.1.next_id ≡ app.server.jobs.next_id
    → All (λ r. r.id < app.server.jobs.next_id) app.server.jobs.rows
    → IsExclusive app.server.jobs app.hands
    → IsExclusive (taken app o).server.jobs (taken app o).hands
unfolding taken
taken-IsExclusive locked now ttl app (none, t) c k known v =
    subst (λ x. IsExclusive x app.hands) (sym c.1) v
taken-IsExclusive locked now ttl app (some j, t) (r, (m, can, first), same, rows) k known v =
    let free : is_running r.status ≡ false = ground arith in
    let e : r.id ≡ j.id = sym (ap (λ x. x.id) same) in
    record {
      distinct = (
        subst (λ n. All (λ h. n ≢ h.job.id) app.hands) e
            (free_job app.hands app.server.jobs r m free v),
        v.distinct,
      );
      running = (
        taken_row now ttl app.server.jobs t r j m same rows k known,
        take_runs app.hands now ttl app.server.jobs t r rows k v,
      );
    }

-- What runs in one table runs in another one that keeps the other jobs' rows running.
others_run :
    (id : ℕ) (t t' : Jobs) (hands : List Hand)
    → t'.next_id ≡ t.next_id
    → ((i : ℕ)
        → i ≢ id
        → All (λ r. r.id ≡ i → is_running r.status ≡ true) t.rows
        → All (λ r. r.id ≡ i → is_running r.status ≡ true) t'.rows)
    → All (λ h. id ≢ h.job.id) hands
    → All (λ h. IsRunning t h.job.id) hands
    → All (λ h. IsRunning t' h.job.id) hands
others_run id t t' [] k keeps d r = tt
others_run id t t' (h ∷ hands) k keeps d r = (
  (omega (arith, r.0.0), keeps h.job.id (λ q. d.0 (sym q)) r.0.1),
  others_run id t t' hands k keeps d.1 r.1,
)

-- A job that is let go of leaves the other jobs in hand as they are.
let_go-IsExclusive :
    (h : Hand) (t t' : Jobs) (before after : List Hand)
    → t'.next_id ≡ t.next_id
    → ((i : ℕ)
        → i ≢ h.job.id
        → All (λ r. r.id ≡ i → is_running r.status ≡ true) t.rows
        → All (λ r. r.id ≡ i → is_running r.status ≡ true) t'.rows)
    → IsExclusive t (before ++ h ∷ after)
    → IsExclusive t' (before ++ after)
let_go-IsExclusive h t t' before after k keeps v =
    let R : Hand → Hand → Type 0 = λ a b. a.job.id ≢ b.job.id in
    record {
      distinct = Pairs-around R before h after v.distinct;
      running =
          others_run h.job.id t t' (before ++ after) k keeps
            (Pairs-others R before h after (λ a b n q. n (sym q)) v.distinct)
            (All-around (λ x. IsRunning t x.job.id) before h after v.running);
    }

-- The updates of Fail leave the rows of other jobs.
reschedule_others :
    (at id : ℕ) (message : Text) (t : Jobs) (i : ℕ)
    → i ≢ id
    → All (λ r. r.id ≡ i → is_running r.status ≡ true) t.rows
    → All (λ r. r.id ≡ i → is_running r.status ≡ true) (reschedule at id message t).1.rows
reschedule_others at id message t i n h =
    reschedule-All_of (λ r. r.id ≡ i → is_running r.status ≡ true) id message t at
      (λ r same q. absurd (n (sym q ∙ same))) h

give_up_others :
    (id : ℕ) (message : Text) (t : Jobs) (i : ℕ)
    → i ≢ id
    → All (λ r. r.id ≡ i → is_running r.status ≡ true) t.rows
    → All (λ r. r.id ≡ i → is_running r.status ≡ true) (give_up id message t).rows
give_up_others id message t i n h =
    give_up-All_of (λ r. r.id ≡ i → is_running r.status ≡ true) id message t
      (λ r same q. absurd (n (sym q ∙ same))) h

tried-IsExclusive :
    (at : ℕ) (j : JobRow) (message : Text) (before after : List Hand) (t : Jobs) (changed : Bool)
    → any (can_retry j.id) t.rows ≡ changed
    → IsExclusive t (before ++ at_work j ∷ after)
    → let (hands, t') = tried j message before after (changed, (reschedule at j.id message t).1) in
      IsExclusive t' hands
unfolding tried reschedule
tried-IsExclusive at j message before after t true e v =
    let_go-IsExclusive (at_work j) t (reschedule at j.id message t).1 before after refl
      (reschedule_others at j.id message t) v
tried-IsExclusive at j message before after t false e v =
    rw (update_where_none (can_retry j.id) (rescheduled at message) t.rows (any-false _ t.rows e))
      (record {
        distinct =
            Pairs-replace (λ a b. a.job.id ≢ b.job.id) before (at_work j) (failing j message) after
              (λ a n. n) (λ a n. n) v.distinct;
        running =
            All-replace (λ x. IsRunning t x.job.id) before (at_work j) (failing j message) after
              (λ r. r) v.running;
      })

closed-IsExclusive :
    (describe : WorkError → Text) (at : ℕ) (j : JobRow) (before after : List Hand) (t : Jobs)
    (r : Result WorkError (Unit {0}))
    → IsExclusive t (before ++ at_work j ∷ after)
    → let (hands, t') = closed describe at j before after t r in IsExclusive t' hands
unfolding closed complete reschedule
closed-IsExclusive describe at j before after t (ok done) v =
    let_go-IsExclusive (at_work j) t (complete j.id t) before after refl
      (λ i n h. All-filter _ _ t.rows h) v
closed-IsExclusive describe at j before after t (err e) v =
    tried-IsExclusive at j (describe e) before after t (any (can_retry j.id) t.rows) refl v

finish_job-IsExclusive :
    (describe : WorkError → Text) (at : ℕ) (parts : Parts) (j : JobRow) (before after : List Hand)
    (app : App)
    → app.hands ≡ before ++ at_work j ∷ after
    → IsExclusive app.server.jobs app.hands
    → let app' = finish_job describe at parts j before after app in
      IsExclusive app'.server.jobs app'.hands
unfolding finish_job finished
finish_job-IsExclusive describe at parts j before after app e v =
    closed-IsExclusive describe at j before after app.server.jobs
      (dispatch parts j.kind j.payload (site_of app)).0 (subst (IsExclusive app.server.jobs) e v)

give_up_job-IsExclusive :
    (j : JobRow) (message : Text) (before after : List Hand) (app : App)
    → app.hands ≡ before ++ failing j message ∷ after
    → IsExclusive app.server.jobs app.hands
    → let app' = give_up_job j message before after app in IsExclusive app'.server.jobs app'.hands
unfolding give_up_job give_up
give_up_job-IsExclusive j message before after app e v =
    let_go-IsExclusive (failing j message) app.server.jobs (give_up j.id message app.server.jobs)
      before after refl (give_up_others j.id message app.server.jobs)
      (subst (IsExclusive app.server.jobs) e v)

take_job-IsExclusive :
    (locked : ℕ → Bool) (now ttl : ℕ) (app : App)
    → All (λ r. r.id < app.server.jobs.next_id) app.server.jobs.rows
    → IsExclusive app.server.jobs app.hands
    → IsExclusive (take_job locked now ttl app).server.jobs (take_job locked now ttl app).hands
unfolding take_job
take_job-IsExclusive locked now ttl app known v =
    taken-IsExclusive locked now ttl app (dequeue locked now ttl app.server.jobs)
      (dequeue-Claims locked now ttl app.server.jobs)
      (dequeue-next_id locked now ttl app.server.jobs) known v

Step-IsExclusive :
    {app app' : App}
    → Step false app app'
    → All (λ r. r.id < app.server.jobs.next_id) app.server.jobs.rows
    → IsExclusive app.server.jobs app.hands
    → IsExclusive app'.server.jobs app'.hands
Step-IsExclusive (takes locked now ttl app) known v =
    take_job-IsExclusive locked now ttl app known v
Step-IsExclusive (finishes describe at parts j before after app e) known v =
    finish_job-IsExclusive describe at parts j before after app e v
Step-IsExclusive (gives_up j message before after app e) known v =
    give_up_job-IsExclusive j message before after app e v
Step-IsExclusive (reaps e now app) known v = absurd cc
Step-IsExclusive (syncs listed app) known v = unfold sync in v

module _ (hmac : Text → Text → Text) (secret : Text) (json : Json) (self : String) where
  receive_step :
      (now : ℕ) (r : Request) (app : App)
      → IsExclusive app.server.jobs app.hands
      → IsExclusive
          (receive hmac secret json self now r app).server.jobs
          (receive hmac secret json self now r app).hands
  unfolding receive
  receive_step now r app v = receive-IsExclusive app.hands hmac secret json self now r app.server v

  -- In every history without reaping, for any requests, jobs and interleaving of the workers: the jobs in
  -- the workers' hands, those between the two updates of Fail included, are different ones, and the row of each, if it is there, is running, so that no
  -- worker can take it.
  pub Reachable-IsExclusive :
      {log : List Request} {app : App}
      → Reachable hmac secret json self false log app
      → IsExclusive app.server.jobs app.hands
  Reachable-IsExclusive (starts s cache) = record { distinct = tt; running = tt }
  Reachable-IsExclusive (receives {app} h now r) = receive_step now r app (Reachable-IsExclusive h)
  Reachable-IsExclusive (follows h step) =
      let s = Reachable-IsSafe hmac secret json self false h in
      Step-IsExclusive step (All-weaken _ _ (λ r sound. sound.known) _ s.consistent.sound)
        (Reachable-IsExclusive h)
