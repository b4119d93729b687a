-- ===== src/Queue/Exhausted.antt =====
-- The attempts of failed jobs over all histories of the table.
use arcticworks_codepeer.Base.{
  ℕ, ◌≤◌, ◌<◌, ◌≡◌, refl, sym, ◌∙◌, String, Bool, true, false, Option, none, some, List, [], ◌∷◌,
  ◌++◌, arith, All, All-weaken, All-trivial, All-filter, All-append, All-here, All-around, any,
}
use arcticworks_codepeer.Base.Text.{Text}
use arcticworks_codepeer.Queue.{
  JobRow, Jobs, is_failed, is_running, enqueue, claim, update_where, take_row, dequeue, complete,
  can_retry, rescheduled, given_up, reschedule, give_up,
}
use arcticworks_codepeer.Queue.Rows.{any-false, update_where-All}
use arcticworks_codepeer.Queue.Invariant.{
  State, tried, IsRunning, Step, enqueues, dequeues, completes, reschedules, gives_up, reaps,
  Reachable, starts, follows, IsConsistent, Reachable-IsConsistent,
}

HasNoneLeft : JobRow → Type 0
HasNoneLeft r = is_failed r.status ≡ true → r.max_attempts ≤ r.attempts

-- The job of a call whose first update has changed no row has no attempts left.
IsTried : Jobs → ℕ × Text → Type 0
IsTried t (id, message) =
    (id < t.next_id) × All (λ r. r.id ≡ id → r.max_attempts ≤ r.attempts) t.rows

record IsExhausted (t : Jobs) (failing : List (ℕ × Text)) : Type 0 where
  failed : All HasNoneLeft t.rows
  waiting : All (IsTried t) failing

-- An update of a row that takes no attempt back.
abbrev Keeps : (JobRow → JobRow) → Type 0
Keeps f =
    (r : JobRow)
    → ((f r).id ≡ r.id) × ((f r).max_attempts ≡ r.max_attempts) × (r.attempts ≤ (f r).attempts)

update_where-IsTried :
    (p : JobRow → Bool) (f : JobRow → JobRow) (t : Jobs) (cs : List (ℕ × Text))
    → Keeps f
    → All (IsTried t) cs
    → All (IsTried (record t { rows = update_where p f t.rows })) cs
unfolding IsTried
update_where-IsTried p f t cs k h =
    All-weaken _ _
      (λ (id, message) (known, rows). (
        known,
        update_where-All (λ r. r.id ≡ id → r.max_attempts ≤ r.attempts) p f t.rows rows
            (All-trivial _ t.rows (λ r c left e. omega (arith, k r, left (sym (k r).0 ∙ e)))),
      ))
      cs h

update_where-IsExhausted :
    (p : JobRow → Bool) (f : JobRow → JobRow) (t : Jobs) (cs : List (ℕ × Text))
    → Keeps f
    → All (λ r. p r ≡ true → HasNoneLeft r → HasNoneLeft (f r)) t.rows
    → IsExhausted t cs
    → IsExhausted (record t { rows = update_where p f t.rows }) cs
update_where-IsExhausted p f t cs k h v = record {
  failed = update_where-All HasNoneLeft p f t.rows v.failed h;
  waiting = update_where-IsTried p f t cs k v.waiting;
}

enqueue-IsExhausted :
    (now : ℕ) (kind : String) (payload : Text) (t : Jobs) (cs : List (ℕ × Text))
    → IsExhausted t cs
    → IsExhausted (enqueue now kind payload t) cs
unfolding enqueue HasNoneLeft IsTried
enqueue-IsExhausted now kind payload t cs v = record {
  failed = All-append _ t.rows _ v.failed (λ e. cc, tt);
  waiting =
      All-weaken _ _
        (λ (id, message) (known, rows).
          (omega arith, All-append _ t.rows _ rows (λ e. absurd (omega arith), tt)))
        cs v.waiting;
}

take_row-IsExhausted :
    (now ttl : ℕ) (t : Jobs) (o : Option JobRow) (cs : List (ℕ × Text))
    → IsExhausted t cs
    → IsExhausted (take_row now ttl t o).1 cs
unfolding take_row HasNoneLeft
take_row-IsExhausted now ttl t none cs v = v
take_row-IsExhausted now ttl t (some j) cs v =
    update_where-IsExhausted _ (claim now ttl) t cs (λ r. (refl, refl, omega arith))
      (All-trivial _ t.rows (λ r c h e. cc)) v

complete-IsExhausted :
    (id : ℕ) (t : Jobs) (cs : List (ℕ × Text)) → IsExhausted t cs → IsExhausted (complete id t) cs
unfolding complete IsTried
complete-IsExhausted id t cs v = record {
  failed = All-filter HasNoneLeft _ t.rows v.failed;
  waiting = All-weaken _ _ (λ c (known, rows). (known, All-filter _ _ t.rows rows)) cs v.waiting;
}

-- The first update: if it changes no row, the job, which is running, has no attempts left.
tried-IsExhausted :
    (at id : ℕ) (message : Text) (t : Jobs) (cs : List (ℕ × Text)) (changed : Bool)
    → any (can_retry id) t.rows ≡ changed
    → IsRunning t id
    → IsExhausted t cs
    → let s = tried id message cs (
      changed,
      record t { rows = update_where (can_retry id) (rescheduled at message) t.rows },
    ) in
      IsExhausted s.jobs s.failing
unfolding tried HasNoneLeft
tried-IsExhausted at id message t cs true e running v =
    update_where-IsExhausted _ (rescheduled at message) t cs (λ r. (refl, refl, omega arith))
      (All-trivial _ t.rows (λ r c h q. cc)) v
tried-IsExhausted at id message t cs false e (known, running) v =
    let w =
      update_where-IsExhausted (can_retry id) (rescheduled at message) t cs
        (λ r. (refl, refl, omega arith)) (All-trivial _ t.rows (λ r c h q. cc)) v in
    record { failed = w.failed; waiting = (first, w.waiting) }
  where
    left :
        (rows : List JobRow)
        → All (λ r. r.id ≡ id → is_running r.status ≡ true) rows
        → All (λ r. can_retry id r ≡ false) rows
        → All (λ r. r.id ≡ id → r.max_attempts ≤ r.attempts) rows
    left [] a b = tt
    left (r ∷ rows) a b = (λ q. ground (arith, a.0 q), left rows a.1 b.1)

    tried_here : IsTried t (id, message)
    tried_here = unfold IsTried in (known, left t.rows running (any-false (can_retry id) t.rows e))

    first :
        IsTried
          (record t { rows = update_where (can_retry id) (rescheduled at message) t.rows })
          (id, message)
    first =
        (update_where-IsTried (can_retry id) (rescheduled at message) t ((id, message) ∷ [])
          (λ r. (refl, refl, omega arith)) (tried_here, tt)).0

give_up-IsExhausted :
    (id : ℕ) (message : Text) (before after : List (ℕ × Text)) (t : Jobs)
    → IsExhausted t (before ++ (id, message) ∷ after)
    → IsExhausted (give_up id message t) (before ++ after)
unfolding give_up HasNoneLeft IsTried
give_up-IsExhausted id message before after t v =
    update_where-IsExhausted _ (given_up message) t (before ++ after)
      (λ r. (refl, refl, omega arith))
      (All-weaken _ _ (λ r left c h e. left (ground arith)) t.rows
        (All-here (IsTried t) before (id, message) after v.waiting).1)
      (record {
        failed = v.failed;
        waiting = All-around (IsTried t) before (id, message) after v.waiting;
      })

Step-IsExhausted :
    {s s' : State} → Step false s s' → IsExhausted s.jobs s.failing → IsExhausted s'.jobs s'.failing
Step-IsExhausted (enqueues now kind payload s) v =
    enqueue-IsExhausted now kind payload s.jobs s.failing v
Step-IsExhausted (dequeues locked now ttl s) v =
    unfold dequeue in take_row-IsExhausted now ttl s.jobs _ s.failing v
Step-IsExhausted (completes id s) v = complete-IsExhausted id s.jobs s.failing v
Step-IsExhausted (reschedules at id message s running) v =
    unfold reschedule in
    tried-IsExhausted at id message s.jobs s.failing (any (can_retry id) s.jobs.rows) refl
      (running refl) v
Step-IsExhausted (gives_up id message before after t) v =
    give_up-IsExhausted id message before after t v
Step-IsExhausted (reaps e now s) v = absurd cc

Reachable-IsExhausted : {s : State} → Reachable false s → IsExhausted s.jobs s.failing
Reachable-IsExhausted starts = record { failed = tt; waiting = tt }
Reachable-IsExhausted (follows h step) = Step-IsExhausted step (Reachable-IsExhausted h)

-- A consistent table whose failed jobs, where leases are not reaped, have no attempts left.
pub record IsSettled (reaping : Bool) (t : Jobs) : Type 0 where
  pub consistent : IsConsistent reaping t
  pub exhausted :
      reaping ≡ false → All (λ r. is_failed r.status ≡ true → r.max_attempts ≤ r.attempts) t.rows

-- In every history of the statements of the queue, those of a call of Fail with any others between them, and
-- with or without reaping: identifiers are distinct; a running job has a lease and at least one attempt.
-- Where leases are never reaped and Fail is called for running jobs, no job has more attempts than its
-- maximum, a pending job has fewer, and a failed job has no attempts left.
pub Reachable-IsSettled :
    (reaping : Bool) {s : State} → Reachable reaping s → IsSettled reaping s.jobs
unfolding HasNoneLeft
Reachable-IsSettled true h = record {
  consistent = Reachable-IsConsistent true h;
  exhausted = λ e. absurd cc;
}
Reachable-IsSettled false h = record {
  consistent = Reachable-IsConsistent false h;
  exhausted = λ e. (Reachable-IsExhausted h).failed;
}
