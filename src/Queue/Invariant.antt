-- ===== src/Queue/Invariant.antt =====
-- The jobs table over all histories: its statements as steps, in any order and at any times. The two updates
-- of Fail are two steps, with any others between them.
use arcticworks_codepeer.Base.{
  ℕ, ◌+◌, ◌≤◌, ◌<◌, ◌≡◌, ◌≢◌, refl, sym, subst, String, Bool, true, false, Option, none, some, List,
  [], ◌∷◌, ◌++◌, arith, ◌==◌, ==_iff, All, All-weaken, All-trivial, All-filter, Pairs-filter,
  All-append, is_some,
}
use arcticworks_codepeer.Base.Text.{Text}
use arcticworks_codepeer.Queue.{
  JobRow, Jobs, is_pending, is_running, new_row, enqueue, claim, take_row, dequeue, complete,
  can_retry, rescheduled, given_up, reschedule, give_up, released, reap_expired,
}
use arcticworks_codepeer.Queue.Rows.{
  HasDistinctIds, member-IsOnly, update_where-All, update_where-HasDistinctIds,
}
use arcticworks_codepeer.Queue.Claim.{IsNext, next_row-IsNext}

abbrev pub empty : Jobs
empty = record { rows = []; next_id = 1 }

-- The table, and the calls of Fail whose first update has changed no row, by job and message.
pub record State : Type 0 where
  pub jobs : Jobs
  pub failing : List (ℕ × Text)

unfoldable pub tried : ℕ → Text → List (ℕ × Text) → Bool × Jobs → State
tried id message failing (true, t) = record { jobs = t; failing = failing }
tried id message failing (false, t) = record { jobs = t; failing = (id, message) ∷ failing }

-- The rows of the job are running, and the sequence is past it.
abbrev pub IsRunning : Jobs → ℕ → Type 0
IsRunning t id = (id < t.next_id) × All (λ r. r.id ≡ id → is_running r.status ≡ true) t.rows

-- One statement; `reaping` says whether leases are reaped in the history. Fail is called for a job that the
-- caller has claimed, so that the job is running if leases are not reaped. What Fail has read decides only
-- on the time `at` of the retry.
pub data Step (reaping : Bool) : State → State → Type 0 where
  enqueues :
      (now : ℕ) (kind : String) (payload : Text) (s : State)
      → Step reaping s (record s { jobs = enqueue now kind payload s.jobs })
  dequeues :
      (locked : ℕ → Bool) (now ttl : ℕ) (s : State)
      → Step reaping s (record s { jobs = (dequeue locked now ttl s.jobs).1 })
  completes : (id : ℕ) (s : State) → Step reaping s (record s { jobs = complete id s.jobs })
  reschedules :
      (at id : ℕ) (message : Text) (s : State)
      → (reaping ≡ false → IsRunning s.jobs id)
      → Step reaping s (tried id message s.failing (reschedule at id message s.jobs))
  gives_up :
      (id : ℕ) (message : Text) (before after : List (ℕ × Text)) (t : Jobs)
      → Step reaping
          (record { jobs = t; failing = before ++ (id, message) ∷ after })
          (record { jobs = give_up id message t; failing = before ++ after })
  reaps :
      reaping ≡ true
      → (now : ℕ) (s : State) → Step reaping s (record s { jobs = (reap_expired now s.jobs).0 })

pub data Reachable (reaping : Bool) : State → Type 0 where
  starts : Reachable reaping (record { jobs = empty; failing = [] })
  follows : {s s' : State} → Reachable reaping s → Step reaping s s' → Reachable reaping s'

-- Attempts are counted when a job is claimed, and, where leases are not reaped, a job never has more than
-- its maximum, and a pending job has one left.
pub record IsSound (reaping : Bool) (next_id : ℕ) (r : JobRow) : Type 0 where
  pub known : r.id < next_id
  pub counted : is_running r.status ≡ true → 1 ≤ r.attempts
  pub leased : is_running r.status ≡ true → is_some r.lease_expires ≡ true
  pub bounded : reaping ≡ false → r.attempts ≤ r.max_attempts
  pub remaining : reaping ≡ false → is_pending r.status ≡ true → r.attempts < r.max_attempts

pub record IsConsistent (reaping : Bool) (t : Jobs) : Type 0 where
  pub distinct : HasDistinctIds t.rows
  pub sound : All (IsSound reaping t.next_id) t.rows

new_row-IsSound :
    (reaping : Bool) (now : ℕ) (kind : String) (payload : Text) (n : ℕ)
    → IsSound reaping (n + 1) (new_row n now kind payload)
new_row-IsSound reaping now kind payload n = record {
  known = omega arith;
  counted = λ e. cc;
  leased = λ e. cc;
  bounded = λ e. omega arith;
  remaining = λ e p. omega arith;
}

later-IsSound :
    (reaping : Bool) (n : ℕ) (r : JobRow) → IsSound reaping n r → IsSound reaping (n + 1) r
later-IsSound reaping n r s = record {
  known = omega (arith, s.known);
  counted = s.counted;
  leased = s.leased;
  bounded = s.bounded;
  remaining = s.remaining;
}

claim-IsSound :
    (reaping : Bool) (now ttl n : ℕ) (r : JobRow)
    → is_pending r.status ≡ true
    → IsSound reaping n r
    → IsSound reaping n (claim now ttl r)
claim-IsSound reaping now ttl n r p s = record {
  known = s.known;
  counted = λ e. omega arith;
  leased = λ e. refl;
  bounded = λ e. omega (arith, s.remaining e p);
  remaining = λ e q. cc;
}

rescheduled-IsSound :
    (reaping : Bool) (id at n : ℕ) (message : Text) (r : JobRow)
    → can_retry id r ≡ true
    → IsSound reaping n r
    → IsSound reaping n (rescheduled at message r)
rescheduled-IsSound reaping id at n message r c s = record {
  known = s.known;
  counted = λ e. cc;
  leased = λ e. cc;
  bounded = s.bounded;
  remaining = λ e q. ground arith;
}

given_up-IsSound :
    (reaping : Bool) (n : ℕ) (message : Text) (r : JobRow)
    → IsSound reaping n r
    → IsSound reaping n (given_up message r)
given_up-IsSound reaping n message r s = record {
  known = s.known;
  counted = λ e. cc;
  leased = λ e. cc;
  bounded = s.bounded;
  remaining = λ e q. cc;
}

released-IsSound :
    (reaping : Bool) (n : ℕ) (r : JobRow)
    → reaping ≡ true
    → IsSound reaping n r
    → IsSound reaping n (released r)
released-IsSound reaping n r e s = record {
  known = s.known;
  counted = λ e. cc;
  leased = λ e. cc;
  bounded = λ f. cc;
  remaining = λ f q. cc;
}

append_new-HasDistinctIds :
    (reaping : Bool) (n : ℕ) (rows : List JobRow) (r : JobRow)
    → r.id ≡ n
    → All (IsSound reaping n) rows
    → HasDistinctIds rows
    → HasDistinctIds (rows ++ r ∷ [])
append_new-HasDistinctIds reaping n [] r e h d = (tt, tt)
append_new-HasDistinctIds reaping n (x ∷ rows) r e h d = (
  All-append (λ b. x.id ≢ b.id) rows (r ∷ []) d.0 (λ q. omega (arith, h.0.known), tt),
  append_new-HasDistinctIds reaping n rows r e h.1 d.1,
)

module _ (reaping : Bool) where
  pub enqueue-IsConsistent :
      (now : ℕ) (kind : String) (payload : Text) (t : Jobs)
      → IsConsistent reaping t
      → IsConsistent reaping (enqueue now kind payload t)
  unfolding enqueue
  enqueue-IsConsistent now kind payload t v = record {
    distinct = append_new-HasDistinctIds reaping t.next_id t.rows _ refl v.sound v.distinct;
    sound =
        All-append (IsSound reaping (t.next_id + 1)) t.rows _
          (All-weaken _ _ (later-IsSound reaping t.next_id) t.rows v.sound)
          (new_row-IsSound reaping now kind payload t.next_id, tt);
  }

  take_row-IsConsistent :
      (locked : ℕ → Bool) (now ttl : ℕ) (t : Jobs) (o : Option JobRow)
      → IsNext locked now t.rows o
      → IsConsistent reaping t
      → IsConsistent reaping (take_row now ttl t o).1
  unfolding take_row
  take_row-IsConsistent locked now ttl t none h v = v
  take_row-IsConsistent locked now ttl t (some j) (m, c, b) v = record {
    distinct = update_where-HasDistinctIds _ (claim now ttl) t.rows (λ r. refl) v.distinct;
    sound =
        update_where-All (IsSound reaping t.next_id) _ (claim now ttl) t.rows v.sound
          (All-weaken _ _ claimed t.rows (member-IsOnly j t.rows v.distinct m));
  }
    where
      claimed :
          (r : JobRow)
          → (r.id ≡ j.id → r ≡ j)
          → (r.id == j.id) ≡ true
          → IsSound reaping t.next_id r
          → IsSound reaping t.next_id (claim now ttl r)
      claimed r o e s =
          let p : is_pending j.status ≡ true = ground arith in
          claim-IsSound reaping now ttl t.next_id r
            (subst (λ x. is_pending x.status ≡ true) (sym (o ((==_iff r.id j.id).0 e))) p) s

  pub complete-IsConsistent :
      (id : ℕ) (t : Jobs) → IsConsistent reaping t → IsConsistent reaping (complete id t)
  unfolding complete
  complete-IsConsistent id t v = record {
    distinct = Pairs-filter (λ a b. a.id ≢ b.id) _ t.rows v.distinct;
    sound = All-filter (IsSound reaping t.next_id) _ t.rows v.sound;
  }

  pub reschedule-IsConsistent :
      (at id : ℕ) (message : Text) (t : Jobs)
      → IsConsistent reaping t
      → IsConsistent reaping (reschedule at id message t).1
  unfolding reschedule
  reschedule-IsConsistent at id message t v = record {
    distinct = update_where-HasDistinctIds _ (rescheduled at message) t.rows (λ r. refl) v.distinct;
    sound =
        update_where-All (IsSound reaping t.next_id) _ (rescheduled at message) t.rows v.sound
          (All-trivial _ t.rows (λ r. rescheduled-IsSound reaping id at t.next_id message r));
  }

  pub give_up-IsConsistent :
      (id : ℕ) (message : Text) (t : Jobs)
      → IsConsistent reaping t
      → IsConsistent reaping (give_up id message t)
  unfolding give_up
  give_up-IsConsistent id message t v = record {
    distinct = update_where-HasDistinctIds _ (given_up message) t.rows (λ r. refl) v.distinct;
    sound =
        update_where-All (IsSound reaping t.next_id) _ (given_up message) t.rows v.sound
          (All-trivial _ t.rows (λ r c. given_up-IsSound reaping t.next_id message r));
  }

  pub reap_expired-IsConsistent :
      (now : ℕ) (t : Jobs)
      → reaping ≡ true
      → IsConsistent reaping t
      → IsConsistent reaping (reap_expired now t).0
  unfolding reap_expired
  reap_expired-IsConsistent now t e v = record {
    distinct = update_where-HasDistinctIds _ released t.rows (λ r. refl) v.distinct;
    sound =
        update_where-All (IsSound reaping t.next_id) _ released t.rows v.sound
          (All-trivial _ t.rows (λ r q. released-IsSound reaping t.next_id r e));
  }

  pub dequeue-IsConsistent :
      (locked : ℕ → Bool) (now ttl : ℕ) (t : Jobs)
      → IsConsistent reaping t
      → IsConsistent reaping (dequeue locked now ttl t).1
  unfolding dequeue
  dequeue-IsConsistent locked now ttl t v =
      take_row-IsConsistent locked now ttl t _ (next_row-IsNext locked now t.rows) v

  tried-IsConsistent :
      (id : ℕ) (message : Text) (failing : List (ℕ × Text)) (o : Bool × Jobs)
      → IsConsistent reaping o.1
      → IsConsistent reaping (tried id message failing o).jobs
  unfolding tried
  tried-IsConsistent id message failing (true, t) v = v
  tried-IsConsistent id message failing (false, t) v = v

  Step-IsConsistent :
      {s s' : State}
      → Step reaping s s'
      → IsConsistent reaping s.jobs
      → IsConsistent reaping s'.jobs
  Step-IsConsistent (enqueues now kind payload s) v = enqueue-IsConsistent now kind payload s.jobs v
  Step-IsConsistent (dequeues locked now ttl s) v = dequeue-IsConsistent locked now ttl s.jobs v
  Step-IsConsistent (completes id s) v = complete-IsConsistent id s.jobs v
  Step-IsConsistent (reschedules at id message s running) v =
      tried-IsConsistent id message s.failing _ (reschedule-IsConsistent at id message s.jobs v)
  Step-IsConsistent (gives_up id message before after t) v = give_up-IsConsistent id message t v
  Step-IsConsistent (reaps e now s) v = reap_expired-IsConsistent now s.jobs e v

  pub Reachable-IsConsistent : {s : State} → Reachable reaping s → IsConsistent reaping s.jobs
  Reachable-IsConsistent starts = record { distinct = tt; sound = tt }
  Reachable-IsConsistent (follows h step) = Step-IsConsistent step (Reachable-IsConsistent h)
