-- ===== src/Queue/Kept.antt =====
-- What the operations of the queue keep of every row: its kind and its payload.
use arcticworks_codepeer.Base.{
  ℕ, ◌≡◌, refl, String, Bool, Option, none, some, List, arith, ◌==◌, All, All-trivial, All-filter,
  All-append, All-mem,
}
use arcticworks_codepeer.Base.Text.{Text}
use arcticworks_codepeer.Queue.{
  JobRow, Jobs, enqueue, claim, update_where, take_row, dequeue, complete, rescheduled, given_up,
  reschedule, give_up, released, reap_expired,
}
use arcticworks_codepeer.Queue.Rows.{update_where-All}
use arcticworks_codepeer.Queue.Claim.{IsNext, next_row-IsNext}

-- The row that is returned, if there is one.
abbrev pub Returns : (JobRow → Type 0) → Option JobRow → Type 0
Returns P none = Unit {0}
Returns P (some j) = P j

-- A predicate of the kind and the payload of a row.
module _ (Q : String → Text → Type 0) where
  abbrev P : JobRow → Type 0
  P r = Q r.kind r.payload

  updated :
      (p : JobRow → Bool) (f : JobRow → JobRow) (rows : List JobRow)
      → ((r : JobRow) → P r → P (f r))
      → All P rows
      → All P (update_where p f rows)
  updated p f rows keeps h = update_where-All P p f rows h (All-trivial _ rows (λ r e q. keeps r q))

  pub enqueue-All :
      (now : ℕ) (kind : String) (payload : Text) (t : Jobs)
      → Q kind payload
      → All P t.rows
      → All P (enqueue now kind payload t).rows
  unfolding enqueue
  enqueue-All now kind payload t q h = All-append P t.rows _ h (q, tt)

  take_row-All :
      (locked : ℕ → Bool) (now ttl : ℕ) (t : Jobs) (o : Option JobRow)
      → IsNext locked now t.rows o
      → All P t.rows
      → Returns P (take_row now ttl t o).0 × All P (take_row now ttl t o).1.rows
  unfolding take_row
  take_row-All locked now ttl t none n h = (tt, h)
  take_row-All locked now ttl t (some j) n h =
      (All-mem P t.rows h n.0, updated (λ r. r.id == j.id) (claim now ttl) t.rows (λ r q. q) h)

  pub dequeue-All :
      (locked : ℕ → Bool) (now ttl : ℕ) (t : Jobs)
      → All P t.rows
      → Returns P (dequeue locked now ttl t).0 × All P (dequeue locked now ttl t).1.rows
  unfolding dequeue
  dequeue-All locked now ttl t h =
      take_row-All locked now ttl t _ (next_row-IsNext locked now t.rows) h

  pub complete-All : (id : ℕ) (t : Jobs) → All P t.rows → All P (complete id t).rows
  unfolding complete
  complete-All id t h = All-filter P _ t.rows h

  pub reschedule-All :
      (at id : ℕ) (message : Text) (t : Jobs)
      → All P t.rows
      → All P (reschedule at id message t).1.rows
  unfolding reschedule
  reschedule-All at id message t h = updated _ (rescheduled at message) t.rows (λ r q. q) h

  pub give_up-All :
      (id : ℕ) (message : Text) (t : Jobs) → All P t.rows → All P (give_up id message t).rows
  unfolding give_up
  give_up-All id message t h = updated _ (given_up message) t.rows (λ r q. q) h

  pub reap_expired-All : (now : ℕ) (t : Jobs) → All P t.rows → All P (reap_expired now t).0.rows
  unfolding reap_expired
  reap_expired-All now t h = updated _ released t.rows (λ r q. q) h

take_row-next_id :
    (now ttl : ℕ) (t : Jobs) (o : Option JobRow) → (take_row now ttl t o).1.next_id ≡ t.next_id
unfolding take_row
take_row-next_id now ttl t none = refl
take_row-next_id now ttl t (some j) = refl

pub dequeue-next_id :
    (locked : ℕ → Bool) (now ttl : ℕ) (t : Jobs) → (dequeue locked now ttl t).1.next_id ≡ t.next_id
unfolding dequeue
dequeue-next_id locked now ttl t = take_row-next_id now ttl t _

-- The updates of `Fail` keep what holds of every row that they may change, and of the others.
module _ (S : JobRow → Type 0) (id : ℕ) (message : Text) (t : Jobs) where
  pub reschedule-All_of :
      (at : ℕ)
      → ((r : JobRow) → r.id ≡ id → S (rescheduled at message r))
      → All S t.rows
      → All S (reschedule at id message t).1.rows
  unfolding reschedule
  reschedule-All_of at keeps h =
      update_where-All S _ (rescheduled at message) t.rows h
        (All-trivial _ t.rows (λ r c s. keeps r (ground arith)))

  pub give_up-All_of :
      ((r : JobRow) → r.id ≡ id → S (given_up message r))
      → All S t.rows
      → All S (give_up id message t).rows
  unfolding give_up
  give_up-All_of keeps h =
      update_where-All S _ (given_up message) t.rows h
        (All-trivial _ t.rows (λ r c s. keeps r (ground arith)))
