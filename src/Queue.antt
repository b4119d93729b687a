-- ===== src/Queue.antt =====
-- internal/queue/queue.go: the jobs table. Each SQL statement is a function on the rows; times and
-- durations are numbers of nanoseconds, and every operation takes the time of its statements.
pub mod Rows
pub mod Claim
pub mod Retry
pub mod Invariant
pub mod Exhausted
pub mod Kept
use arcticworks_codepeer.Base.{
  ℕ, ◌+◌, ◌*◌, ◌^◌, String, Bool, true, false, not, ◌&&◌, ◌||◌, Option, none, some, List, [], ◌∷◌,
  ◌++◌, map, ltb, leb, ◌==◌, if◌then◌else◌, any, filter, length, ℤ, pos, negsuc, leb_ℤ, find,
}
use arcticworks_codepeer.Base.Text.{Text}
use arcticworks_codepeer.Domain.{JobStatus}

-- A row of the jobs table; the encoded payload is a text.
pub record JobRow : Type 0 where
  pub id : ℕ
  pub kind : String
  pub payload : Text
  pub status : JobStatus
  pub attempts : ℕ
  pub max_attempts : ℕ
  pub run_at : ℕ
  pub lease_expires : Option ℕ
  pub last_error : Option Text

-- The table and the next value of its sequence.
pub record Jobs : Type 0 where
  pub rows : List JobRow
  pub next_id : ℕ

abbrev pub is_pending : JobStatus → Bool
is_pending JobStatus.pending = true
is_pending _ = false

abbrev pub is_running : JobStatus → Bool
is_running JobStatus.running = true
is_running _ = false

abbrev pub is_failed : JobStatus → Bool
is_failed JobStatus.failed = true
is_failed _ = false

abbrev pub default_lease_ttl : ℕ
default_lease_ttl = 900_000_000_000

-- New: the lifetime of a lease.
abbrev pub lease_ttl_or_default : ℤ → ℕ
lease_ttl_or_default (pos n) = if leb n 0 then default_lease_ttl else n
lease_ttl_or_default (negsuc n) = default_lease_ttl

-- UPDATE jobs SET ... WHERE ...
unfoldable pub update_where : (JobRow → Bool) → (JobRow → JobRow) → List JobRow → List JobRow
update_where p f [] = []
update_where p f (r ∷ rows) = (if p r then f r else r) ∷ update_where p f rows

abbrev pub new_row : ℕ → ℕ → String → Text → JobRow
new_row id now kind payload = record {
  id = id;
  kind = kind;
  payload = payload;
  status = JobStatus.pending;
  attempts = 0;
  max_attempts = 5;
  run_at = now;
  lease_expires = none;
  last_error = none;
}

-- Enqueue, for a payload that JSON can encode.
unfoldable pub enqueue : ℕ → String → Text → Jobs → Jobs
enqueue now kind payload t = record {
  rows = t.rows ++ new_row t.next_id now kind payload ∷ [];
  next_id = t.next_id + 1;
}

-- `locked` are the rows that other transactions hold: FOR UPDATE SKIP LOCKED passes over them.
abbrev pub claimable : (ℕ → Bool) → ℕ → JobRow → Bool
claimable locked now r = is_pending r.status && leb r.run_at now && not (locked r.id)

-- ORDER BY run_at, id
abbrev pub runs_before : JobRow → JobRow → Bool
runs_before a b = ltb a.run_at b.run_at || (a.run_at == b.run_at && ltb a.id b.id)

abbrev earlier : JobRow → Option JobRow → Option JobRow
earlier r none = some r
earlier r (some m) = if runs_before m r then some m else some r

-- The first claimable row in that order.
unfoldable pub next_row : (ℕ → Bool) → ℕ → List JobRow → Option JobRow
next_row locked now [] = none
next_row locked now (r ∷ rows) =
    let rest = next_row locked now rows in if claimable locked now r then earlier r rest else rest

abbrev pub claim : ℕ → ℕ → JobRow → JobRow
claim now ttl r = record r {
  status = JobStatus.running;
  attempts = r.attempts + 1;
  lease_expires = some (now + ttl);
}

-- The update of the selected row, and RETURNING.
take_row : ℕ → ℕ → Jobs → Option JobRow → Option JobRow × Jobs
take_row now ttl t none = (none, t)
take_row now ttl t (some j) = (
  some (claim now ttl j),
  record t { rows = update_where (λ r. r.id == j.id) (claim now ttl) t.rows },
)

-- Dequeue: the claimed row, if there is one, and the table.
unfoldable pub dequeue : (ℕ → Bool) → ℕ → ℕ → Jobs → Option JobRow × Jobs
unfolding take_row
dequeue locked now ttl t = take_row now ttl t (next_row locked now t.rows)

-- Complete
unfoldable pub complete : ℕ → Jobs → Jobs
complete id t = record t { rows = filter (λ r. not (r.id == id)) t.rows }

-- BackoffDelay: min(2^attempts, 600) seconds.
unfoldable pub backoff_delay : ℤ → ℕ
backoff_delay (negsuc n) = 1_000_000_000
backoff_delay (pos n) =
    if leb n 0 then 1_000_000_000 else (if ltb 600 (2 ^ n) then 600 else 2 ^ n) * 1_000_000_000

abbrev pub can_retry : ℕ → JobRow → Bool
can_retry id r = r.id == id && ltb r.attempts r.max_attempts && is_running r.status

abbrev pub rescheduled : ℕ → Text → JobRow → JobRow
rescheduled at message r = record r {
  status = JobStatus.pending;
  last_error = some message;
  run_at = at;
}

abbrev pub given_up : Text → JobRow → JobRow
given_up message r = record r { status = JobStatus.failed; last_error = some message }

-- The first update of Fail: whether it has changed a row, and the table.
unfoldable pub reschedule : ℕ → ℕ → Text → Jobs → Bool × Jobs
reschedule at id message t = (
  any (can_retry id) t.rows,
  record t { rows = update_where (can_retry id) (rescheduled at message) t.rows },
)

-- The second update of Fail, which does not look at the attempts.
unfoldable pub give_up : ℕ → Text → Jobs → Jobs
give_up id message t = record t {
  rows = update_where (λ r. r.id == id && is_running r.status) (given_up message) t.rows;
}

-- The two updates of Fail with nothing between them: the second runs if the first has changed no row.
unfoldable pub fail_at : ℕ → ℕ → Text → List JobRow → List JobRow
fail_at at id message rows =
    if any (can_retry id) rows
    then update_where (can_retry id) (rescheduled at message) rows
    else update_where (λ r. r.id == id && is_running r.status) (given_up message) rows

-- Fail after its SELECT: a job that is not there is no error.
fail_found : (ℕ → ℕ) → ℕ → ℕ → Text → Jobs → Option JobRow → Jobs
fail_found jitter now id message t none = t
fail_found jitter now id message t (some r) = record t {
  rows = fail_at (now + jitter (backoff_delay (pos r.attempts))) id message t.rows;
}

-- Fail, if no other statement runs between its own. `jitter` multiplies a delay with a random number
-- between 0.8 and 1.2.
unfoldable pub fail : (ℕ → ℕ) → ℕ → ℕ → Text → Jobs → Jobs
unfolding fail_found
fail jitter now id message t = fail_found jitter now id message t (find (λ r. r.id == id) t.rows)

abbrev pub lease_before : Option ℕ → ℕ → Bool
lease_before none now = false
lease_before (some at) now = ltb at now

abbrev pub is_expired : ℕ → JobRow → Bool
is_expired now r = is_running r.status && lease_before r.lease_expires now

abbrev pub released : JobRow → JobRow
released r = record r { status = JobStatus.pending; lease_expires = none }

-- ReapExpired: the table and the number of rows that changed.
unfoldable pub reap_expired : ℕ → Jobs → Jobs × ℕ
reap_expired now t = (
  record t { rows = update_where (is_expired now) released t.rows },
  length (filter (is_expired now) t.rows),
)
