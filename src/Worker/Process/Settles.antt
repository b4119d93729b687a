-- ===== src/Worker/Process/Settles.antt =====
-- No turn of the worker leaves its job running.
use arcticworks_codepeer.Base.{
  ℕ, ◌+◌, ◌≤◌, ◌<◌, ◌≡◌, ◌≢◌, ◌⊎◌, refl, sym, ap, subst, ◌∙◌, Bool, true, not, some, inl, inr, List,
  [], ◌∷◌, arith, Bool-cases, ◌==◌, ==_iff, filter, All, All-weaken, Memᴰ, ltb,
}
use arcticworks_codepeer.Base.Text.{Text}
use arcticworks_codepeer.Base.Result.{Result, ok, err}
use arcticworks_codepeer.Queue.{
  JobRow, Jobs, is_pending, is_running, is_failed, update_where, claim, dequeue, complete, fail,
  rescheduled, given_up,
}
use arcticworks_codepeer.Queue.Rows.{
  HasDistinctIds, IsOnly, member-IsOnly, update_where-HasDistinctIds,
}
use arcticworks_codepeer.Queue.Claim.{Claims, dequeue-Claims}
use arcticworks_codepeer.Queue.Retry.{IsJitter, fail_outcome}
use arcticworks_codepeer.Worker.Dispatch.{Parts, Site, WorkError, dispatch}
use arcticworks_codepeer.Worker.Process.{ended, process}

-- Where a failed job ends: pending, with attempts left, and due at the earliest 0.8 seconds later; or
-- failed, with none left.
abbrev pub IsSettled : ℕ → JobRow → Type 0
IsSettled now r =
    ((is_pending r.status ≡ true) × (now + 800_000_000 ≤ r.run_at) × (r.attempts < r.max_attempts))
    ⊎ ((is_failed r.status ≡ true) × (r.max_attempts ≤ r.attempts))

member-update_where :
    (p : JobRow → Bool) (f : JobRow → JobRow) (r : JobRow) (rows : List JobRow)
    → p r ≡ true
    → Memᴰ r rows
    → Memᴰ (f r) (update_where p f rows)
unfolding update_where
member-update_where p f r [] h m = elim m [ ]
member-update_where p f r (x ∷ rows) h (Memᴰ.head q) =
    let e : p x ≡ true = ap p (sym q) ∙ h in rw e (Memᴰ.head (ap f q))
member-update_where p f r (x ∷ rows) h (Memᴰ.tail m) =
    Memᴰ.tail (member-update_where p f r rows h m)

-- What holds of the updated row holds of every row with its identifier.
update_where-of_id :
    (P : JobRow → Type 0) (r : JobRow) (f : JobRow → JobRow) (rows : List JobRow)
    → ((x : JobRow) → (f x).id ≡ x.id)
    → IsOnly r rows
    → P (f r)
    → All (λ x. x.id ≡ r.id → P x) (update_where (λ x. x.id == r.id) f rows)
unfolding update_where
update_where-of_id P r f [] keeps only h = tt
update_where-of_id P r f (x ∷ rows) keeps only h = elim (Bool-cases (x.id == r.id)) [
  | inl e ↦ rw e (
    λ _. subst (λ y. P (f y)) (sym (only.0 ((==_iff x.id r.id).0 e))) h,
    update_where-of_id P r f rows keeps only.1 h,
  )
  | inr e ↦ rw e (λ q. absurd (ground arith), update_where-of_id P r f rows keeps only.1 h)
]

complete-removes :
    (id : ℕ) (rows : List JobRow) → All (λ r. r.id ≢ id) (filter (λ r. not (r.id == id)) rows)
complete-removes id [] = tt
complete-removes id (r ∷ rows) = elim (Bool-cases (r.id == id)) [
  | inl e ↦ rw e (complete-removes id rows)
  | inr e ↦ rw e (λ q. absurd (ground arith), complete-removes id rows)
]

-- Dequeue: the claimed row is in the table, and running.
claimed :
    (locked : ℕ → Bool) (now ttl : ℕ) (t t1 : Jobs) (j : JobRow)
    → HasDistinctIds t.rows
    → dequeue locked now ttl t ≡ (some j, t1)
    → HasDistinctIds t1.rows × Memᴰ j t1.rows × (is_running j.status ≡ true)
claimed locked now ttl t t1 j d h =
    let (r, first, same, rows) =
      subst (Claims locked now ttl t) h (dequeue-Claims locked now ttl t) in
    (
      rw rows
          (update_where-HasDistinctIds (λ x. x.id == r.id) (claim now ttl) t.rows (λ x. refl) d),
      rw (rows, same)
          (member-update_where (λ x. x.id == r.id) (claim now ttl) r t.rows (ground arith) first.0),
      rw same refl,
    )

module _ (describe : WorkError → Text) (jitter : ℕ → ℕ) (done_at : ℕ) where
  fail-settles :
      (message : Text) (t : Jobs) (j : JobRow)
      → HasDistinctIds t.rows
      → Memᴰ j t.rows
      → is_running j.status ≡ true
      → IsJitter jitter
      → All (λ r. r.id ≡ j.id → IsSettled done_at r) (fail jitter done_at j.id message t).rows
  fail-settles message t j d m run k =
      let only = member-IsOnly j t.rows d m in
      let (retry, give_up, stale) = fail_outcome jitter done_at message t j d m k in
      elim (Bool-cases (ltb j.attempts j.max_attempts)) [
        | inl e ↦
            let (at, low, high, rows) = retry run (ground arith) in
            rw rows (
              update_where-of_id (IsSettled done_at) j (rescheduled at message) t.rows (λ x. refl)
                only (inl (refl, low, ground arith)))
        | inr e ↦ rw (give_up run (ground arith)) (
            update_where-of_id (IsSettled done_at) j (given_up message) t.rows (λ x. refl) only
              (inr (refl, ground arith)))
      ]

  ended-settles :
      (j : JobRow) (t : Jobs) (o : Result WorkError (Unit {0}) × Site)
      → HasDistinctIds t.rows
      → Memᴰ j t.rows
      → is_running j.status ≡ true
      → IsJitter jitter
      → All (λ r. r.id ≡ j.id → IsSettled done_at r) (ended describe jitter done_at j t o).1.rows
  unfolding ended complete
  ended-settles j t (err e, site) d m run k = fail-settles (describe e) t j d m run k
  ended-settles j t (ok _, site) d m run k =
      All-weaken (λ r. r.id ≢ j.id) _ (λ r n e. absurd (n e)) _ (complete-removes j.id t.rows)

  ended-ok :
      (j : JobRow) (t : Jobs) (o : Result WorkError (Unit {0}) × Site)
      → o.0 ≡ ok tt
      → All (λ r. r.id ≢ j.id) (ended describe jitter done_at j t o).1.rows
  unfolding ended complete
  ended-ok j t (err e, site) h = absurd cc
  ended-ok j t (ok _, site) h = complete-removes j.id t.rows

  -- For a table with distinct identifiers and a factor of delays between 0.8 and 1.2: when a job that was
  -- dequeued is processed, whatever its payload is and whatever happens in its pass, no row of the job is
  -- left running. Its row is removed if the pass succeeds; else it waits for 0.8 seconds at least with
  -- attempts left, or is failed with none left.
  pub process_settles :
      (parts : Parts) (locked : ℕ → Bool) (now ttl : ℕ) (t t1 : Jobs) (j : JobRow) (site : Site)
      → HasDistinctIds t.rows
      → IsJitter jitter
      → dequeue locked now ttl t ≡ (some j, t1)
      → All
          (λ r. r.id ≡ j.id → IsSettled done_at r)
          (process describe jitter done_at parts j site t1).1.rows
        × ((dispatch parts j.kind j.payload site).0 ≡ ok tt
            → All (λ r. r.id ≢ j.id) (process describe jitter done_at parts j site t1).1.rows)
  unfolding process
  process_settles parts locked now ttl t t1 j site d k h =
      let (d1, m, run) = claimed locked now ttl t t1 j d h in
      let o = dispatch parts j.kind j.payload site in
      (ended-settles j t1 o d1 m run k, ended-ok j t1 o)
