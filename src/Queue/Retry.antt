-- ===== src/Queue/Retry.antt =====
-- What `Fail` does to a job.
use arcticworks_codepeer.Base.{
  ℕ, zero, suc, ◌+◌, ◌*◌, ◌^◌, ◌≤◌, ◌<◌, ◌≡◌, refl, sym, ap, subst, ◌∙◌, true, false, some, find,
  any, if◌then◌else◌, inl, inr, List, arith, ◌==◌, Bool-cases, All, All-weaken, Memᴰ, ℤ, pos,
  negsuc,
}
use arcticworks_codepeer.Base.Text.{Text}
use arcticworks_codepeer.Queue.{
  JobRow, Jobs, is_running, update_where, backoff_delay, can_retry, rescheduled, given_up, fail_at,
  fail_found, fail, reschedule, give_up,
}
use arcticworks_codepeer.Queue.Rows.{
  HasDistinctIds, IsOnly, member-IsOnly, update_where_cong, update_where_none, any-none, any-member,
  find-IsOnly, any-false,
}

pow_two_pos : (n : ℕ) → 1 ≤ 2 ^ n
pow_two_pos zero = omega arith
pow_two_pos (suc n) = omega (arith, pow_two_pos n)

backoff_delay_bounds :
    (z : ℤ) → (1_000_000_000 ≤ backoff_delay z) × (backoff_delay z ≤ 600_000_000_000)
unfolding backoff_delay
backoff_delay_bounds (negsuc n) = (omega arith, omega arith)
backoff_delay_bounds (pos n) = ground (arith, pow_two_pos n)

-- The two updates of `Fail` on the row of a job.
module _ (id : ℕ) (r : JobRow) (rows : List JobRow) (e : r.id ≡ id) (only : IsOnly r rows) where
  -- What holds of the row and of every other row holds of all.
  each_row : (P : JobRow → Type 0) → P r → ((x : JobRow) → (x.id == id) ≡ false → P x) → All P rows
  each_row P at_r other = All-weaken _ P one rows only
    where
      one : (x : JobRow) → (x.id ≡ r.id → x ≡ r) → P x
      one x o = elim (Bool-cases (x.id == id)) [
        | inl k ↦ subst P (sym (o (ground arith))) at_r
        | inr k ↦ other x k
      ]

  fail_at-retry :
      (at : ℕ) (message : Text)
      → Memᴰ r rows
      → can_retry id r ≡ true
      → fail_at at id message rows ≡ update_where (λ x. x.id == id) (rescheduled at message) rows
  unfolding fail_at
  fail_at-retry at message m c =
      rw (any-member (can_retry id) r rows m c)
        (update_where_cong _ _ _ rows (each_row _ (ground arith) (λ x k. ground arith)))

  fail_at-give_up :
      (at : ℕ) (message : Text)
      → can_retry id r ≡ false
      → is_running r.status ≡ true
      → fail_at at id message rows ≡ update_where (λ x. x.id == id) (given_up message) rows
  unfolding fail_at
  fail_at-give_up at message c run =
      rw (any-none (can_retry id) rows (each_row _ (ground arith) (λ x k. ground arith)))
        (update_where_cong _ _ _ rows (each_row _ (ground arith) (λ x k. ground arith)))

  fail_at-stale :
      (at : ℕ) (message : Text) → is_running r.status ≡ false → fail_at at id message rows ≡ rows
  unfolding fail_at
  fail_at-stale at message run =
      rw (any-none (can_retry id) rows (each_row _ (ground arith) (λ x k. ground arith)))
        (update_where_none _ _ rows (each_row _ (ground arith) (λ x k. ground arith)))

-- The documented range of the random factor: 0.8 to 1.2.
abbrev pub IsJitter : (ℕ → ℕ) → Type 0
IsJitter jitter = (d : ℕ) → (8 * d ≤ 10 * jitter d) × (10 * jitter d ≤ 12 * d)

module _ (jitter : ℕ → ℕ) (now : ℕ) (message : Text) (t : Jobs) (r : JobRow) where
  fail-eq_fail_at :
      IsOnly r t.rows
      → Memᴰ r t.rows
      → (fail jitter now r.id message t).rows
        ≡ fail_at (now + jitter (backoff_delay (pos r.attempts))) r.id message t.rows
  unfolding fail fail_found
  fail-eq_fail_at only m =
      ap (λ o. (fail_found jitter now r.id message t o).rows) (find-IsOnly r t.rows only m)

  -- For a job of a table with distinct identifiers and a factor between 0.8 and 1.2: `Fail` reschedules
  -- a running job with attempts left, between 0.8 and 720 seconds from now; it marks a running job
  -- without attempts left as failed; it changes nothing for a job that is not running. It changes no
  -- other job.
  pub fail_outcome :
      HasDistinctIds t.rows
      → Memᴰ r t.rows
      → IsJitter jitter
      → let rows = (fail jitter now r.id message t).rows in
        (is_running r.status ≡ true
          → r.attempts < r.max_attempts
          → (at : ℕ) × (now + 800_000_000 ≤ at)
            × (at ≤ now + 720_000_000_000)
            × (rows ≡ update_where (λ x. x.id == r.id) (rescheduled at message) t.rows))
        × (is_running r.status ≡ true
            → r.max_attempts ≤ r.attempts
            → rows ≡ update_where (λ x. x.id == r.id) (given_up message) t.rows)
        × (is_running r.status ≡ false → rows ≡ t.rows)
  fail_outcome d m j =
      let only = member-IsOnly r t.rows d m in
      let e = fail-eq_fail_at only m in
      let delay = backoff_delay (pos r.attempts) in
      let at = now + jitter delay in
      let (low, high) = backoff_delay_bounds (pos r.attempts) in
      let (above, below) = j delay in
      (
        λ run lt. (
          at,
          omega arith,
          omega arith,
          e ∙ fail_at-retry r.id r t.rows refl only at message m (ground arith),
        ),
        λ run le. e ∙ fail_at-give_up r.id r t.rows refl only at message (ground arith) run,
        λ run. e ∙ fail_at-stale r.id r t.rows refl only at message run,
      )

-- With no other statement between them, the updates of Fail are `fail`.
fail-eq-updates :
    (jitter : ℕ → ℕ) (now id : ℕ) (message : Text) (t : Jobs) (r : JobRow)
    → find (λ x. x.id == id) t.rows ≡ some r
    → let (changed, t') = reschedule (now + jitter (backoff_delay (pos r.attempts))) id message t in
      fail jitter now id message t ≡ (if changed then t' else give_up id message t')
unfolding fail fail_found fail_at reschedule give_up
fail-eq-updates jitter now id message t r h = elim (Bool-cases (any (can_retry id) t.rows)) [
  | inl e ↦ rw (h, e) refl
  | inr e ↦
      let at = now + jitter (backoff_delay (pos r.attempts)) in
      rw (h, e, update_where_none _ (rescheduled at message) t.rows (any-false _ t.rows e)) refl
]
