-- ===== src/Queue/Claim.antt =====
-- Which job `Dequeue` hands out.
use arcticworks_codepeer.Base.{
  ℕ, ◌≤◌, ◌↔◌, ◌≡◌, ◌≢◌, refl, Bool, true, false, Option, none, some, inl, inr, List, [], ◌∷◌,
  arith, ◌==◌, if◌then◌else◌, Bool-cases, All, Memᴰ, All-weaken,
}
use arcticworks_codepeer.Queue.{
  JobRow, Jobs, is_pending, claimable, runs_before, next_row, claim, take_row, dequeue,
  update_where,
}

-- The row that is claimed next: claimable, and no claimable row comes before it; none if no row is
-- claimable.
abbrev pub IsNext : (ℕ → Bool) → ℕ → List JobRow → Option JobRow → Type 0
IsNext locked now rows none = All (λ r. claimable locked now r ≡ false) rows
IsNext locked now rows (some j) =
    Memᴰ j rows
    × (claimable locked now j ≡ true)
    × All (λ r. claimable locked now r ≡ true → runs_before r j ≡ false) rows

runs_before_asymm : (a b : JobRow) → runs_before a b ≡ true → runs_before b a ≡ false
runs_before_asymm a b h = ground arith

runs_before_negtrans :
    (a b c : JobRow) → runs_before a b ≡ false → runs_before b c ≡ false → runs_before a c ≡ false
runs_before_negtrans a b c h k = ground arith

runs_before_irrefl : (a : JobRow) → runs_before a a ≡ false
runs_before_irrefl a = ground arith

module _ (locked : ℕ → Bool) (now : ℕ) where
  skip_row :
      (r : JobRow) (rows : List JobRow) (o : Option JobRow)
      → claimable locked now r ≡ false
      → IsNext locked now rows o
      → IsNext locked now (r ∷ rows) o
  skip_row r rows none e h = (e, h)
  skip_row r rows (some j) e (m, c, b) = (Memᴰ.tail m, c, (λ k. ground arith, b))

  earlier-IsNext :
      (r : JobRow) (rows : List JobRow) (o : Option JobRow)
      → claimable locked now r ≡ true
      → IsNext locked now rows o
      → IsNext locked now
          (r ∷ rows)
          (elim o [ none ↦ some r | some m ↦ if runs_before m r then some m else some r ])
  earlier-IsNext r rows none e h = (
    Memᴰ.head refl,
    e,
    (λ k. runs_before_irrefl r, All-weaken _ _ (λ x n k. ground arith) rows h),
  )
  earlier-IsNext r rows (some j) e (m, c, b) = elim (Bool-cases (runs_before j r)) [
    | inl t ↦ rw t (Memᴰ.tail m, c, (λ k. runs_before_asymm j r t, b))
    | inr t ↦ rw t (
      Memᴰ.head refl,
      e,
      (
        λ k. runs_before_irrefl r,
        All-weaken _ _ (λ x n k. runs_before_negtrans x j r (n k) t) rows b,
      ),
    )
  ]

  pub next_row-IsNext : (rows : List JobRow) → IsNext locked now rows (next_row locked now rows)
  unfolding next_row
  next_row-IsNext [] = tt
  next_row-IsNext (r ∷ rows) = elim (Bool-cases (claimable locked now r)) [
    | inl e ↦ rw e (earlier-IsNext r rows (next_row locked now rows) e (next_row-IsNext rows))
    | inr e ↦ rw e (skip_row r rows (next_row locked now rows) e (next_row-IsNext rows))
  ]

-- A pending job that is due and that no other transaction holds.
abbrev pub CanRun : (ℕ → Bool) → ℕ → JobRow → Type 0
CanRun locked now r = (is_pending r.status ≡ true) × (r.run_at ≤ now) × (locked r.id ≡ false)

-- No job that can run is due before it, or at the same time with a smaller number.
abbrev pub IsFirst : (ℕ → Bool) → ℕ → List JobRow → JobRow → Type 0
IsFirst locked now rows j =
    Memᴰ j rows
    × CanRun locked now j
    × All (λ r. CanRun locked now r → (j.run_at ≤ r.run_at) × (j.run_at ≡ r.run_at → j.id ≤ r.id))
        rows

-- What `Dequeue` returns, and what it leaves.
abbrev pub Claims : (ℕ → Bool) → ℕ → ℕ → Jobs → Option JobRow × Jobs → Type 0
Claims locked now ttl t (none, t') = All (λ r. ¬ CanRun locked now r) t.rows × (t' ≡ t)
Claims locked now ttl t (some j, t') =
    (r : JobRow) × IsFirst locked now t.rows r
    × (j ≡ claim now ttl r)
    × (t'.rows ≡ update_where (λ x. x.id == r.id) (claim now ttl) t.rows)

claimable-CanRun :
    (locked : ℕ → Bool) (now : ℕ) (r : JobRow)
    → (claimable locked now r ≡ true) ↔ CanRun locked now r
claimable-CanRun locked now r = (λ h. (ground arith, ground arith, ground arith), λ h. ground arith)

IsNext-IsFirst :
    (locked : ℕ → Bool) (now : ℕ) (rows : List JobRow) (j : JobRow)
    → IsNext locked now rows (some j)
    → IsFirst locked now rows j
IsNext-IsFirst locked now rows j (m, c, b) = (
  m,
  (claimable-CanRun locked now j).0 c,
  All-weaken _ _ (λ r k can. in_order r (k ((claimable-CanRun locked now r).1 can))) rows b,
)
  where
    in_order :
        (r : JobRow)
        → runs_before r j ≡ false
        → (j.run_at ≤ r.run_at) × (j.run_at ≡ r.run_at → j.id ≤ r.id)
    in_order r e = (ground arith, λ q. ground arith)

take_row-Claims :
    (locked : ℕ → Bool) (now ttl : ℕ) (t : Jobs) (o : Option JobRow)
    → IsNext locked now t.rows o
    → Claims locked now ttl t (take_row now ttl t o)
unfolding take_row
take_row-Claims locked now ttl t none h = (
  All-weaken _ _ (λ r e can. ground (arith, (claimable-CanRun locked now r).1 can)) t.rows h,
  refl,
)
take_row-Claims locked now ttl t (some r) h = (r, IsNext-IsFirst locked now t.rows r h, refl, refl)

-- For every table, time and set of locked rows: if `Dequeue` returns nothing, no job can run (is
-- pending, due and not locked), and nothing has changed; else it returns, claimed, the job that is due
-- first of those that can run, the smallest number first, and has claimed it in the table.
pub dequeue-Claims :
    (locked : ℕ → Bool) (now ttl : ℕ) (t : Jobs)
    → Claims locked now ttl t (dequeue locked now ttl t)
unfolding dequeue
dequeue-Claims locked now ttl t =
    take_row-Claims locked now ttl t _ (next_row-IsNext locked now t.rows)

-- No row with the identifier is pending.
abbrev pub NotPending : ℕ → List JobRow → Type 0
NotPending id = All (λ r. (r.id ≡ id) → is_pending r.status ≡ false)

claim-NotPending :
    (id now ttl : ℕ) (rows : List JobRow)
    → NotPending id (update_where (λ x. x.id == id) (claim now ttl) rows)
unfolding update_where
claim-NotPending id now ttl [] = tt
claim-NotPending id now ttl (r ∷ rows) = elim (Bool-cases (r.id == id)) [
  | inl e ↦ rw e (λ k. refl, claim-NotPending id now ttl rows)
  | inr e ↦ rw e (λ k. ground arith, claim-NotPending id now ttl rows)
]

NotPending-at :
    (id : ℕ) (rows : List JobRow) (r : JobRow)
    → NotPending id rows
    → Memᴰ r rows
    → r.id ≡ id
    → is_pending r.status ≡ false
NotPending-at id [] r h m e = elim m [ ]
NotPending-at id (x ∷ rows) r h (Memᴰ.head q) e = rw q (h.0 (rw q at e))
NotPending-at id (x ∷ rows) r h (Memᴰ.tail m) e = NotPending-at id rows r h.1 m e

-- A table without a pending row of the identifier hands out no job with it.
Claims-other :
    (id : ℕ) (locked : ℕ → Bool) (now ttl : ℕ) (t : Jobs) (j : JobRow) (out : Option JobRow × Jobs)
    → NotPending id t.rows
    → Claims locked now ttl t out
    → out.0 ≡ some j
    → j.id ≢ id
Claims-other id locked now ttl t j (none, t') h c e q = cc
Claims-other id locked now ttl t j (some k, t') h (r, (m, d, b), z, u) e q =
    let n = NotPending-at id t.rows r h m in ground arith

-- A claimed job is not pending in the table that is left.
Claims-closed :
    (locked : ℕ → Bool) (now ttl : ℕ) (t : Jobs) (j : JobRow) (out : Option JobRow × Jobs)
    → Claims locked now ttl t out
    → out.0 ≡ some j
    → NotPending j.id out.1.rows
Claims-closed locked now ttl t j (none, t') c e = absurd cc
Claims-closed locked now ttl t j (some k, t') (r, n, z, u) e =
    let same : j.id ≡ r.id = ground arith in rw (u, same) (claim-NotPending r.id now ttl t.rows)

-- Two claims one after the other, at any times, never hand out the same job.
dequeue_exclusive :
    (locked locked' : ℕ → Bool) (now now' ttl ttl' : ℕ) (t : Jobs) (j k : JobRow)
    → (dequeue locked now ttl t).0 ≡ some j
    → (dequeue locked' now' ttl' (dequeue locked now ttl t).1).0 ≡ some k
    → k.id ≢ j.id
dequeue_exclusive locked locked' now now' ttl ttl' t j k e f =
    let t' = (dequeue locked now ttl t).1 in
    Claims-other j.id locked' now' ttl' t' k (dequeue locked' now' ttl' t')
      (Claims-closed locked now ttl t j (dequeue locked now ttl t) (dequeue-Claims locked now ttl t)
        e)
      (dequeue-Claims locked' now' ttl' t') f
