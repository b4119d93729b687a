-- ===== src/Queue/Rows.antt =====
-- The rows of the jobs table: identifiers, and updates with a condition.
use arcticworks_codepeer.Base.{
  ◌≡◌, ◌≢◌, refl, sym, ap, ◌∙◌, Bool, true, false, some, inl, inr, List, [], ◌∷◌, arith, ◌==◌,
  ==_iff, if◌then◌else◌, Bool-cases, All, Pairs, Memᴰ, any, find, All-weaken, All-trivial,
}
use arcticworks_codepeer.Queue.{JobRow, update_where}

abbrev pub HasDistinctIds : List JobRow → Type 0
HasDistinctIds = Pairs (λ a b. a.id ≢ b.id)

-- `r` is the only row with its identifier.
abbrev pub IsOnly : JobRow → List JobRow → Type 0
IsOnly r = All (λ x. x.id ≡ r.id → x ≡ r)

other_ids :
    (r x : JobRow) (rows : List JobRow) → All (λ b. x.id ≢ b.id) rows → Memᴰ r rows → x.id ≢ r.id
other_ids r x [] h m = elim m [ ]
other_ids r x (y ∷ rows) h (Memᴰ.head q) = rw q h.0
other_ids r x (y ∷ rows) h (Memᴰ.tail m) = other_ids r x rows h.1 m

pub member-IsOnly :
    (r : JobRow) (rows : List JobRow) → HasDistinctIds rows → Memᴰ r rows → IsOnly r rows
member-IsOnly r [] d m = tt
member-IsOnly r (x ∷ rows) d (Memᴰ.head q) =
    (λ e. sym q, All-weaken _ _ (λ y n e. absurd (n (ap (λ z. z.id) (sym q) ∙ sym e))) rows d.0)
member-IsOnly r (x ∷ rows) d (Memᴰ.tail m) =
    (λ e. absurd (other_ids r x rows d.0 m e), member-IsOnly r rows d.1 m)

-- Two conditions that agree on the rows give the same update.
pub update_where_cong :
    (p q : JobRow → Bool) (f : JobRow → JobRow) (rows : List JobRow)
    → All (λ r. p r ≡ q r) rows
    → update_where p f rows ≡ update_where q f rows
unfolding update_where
update_where_cong p q f [] h = refl
update_where_cong p q f (r ∷ rows) h = rw (h.0, update_where_cong p q f rows h.1)

pub update_where_none :
    (p : JobRow → Bool) (f : JobRow → JobRow) (rows : List JobRow)
    → All (λ r. p r ≡ false) rows
    → update_where p f rows ≡ rows
unfolding update_where
update_where_none p f [] h = refl
update_where_none p f (r ∷ rows) h = rw (h.0, update_where_none p f rows h.1)

pub any-none :
    (p : JobRow → Bool) (rows : List JobRow) → All (λ r. p r ≡ false) rows → any p rows ≡ false
any-none p [] h = refl
any-none p (r ∷ rows) h = rw (h.0, any-none p rows h.1)

pub any-member :
    (p : JobRow → Bool) (r : JobRow) (rows : List JobRow)
    → Memᴰ r rows
    → p r ≡ true
    → any p rows ≡ true
any-member p r [] m h = elim m [ ]
any-member p r (x ∷ rows) (Memᴰ.head q) h = let e : p x ≡ true = rw q at h in ground arith
any-member p r (x ∷ rows) (Memᴰ.tail m) h = let rest = any-member p r rows m h in ground arith

-- The row of an identifier is found.
pub find-IsOnly :
    (r : JobRow) (rows : List JobRow)
    → IsOnly r rows
    → Memᴰ r rows
    → find (λ x. x.id == r.id) rows ≡ some r
find-IsOnly r [] o m = elim m [ ]
find-IsOnly r (x ∷ rows) o m = elim (Bool-cases (x.id == r.id)) [
  | inl e ↦ rw e (ap some (o.0 ((==_iff x.id r.id).0 e)))
  | inr e ↦ rw e (find-IsOnly r rows o.1 (later m e))
]
  where
    later : Memᴰ r (x ∷ rows) → (x.id == r.id) ≡ false → Memᴰ r rows
    later (Memᴰ.head q) e = absurd (ground (arith, ap (λ z. z.id) q))
    later (Memᴰ.tail n) e = n

-- An update keeps what it keeps in each row.
pub update_where-All {κ} :
    (P : JobRow → Type κ) (p : JobRow → Bool) (f : JobRow → JobRow) (rows : List JobRow)
    → All P rows
    → All (λ r. p r ≡ true → P r → P (f r)) rows
    → All P (update_where p f rows)
unfolding update_where
update_where-All P p f [] h k = tt
update_where-All P p f (r ∷ rows) h k = elim (Bool-cases (p r)) [
  | inl e ↦ rw e (k.0 e h.0, update_where-All P p f rows h.1 k.1)
  | inr e ↦ rw e (h.0, update_where-All P p f rows h.1 k.1)
]

pub update_where-HasDistinctIds :
    (p : JobRow → Bool) (f : JobRow → JobRow) (rows : List JobRow)
    → ((r : JobRow) → (f r).id ≡ r.id)
    → HasDistinctIds rows
    → HasDistinctIds (update_where p f rows)
unfolding update_where
update_where-HasDistinctIds p f [] keeps d = tt
update_where-HasDistinctIds p f (r ∷ rows) keeps d =
    let same : (if p r then f r else r).id ≡ r.id = ground (arith, keeps r) in
    (
      rw same (
          update_where-All (λ b. r.id ≢ b.id) p f rows d.0
            (All-trivial _ rows (λ x e n. rw (keeps x) n))),
      update_where-HasDistinctIds p f rows keeps d.1,
    )

pub any-false :
    (p : JobRow → Bool) (rows : List JobRow) → any p rows ≡ false → All (λ r. p r ≡ false) rows
any-false p [] h = tt
any-false p (r ∷ rows) h = (ground arith, any-false p rows (ground arith))
