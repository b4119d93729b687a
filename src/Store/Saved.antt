-- ===== src/Store/Saved.antt =====
-- What `SaveFindings` leaves in the table.
use arcticworks_codepeer.Base.{
  ℕ, ◌≡◌, ◌≢◌, refl, ◌∙◌, String, Bool, true, false, ◌||◌, inl, inr, List, [], ◌∷◌, ◌++◌, arith,
  Bool-cases, str_eq_iff, is_nil, any, filter, ◌==◌, All, All-append, Pairs,
}
use arcticworks_codepeer.Base.Result.{ok}
use arcticworks_codepeer.Domain.{Finding, FindingRecord, AnalysisRun}
use arcticworks_codepeer.Store.{Store}
use arcticworks_codepeer.Store.Findings.{
  is_finding, insert_finding, insert_findings, save_findings, findings_for_run,
}

-- UNIQUE (run_id, dedupe_hash)
abbrev pub HasUniqueHashes : List FindingRecord → Type 0
HasUniqueHashes = Pairs (λ a b. is_finding b.run_id b.dedupe_hash a ≡ false)

append_new-HasUniqueHashes :
    (rows : List FindingRecord) (r : FindingRecord)
    → any (is_finding r.run_id r.dedupe_hash) rows ≡ false
    → HasUniqueHashes rows
    → HasUniqueHashes (rows ++ r ∷ [])
append_new-HasUniqueHashes [] r h d = (tt, tt)
append_new-HasUniqueHashes (x ∷ rows) r h d = (
  All-append _ rows (r ∷ []) d.0 (ground arith, tt),
  append_new-HasUniqueHashes rows r (ground arith) d.1,
)

any-append_left {ℓ} :
    {A : Type ℓ} (p : A → Bool) (xs ys : List A) → any p xs ≡ true → any p (xs ++ ys) ≡ true
any-append_left p [] ys h = cc
any-append_left p (x ∷ xs) ys h = ground (arith, any-append_left p xs ys)

any-append_last {ℓ} :
    {A : Type ℓ} (p : A → Bool) (xs : List A) (x : A) → p x ≡ true → any p (xs ++ x ∷ []) ≡ true
any-append_last p [] x h = ground arith
any-append_last p (y ∷ xs) x h = ground (arith, any-append_last p xs x)

filter-append_last {ℓ} :
    {A : Type ℓ} (p : A → Bool) (xs : List A) (x : A)
    → p x ≡ false
    → filter p (xs ++ x ∷ []) ≡ filter p xs
filter-append_last p [] x h = ground arith
filter-append_last p (y ∷ xs) x h = ground (arith, filter-append_last p xs x)

module _ (run_id : ℕ) where
  insert_finding-HasUniqueHashes :
      (hash : String) (f : Finding) (s : Store)
      → HasUniqueHashes s.findings
      → HasUniqueHashes (insert_finding run_id hash f s).findings
  unfolding insert_finding
  insert_finding-HasUniqueHashes hash f s d =
      elim (Bool-cases (any (is_finding run_id hash) s.findings)) [
        | inl e ↦ rw e d
        | inr e ↦ rw e (append_new-HasUniqueHashes s.findings _ e d)
      ]

  -- A row that is there stays, and the finding is there.
  insert_finding_keeps :
      (p : FindingRecord → Bool) (hash : String) (f : Finding) (s : Store)
      → any p s.findings ≡ true
      → any p (insert_finding run_id hash f s).findings ≡ true
  unfolding insert_finding
  insert_finding_keeps p hash f s h = elim (Bool-cases (any (is_finding run_id hash) s.findings)) [
    | inl e ↦ rw e h
    | inr e ↦ rw e (any-append_left p s.findings _ h)
  ]

  insert_finding_stores :
      (hash : String) (f : Finding) (s : Store)
      → any (is_finding run_id hash) (insert_finding run_id hash f s).findings ≡ true
  unfolding insert_finding
  insert_finding_stores hash f s = elim (Bool-cases (any (is_finding run_id hash) s.findings)) [
    | inl e ↦ rw e e
    | inr e ↦ rw e (
        any-append_last (is_finding run_id hash) s.findings _
          (ground (arith, str_eq_iff hash hash)))
  ]

  insert_finding_others :
      (other : ℕ) (hash : String) (f : Finding) (s : Store)
      → other ≢ run_id
      → findings_for_run other (insert_finding run_id hash f s) ≡ findings_for_run other s
  unfolding insert_finding findings_for_run
  insert_finding_others other hash f s n =
      elim (Bool-cases (any (is_finding run_id hash) s.findings)) [
        | inl e ↦ rw e refl
        | inr e ↦ rw e (filter-append_last _ s.findings _ (ground arith))
      ]

  module _ (hash : Finding → String) where
    insert_findings-HasUniqueHashes :
        (fs : List Finding) (s : Store)
        → HasUniqueHashes s.findings
        → HasUniqueHashes (insert_findings run_id hash fs s).findings
    unfolding insert_findings
    insert_findings-HasUniqueHashes [] s d = d
    insert_findings-HasUniqueHashes (f ∷ fs) s d =
        insert_findings-HasUniqueHashes fs (insert_finding run_id (hash f) f s)
          (insert_finding-HasUniqueHashes (hash f) f s d)

    insert_findings_keeps :
        (p : FindingRecord → Bool) (fs : List Finding) (s : Store)
        → any p s.findings ≡ true
        → any p (insert_findings run_id hash fs s).findings ≡ true
    unfolding insert_findings
    insert_findings_keeps p [] s h = h
    insert_findings_keeps p (f ∷ fs) s h =
        insert_findings_keeps p fs (insert_finding run_id (hash f) f s)
          (insert_finding_keeps p (hash f) f s h)

    insert_findings_stores :
        (fs : List Finding) (s : Store)
        → All
            (λ f.
              any (is_finding run_id (hash f)) (insert_findings run_id hash fs s).findings ≡ true)
            fs
    unfolding insert_findings
    insert_findings_stores [] s = tt
    insert_findings_stores (f ∷ fs) s = (
      insert_findings_keeps (is_finding run_id (hash f)) fs (insert_finding run_id (hash f) f s)
          (insert_finding_stores (hash f) f s),
      insert_findings_stores fs (insert_finding run_id (hash f) f s),
    )

    insert_findings_others :
        (other : ℕ) (fs : List Finding) (s : Store)
        → other ≢ run_id
        → findings_for_run other (insert_findings run_id hash fs s) ≡ findings_for_run other s
    unfolding insert_findings
    insert_findings_others other [] s n = refl
    insert_findings_others other (f ∷ fs) s n =
        insert_findings_others other fs (insert_finding run_id (hash f) f s) n
        ∙ insert_finding_others other (hash f) f s n

    saved :
        (fs : List Finding) (s s' : Store)
        → save_findings run_id fs hash s ≡ ok s'
        → s' ≡ insert_findings run_id hash fs s
    unfolding save_findings
    saved fs s s' h =
        elim (Bool-cases (is_nil fs || any (λ (r : AnalysisRun). r.id == run_id) s.runs)) [
          | inl e ↦ ground arith
          | inr e ↦ absurd (ground arith)
        ]

    -- If findings are saved in a table in which no run has two rows with one hash, this still holds, each
    -- of the findings has a row of the run with its hash, and the rows of every other run are the same.
    pub save_findings_contract :
        (fs : List Finding) (s s' : Store)
        → save_findings run_id fs hash s ≡ ok s'
        → HasUniqueHashes s.findings
        → HasUniqueHashes s'.findings
          × All (λ f. any (is_finding run_id (hash f)) s'.findings ≡ true) fs
          × ((other : ℕ) → other ≢ run_id → findings_for_run other s' ≡ findings_for_run other s)
    save_findings_contract fs s s' h d = rw (saved fs s s' h) (
      insert_findings-HasUniqueHashes fs s d,
      insert_findings_stores fs s,
      λ other n. insert_findings_others other fs s n,
    )
