-- ===== src/Posting/Approve/Quiet.antt =====
-- The steps before a fix PR is opened, and the mark of an issue that has one.
use arcticworks_codepeer.Base.{
  ℕ, ◌+◌, ◌<◌, ◌≡◌, refl, sym, ap, ◌∙◌, String, Bool, true, Option, none, some, inl, inr, List, [],
  ◌∷◌, ◌++◌, append_assoc, append-nil, arith, Bool-cases, ltb, leb, if◌then◌else◌, find, length,
}
use arcticworks_codepeer.Base.Text.{Text, index}
use arcticworks_codepeer.Base.Result.{Result, ok, err}
use arcticworks_codepeer.Base.Action.{resume, attempt}
use arcticworks_codepeer.Domain.{IssueCommandPayload, FindingRecord, IssueRecord, Suggestion}
use arcticworks_codepeer.Store.{Store, update_rows}
use arcticworks_codepeer.Store.Issues.{is_issue, close_issue, issue_by_number, set_issue_fix_pr}
use arcticworks_codepeer.Posting.Approve.{
  max_fix_files, replace_at, usable_fix, issue_call, add_blob, replace_in, fix_content,
  fix_suggestion, fix_file, fix_files,
}
use arcticworks_codepeer.Posting.World.{
  Github, Request, create_pr, create_blob, get_file, TreeEntry, Call, World, PostError, Posting,
  perform,
}
use arcticworks_codepeer.Posting.Trace.{is_ok, succeeded, succeeded-append}

abbrev pub prs_in : Request → ℕ
prs_in (create_pr title body head base) = 1
prs_in _ = 0

find-update_rows {ℓ} :
    {A : Type ℓ} (p : A → Bool) (f : A → A) (xs : List A)
    → ((x : A) → p (f x) ≡ p x)
    → find p (update_rows p f xs) ≡ elim (find p xs) [ none ↦ none | some x ↦ some (f x) ]
unfolding update_rows
find-update_rows p f [] h = refl
find-update_rows p f (x ∷ xs) h = elim (Bool-cases (p x)) [
  | inl e ↦ rw (e, h x, e) refl
  | inr e ↦ rw (e, e) (find-update_rows p f xs h)
]

found_first {ℓ} :
    {A : Type ℓ} (p : A → Bool) (x : A) (xs : List A) (a : A)
    → p x ≡ true
    → find p (x ∷ xs) ≡ some a
    → a ≡ x
found_first p x xs a e h = ground arith

pub find-true {ℓ} :
    {A : Type ℓ} (p : A → Bool) (xs : List A) (a : A) → find p xs ≡ some a → p a ≡ true
find-true p [] a h = absurd cc
find-true p (x ∷ xs) a h = elim (Bool-cases (p x)) [
  | inl e ↦ ap p (found_first p x xs a e h) ∙ e
  | inr e ↦ find-true p xs a (ground arith)
]

module _ (repo_id issue_number : ℕ) where
  -- 1 for an issue that is marked with a fix PR, and 0 else.
  abbrev pub mark_of : Option IssueRecord → ℕ
  mark_of none = 0
  mark_of (some i) = if ltb 0 i.fix_pr_number then 1 else 0

  abbrev pub mark : Store → ℕ
  mark s = mark_of (issue_by_number repo_id issue_number s)

  abbrev closed : IssueRecord → IssueRecord
  closed i = record i { status = "closed" }

  abbrev numbered : ℕ → IssueRecord → IssueRecord
  numbered n i = record i { fix_pr_number = n }

  mark_of-closed :
      (o : Option IssueRecord)
      → mark_of (elim o [ none ↦ none | some i ↦ some (closed i) ]) ≡ mark_of o
  mark_of-closed none = refl
  mark_of-closed (some i) = refl

  pub mark-close_issue : (s : Store) → mark (close_issue repo_id issue_number s) ≡ mark s
  unfolding close_issue issue_by_number
  mark-close_issue s =
      ap mark_of (find-update_rows (is_issue repo_id issue_number) closed s.issues (λ x. refl))
      ∙ mark_of-closed (find (is_issue repo_id issue_number) s.issues)

  pub mark-set_issue_fix_pr :
      (s : Store) (i : IssueRecord) (n : ℕ)
      → issue_by_number repo_id issue_number s ≡ some i
      → 0 < n
      → mark (set_issue_fix_pr repo_id issue_number n s) ≡ 1
  unfolding set_issue_fix_pr issue_by_number
  mark-set_issue_fix_pr s i n h k =
      ap mark_of
        (find-update_rows (is_issue repo_id issue_number) (numbered n) s.issues (λ x. refl))
      ∙ rw h (ground arith)

module _ (gh : Github) where
  -- From `w` to `w'` no fix PR is opened, and the store stays.
  abbrev pub Quiet : World → World → Type 0
  Quiet w w' =
      (w'.store ≡ w.store)
      × ((cs : List Call) × (w'.calls ≡ w.calls ++ cs) × (succeeded gh prs_in w.calls cs ≡ 0))

  pub Quiet-refl : (w : World) → Quiet w w
  Quiet-refl w = (refl, ([], sym (append-nil w.calls), refl))

  pub succeeded-both :
      (a b c cs ds : List Call)
      → b ≡ a ++ cs
      → c ≡ b ++ ds
      → (c ≡ a ++ (cs ++ ds))
        × (succeeded gh prs_in a (cs ++ ds) ≡ succeeded gh prs_in a cs + succeeded gh prs_in b ds)
  succeeded-both a b c cs ds e f = (
    f ∙ (ap (λ x. x ++ ds) e ∙ append_assoc a cs ds),
    succeeded-append gh prs_in a cs ds
        ∙ ap (λ x. succeeded gh prs_in a cs + succeeded gh prs_in x ds) (sym e),
  )

  pub Quiet-trans : (u v w : World) → Quiet u v → Quiet v w → Quiet u w
  Quiet-trans u v w (s, (cs, e, x)) (t, (ds, f, y)) =
      let (g, z) = succeeded-both u.calls v.calls w.calls cs ds e f in
      (t ∙ s, (cs ++ ds, g, omega arith))

  pub performed-Quiet :
      {A : Type 0} (answer : List Call → Call → Result Text A) (c : Call) (w : World)
      → prs_in c.request ≡ 0
      → Quiet w (perform answer c w).1
  performed-Quiet answer c w h = elim (Bool-cases (is_ok (gh.number w.calls c))) [
    | inl e ↦ (refl, (c ∷ [], refl, rw e (ground arith)))
    | inr e ↦ (refl, (c ∷ [], refl, rw e (ground arith)))
  ]

  pub then-Quiet :
      {A B : Type 0} (w : World) (rest : A → Posting B) (o : Result PostError A × World)
      → Quiet w o.1
      → ((a : A) (x : World) → Quiet x (rest a x).1)
      → Quiet w (resume rest o).1
  then-Quiet w rest (err e, v) q k = q
  then-Quiet w rest (ok a, v) q k = Quiet-trans w v (rest a v).1 q (k a v)

module _ (gh : Github) (payload : IssueCommandPayload) where
  replace_in-Quiet :
      (f : FindingRecord) (s : Suggestion) (entries : List TreeEntry) (content : Text)
      (o : Option ℕ) (w : World)
      → Quiet gh w (replace_in gh payload f s entries content o w).1
  unfolding replace_in add_blob
  replace_in-Quiet f s entries content none w = Quiet-refl gh w
  replace_in-Quiet f s entries content (some i) w =
      let c = issue_call gh payload (create_blob (replace_at content i s)) in
      then-Quiet gh w (add_blob gh payload f entries) (perform gh.name c w)
        (performed-Quiet gh gh.name c w refl) (λ sha x. Quiet-refl gh x)

  fix_content-Quiet :
      (f : FindingRecord) (s : Suggestion) (entries : List TreeEntry) (r : Result PostError Text)
      (w : World)
      → Quiet gh w (fix_content gh payload f s entries r w).1
  unfolding fix_content
  fix_content-Quiet f s entries (err e) w = Quiet-refl gh w
  fix_content-Quiet f s entries (ok content) w =
      replace_in-Quiet f s entries content (index content s.old) w

  fix_suggestion-Quiet :
      (base : String) (f : FindingRecord) (entries : List TreeEntry) (o : Option Suggestion)
      (w : World)
      → Quiet gh w (fix_suggestion gh payload base f entries o w).1
  unfolding fix_suggestion
  fix_suggestion-Quiet base f entries none w = Quiet-refl gh w
  fix_suggestion-Quiet base f entries (some s) w =
      let c = issue_call gh payload (get_file f.file base) in
      then-Quiet gh w (fix_content gh payload f s entries) (attempt (perform gh.content c) w)
        (performed-Quiet gh gh.content c w refl) (λ r x. fix_content-Quiet f s entries r x)

  fix_file-Quiet :
      (base : String) (f : FindingRecord) (entries : List TreeEntry) (w : World)
      → Quiet gh w (fix_file gh payload base f entries w).1
  unfolding fix_file
  fix_file-Quiet base f entries w = elim (Bool-cases (leb max_fix_files (length entries))) [
    | inl e ↦ rw e (Quiet-refl gh w)
    | inr e ↦ rw e (fix_suggestion-Quiet base f entries (usable_fix f.suggestion) w)
  ]

  pub fix_files-Quiet :
      (base : String) (fs : List FindingRecord) (entries : List TreeEntry) (w : World)
      → Quiet gh w (fix_files gh payload base fs entries w).1
  unfolding fix_files
  fix_files-Quiet base [] entries w = Quiet-refl gh w
  fix_files-Quiet base (f ∷ fs) entries w =
      then-Quiet gh w (fix_files gh payload base fs) (fix_file gh payload base f entries w)
        (fix_file-Quiet base f entries w) (fix_files-Quiet base fs)
