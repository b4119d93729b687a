-- ===== src/Analysis/Finish/Publishable.antt =====
-- What holds of every finding that a run stores.
use arcticworks_codepeer.Base.{
  String, ◌≡◌, ◌≢◌, refl, Bool, true, false, not, ◌||◌, Option, none, some, inl, inr, List, [], ◌∷◌,
  arith, if◌then◌else◌, is_nil, str_eq, any, filter, pos, ◌<ℤ◌, All, All-filter, All-trivial,
  All-weaken, subst, Bool-cases, All-cons_some,
}
use arcticworks_codepeer.Base.Text.{Text}
use arcticworks_codepeer.Base.Assoc.{Assoc, has_key}
use arcticworks_codepeer.Domain.{Finding, Suggestion}
use arcticworks_codepeer.Analysis.Findings.{valid_severity, valid_category, dedupe_findings}
use arcticworks_codepeer.Analysis.Caps.Best.{apply_caps-All}
use arcticworks_codepeer.Analysis.Diff.{parse_hunks, hunks_of, new_line_in_diff}
use arcticworks_codepeer.Analysis.Gates.{Settings}
use arcticworks_codepeer.Analysis.Finish.{
  text_at, outside_hunks, anchored, validate_finding, validate_findings, keep_suggestion, repair,
  dedupe_hash, drop_suppressed, finish_findings,
}

-- The finding can be posted: it says something, on a changed file, with a known severity and category;
-- a positive line lies in a hunk if the patch has hunks for the file; a suggestion replaces text that is
-- in the diff or in the file.
pub record IsPublishable (diff ctx : Assoc Text) (f : Finding) : Type 0 where
  pub title : f.title ≢ []
  pub body : f.body ≢ []
  pub changed : has_key f.file diff ≡ true
  pub severity : valid_severity f.severity ≡ true
  pub category : valid_category f.category ≡ true
  pub line :
      pos 0 <ℤ f.line
      → hunks_of f.file (parse_hunks (text_at f.file diff)) ≢ []
      → new_line_in_diff (hunks_of f.file (parse_hunks (text_at f.file diff))) f.line ≡ true
  pub suggestion : (s : Suggestion) → f.suggestion ≡ some s → anchored diff ctx f.file s ≡ true

is_nil-false : {A : Type 0} (xs : List A) → is_nil xs ≡ false → xs ≢ []
is_nil-false [] h e = cc
is_nil-false (x ∷ xs) h e = cc

nil_of_is_nil : {A : Type 0} (xs : List A) → is_nil xs ≡ true → xs ≡ []
nil_of_is_nil [] h = refl
nil_of_is_nil (x ∷ xs) h = cc

suggestion_anchored :
    (diff ctx : Assoc Text) (file : Text) (o : Option Suggestion) (s : Suggestion)
    → keep_suggestion diff ctx file o ≡ some s
    → anchored diff ctx file s ≡ true
unfolding keep_suggestion
suggestion_anchored diff ctx file none s h = cc
suggestion_anchored diff ctx file (some t) s h = elim (Bool-cases (anchored diff ctx file t)) [
  | inl e ↦ ground arith
  | inr e ↦ ground arith
]

in_hunks :
    (diff : Assoc Text) (f : Finding)
    → outside_hunks diff f ≡ false
    → pos 0 <ℤ f.line
    → hunks_of f.file (parse_hunks (text_at f.file diff)) ≢ []
    → new_line_in_diff (hunks_of f.file (parse_hunks (text_at f.file diff))) f.line ≡ true
unfolding outside_hunks
in_hunks diff f h positive some_hunks =
    ground (arith, nil_of_is_nil (hunks_of f.file (parse_hunks (text_at f.file diff))))

severity_repaired : (s : String) → valid_severity (if valid_severity s then s else "medium") ≡ true
severity_repaired s = elim (Bool-cases (valid_severity s)) [
  | inl e ↦ rw e e
  | inr e ↦ rw e (unfold valid_severity in refl)
]

category_repaired : (c : String) → valid_category (if valid_category c then c else "other") ≡ true
category_repaired c = elim (Bool-cases (valid_category c)) [
  | inl e ↦ rw e e
  | inr e ↦ rw e (unfold valid_category in refl)
]

repair-IsPublishable :
    (diff ctx : Assoc Text) (f : Finding)
    → (is_nil f.title || is_nil f.body) ≡ false
    → not (has_key f.file diff) ≡ false
    → outside_hunks diff f ≡ false
    → IsPublishable diff ctx (repair diff ctx f)
repair-IsPublishable diff ctx f texts known inside = record {
  title = unfold repair in is_nil-false f.title (ground arith);
  body = unfold repair in is_nil-false f.body (ground arith);
  changed = unfold repair in ground arith;
  severity = unfold repair in severity_repaired f.severity;
  category = unfold repair in category_repaired f.category;
  line = unfold repair in in_hunks diff f inside;
  suggestion = λ s h.
      unfold repair in suggestion_anchored diff ctx f.file f.suggestion s (unfold repair in h);
}

-- A finding that the loop keeps is publishable.
validate_finding-IsPublishable :
    (diff ctx : Assoc Text) (f g : Finding)
    → validate_finding diff ctx f ≡ some g
    → IsPublishable diff ctx g
unfolding validate_finding
validate_finding-IsPublishable diff ctx f g h =
    elim (Bool-cases (is_nil f.title || is_nil f.body)) [
      | inl e ↦ absurd (ground arith)
      | inr e ↦ elim (Bool-cases (not (has_key f.file diff))) [
        | inl k ↦ absurd (ground arith)
        | inr k ↦ elim (Bool-cases (outside_hunks diff f)) [
          | inl o ↦ absurd (ground arith)
          | inr o ↦
              subst (IsPublishable diff ctx) (ground arith) (repair-IsPublishable diff ctx f e k o)
        ]
      ]
    ]

validate_findings-All :
    (diff ctx : Assoc Text) (fs : List Finding)
    → All (IsPublishable diff ctx) (validate_findings diff ctx fs)
unfolding validate_findings
validate_findings-All diff ctx [] = tt
validate_findings-All diff ctx (f ∷ fs) =
    All-cons_some (IsPublishable diff ctx) (validate_finding diff ctx f) _
      (validate_finding-IsPublishable diff ctx f) (validate_findings-All diff ctx fs)

abbrev pub NotSuppressed : (Text → String) → Option (List String) → Finding → Type 0
NotSuppressed hash none f = Unit
NotSuppressed hash (some keys) f = any (λ k. str_eq k (dedupe_hash hash f)) keys ≡ false

filter-All : (p : Finding → Bool) (fs : List Finding) → All (λ f. p f ≡ true) (filter p fs)
filter-All p [] = tt
filter-All p (f ∷ fs) = elim (Bool-cases (p f)) [
  | inl e ↦ rw e (e, filter-All p fs)
  | inr e ↦ rw e (filter-All p fs)
]

module _ (hash : Text → String) where
  drop_suppressed-All :
      (P : Finding → Type 0) (keys : Option (List String)) (fs : List Finding)
      → All P fs
      → All P (drop_suppressed hash keys fs)
  unfolding drop_suppressed
  drop_suppressed-All P none fs h = h
  drop_suppressed-All P (some keys) fs h = All-filter P _ fs h

  drop_suppressed-NotSuppressed :
      (keys : Option (List String)) (fs : List Finding)
      → All (NotSuppressed hash keys) (drop_suppressed hash keys fs)
  unfolding drop_suppressed
  drop_suppressed-NotSuppressed none fs = All-trivial (λ f. Unit) fs (λ f. tt)
  drop_suppressed-NotSuppressed (some keys) fs =
      All-weaken _ (NotSuppressed hash (some keys)) (λ f h. ground arith) _ (filter-All _ fs)

  -- Whatever the reviewer returned: every finding of the stored result is publishable, and none has a
  -- suppressed key.
  pub finish_findings-IsPublishable :
      (p : Settings) (diff ctx : Assoc Text) (keys : Option (List String)) (fs : List Finding)
      → All (IsPublishable diff ctx) (finish_findings hash p diff ctx keys fs)
        × All (NotSuppressed hash keys) (finish_findings hash p diff ctx keys fs)
  unfolding finish_findings
  finish_findings-IsPublishable p diff ctx keys fs = (
    apply_caps-All (IsPublishable diff ctx) _ p.per_file_cap p.max_findings p.include_nits (
        drop_suppressed-All (IsPublishable diff ctx) keys _
          (validate_findings-All diff ctx (dedupe_findings fs))),
    apply_caps-All (NotSuppressed hash keys) _ p.per_file_cap p.max_findings p.include_nits
        (drop_suppressed-NotSuppressed keys _),
  )
