-- ===== src/Analysis/Findings/Reference.antt =====
-- `dedupeFindings` without its index map: each finding is merged into a list in which every key
-- stands once. The loop of the source computes this.
use arcticworks_codepeer.Base.{
  ℕ, suc, ◌≡◌, refl, ap, ◌∙◌, Bool, Option, none, some, List, [], ◌∷◌, ◌++◌, arith, ltb,
  if◌then◌else◌, length,
}
use arcticworks_codepeer.Base.Text.{Text, text_eq}
use arcticworks_codepeer.Base.Text.Order.{text_eq_iff}
use arcticworks_codepeer.Base.Assoc.{lookup}
use arcticworks_codepeer.Domain.{Finding}
use arcticworks_codepeer.Analysis.Findings.{
  severity_rank, dedupe_key, replace_if_higher, DedupeState, dedupe_step, dedupe_loop,
  dedupe_findings,
}

abbrev pub rank : Finding → ℕ
rank f = severity_rank f.severity

unfoldable pub merge_finding : Finding → List Finding → List Finding
merge_finding f [] = f ∷ []
merge_finding f (g ∷ out) =
    let rest = merge_finding f out in
    if text_eq (dedupe_key g) (dedupe_key f)
    then (if ltb (rank g) (rank f) then f ∷ out else g ∷ out)
    else g ∷ rest

unfoldable pub merge_all : List Finding → List Finding → List Finding
merge_all out [] = out
merge_all out (f ∷ fs) = merge_all (merge_finding f out) fs

-- The position of the first finding with the key.
position : Text → List Finding → Option ℕ
position k [] = none
position k (g ∷ out) =
    let rest = position k out in
    if text_eq (dedupe_key g) k then some 0 else elim rest [ none ↦ none | some i ↦ some (suc i) ]

abbrev at_position : Option ℕ → Finding → List Finding → List Finding
at_position none f out = out ++ f ∷ []
at_position (some i) f out = replace_if_higher out i f

merge_finding-position :
    (f : Finding) (out : List Finding)
    → at_position (position (dedupe_key f) out) f out ≡ merge_finding f out
unfolding merge_finding position replace_if_higher
merge_finding-position f [] = refl
merge_finding-position f (g ∷ out) = ground (arith, merge_finding-position f out)

abbrev first_or : Option ℕ → Bool → ℕ → Option ℕ
first_or none b n = if b then some n else none
first_or (some i) b n = some i

position-merge_finding :
    (k : Text) (f : Finding) (out : List Finding)
    → position k (merge_finding f out)
      ≡ first_or (position k out) (text_eq (dedupe_key f) k) (length out)
unfolding merge_finding position
position-merge_finding k f [] = refl
position-merge_finding k f (g ∷ out) = ground (
  arith,
  position-merge_finding k f out,
  text_eq_iff (dedupe_key g) (dedupe_key f),
  text_eq_iff (dedupe_key g) k,
  text_eq_iff (dedupe_key f) k,
)

-- `seen` finds a key where it first stands in `out`.
abbrev IsIndex : DedupeState → Type 0
IsIndex s = (k : Text) → lookup k s.seen ≡ position k s.out

dedupe_step-merge_finding :
    (s : DedupeState) (f : Finding) → IsIndex s → (dedupe_step s f).out ≡ merge_finding f s.out
unfolding dedupe_step
dedupe_step-merge_finding s f h = ground (arith, h (dedupe_key f), merge_finding-position f s.out)

dedupe_step-IsIndex : (s : DedupeState) (f : Finding) → IsIndex s → IsIndex (dedupe_step s f)
dedupe_step-IsIndex s f h k = rw (dedupe_step-merge_finding s f h) (
    unfold dedupe_step lookup in
    ground (
      arith,
      h k,
      h (dedupe_key f),
      position-merge_finding k f s.out,
      text_eq_iff (dedupe_key f) k,
    ))

dedupe_loop-merge_all :
    (s : DedupeState) (fs : List Finding) → IsIndex s → (dedupe_loop s fs).out ≡ merge_all s.out fs
unfolding dedupe_loop merge_all
dedupe_loop-merge_all s [] h = refl
dedupe_loop-merge_all s (f ∷ fs) h =
    dedupe_loop-merge_all (dedupe_step s f) fs (dedupe_step-IsIndex s f h)
    ∙ ap (λ out. merge_all out fs) (dedupe_step-merge_finding s f h)

-- The loop over the index map and the slice computes the merge.
pub dedupe_findings-eq-merge_all : (fs : List Finding) → dedupe_findings fs ≡ merge_all [] fs
unfolding dedupe_findings
dedupe_findings-eq-merge_all fs =
    dedupe_loop-merge_all (record { seen = []; out = [] }) fs (λ k. unfold lookup position in refl)
