-- ===== src/Analysis/Caps/Best.antt =====
-- The order of what `applyCaps` keeps and cuts off.
use arcticworks_codepeer.Base.{
  ℕ, zero, suc, ◌+◌, ◌≡◌, Bool, true, false, not, inl, inr, List, [], ◌∷◌, arith, Bool-cases,
  str_eq, String, ◌⊎◌, ◌<◌, ◌<ℤ◌, if◌then◌else◌, All-weaken, take, drop, All, Pairs, All-filter,
  All-take, Pairs-filter, Pairs-take, ℤ, pos, pos_part, leb_ℤ, ltb_ℤ, ◌&&◌, length, All-drop,
  All-trivial, drop-eq-nil, Memᴰ, All-members,
}
use arcticworks_codepeer.Base.Text.{text_lt}
use arcticworks_codepeer.Base.Text.Order.{text_eq_iff, text_lt_asymm}
use arcticworks_codepeer.Analysis.Findings.{severity_rank}
use arcticworks_codepeer.Base.Assoc.{Assoc, insert}
use arcticworks_codepeer.Base.Sort.{sort_stable, IsSorted, sort_stable-All}
use arcticworks_codepeer.Domain.{Finding}
use arcticworks_codepeer.Analysis.Caps.{
  finding_less, drop_nits, count_of, cap_loop, cap_per_file, cap_total, apply_caps,
}
use arcticworks_codepeer.Analysis.Caps.Order.{sort_findings-IsSorted}

module _ {κ} (P : Finding → Type κ) where
  cap_loop-All :
      (cap : ℤ) (counts : Assoc ℕ) (fs : List Finding) → All P fs → All P (cap_loop cap counts fs)
  unfolding cap_loop
  cap_loop-All cap counts [] h = h
  cap_loop-All cap counts (f ∷ fs) h =
      elim (Bool-cases (leb_ℤ cap (pos (count_of f.file counts)))) [
        | inl e ↦ rw e (cap_loop-All cap counts fs h.1)
        | inr e ↦
            rw e (h.0, cap_loop-All cap (insert f.file (count_of f.file counts + 1) counts) fs h.1)
      ]

  cap_per_file-All : (cap : ℤ) (fs : List Finding) → All P fs → All P (cap_per_file cap fs)
  unfolding cap_per_file
  cap_per_file-All cap fs h = elim (Bool-cases (ltb_ℤ (pos 0) cap)) [
    | inl e ↦ rw e (cap_loop-All cap [] fs h)
    | inr e ↦ rw e h
  ]

  cap_total-All : (m : ℤ) (fs : List Finding) → All P fs → All P (cap_total m fs)
  unfolding cap_total
  cap_total-All m fs h = elim (Bool-cases (ltb_ℤ (pos 0) m && ltb_ℤ m (pos (length fs)))) [
    | inl e ↦ rw e (All-take P (pos_part m) fs h)
    | inr e ↦ rw e h
  ]

  drop_nits-All : (b : Bool) (fs : List Finding) → All P fs → All P (drop_nits b fs)
  unfolding drop_nits
  drop_nits-All true fs h = h
  drop_nits-All false fs h = All-filter P (λ f. not (str_eq f.severity "nit")) fs h

  -- What holds of every finding holds of every finding that is kept.
  pub apply_caps-All :
      (fs : List Finding) (cap m : ℤ) (b : Bool) → All P fs → All P (apply_caps fs cap m b)
  unfolding apply_caps
  apply_caps-All fs cap m b h =
      cap_total-All m _
        (cap_per_file-All cap _ (drop_nits-All b _ (sort_stable-All finding_less P fs h)))

module _ {κ} (R : Finding → Finding → Type κ) where
  cap_loop-Pairs :
      (cap : ℤ) (counts : Assoc ℕ) (fs : List Finding)
      → Pairs R fs
      → Pairs R (cap_loop cap counts fs)
  unfolding cap_loop
  cap_loop-Pairs cap counts [] h = h
  cap_loop-Pairs cap counts (f ∷ fs) h =
      elim (Bool-cases (leb_ℤ cap (pos (count_of f.file counts)))) [
        | inl e ↦ rw e (cap_loop-Pairs cap counts fs h.1)
        | inr e ↦
            let counts' = insert f.file (count_of f.file counts + 1) counts in
            rw e (cap_loop-All (R f) cap counts' fs h.0, cap_loop-Pairs cap counts' fs h.1)
      ]

  cap_per_file-Pairs : (cap : ℤ) (fs : List Finding) → Pairs R fs → Pairs R (cap_per_file cap fs)
  unfolding cap_per_file
  cap_per_file-Pairs cap fs h = elim (Bool-cases (ltb_ℤ (pos 0) cap)) [
    | inl e ↦ rw e (cap_loop-Pairs cap [] fs h)
    | inr e ↦ rw e h
  ]

  cap_total-Pairs : (m : ℤ) (fs : List Finding) → Pairs R fs → Pairs R (cap_total m fs)
  unfolding cap_total
  cap_total-Pairs m fs h = elim (Bool-cases (ltb_ℤ (pos 0) m && ltb_ℤ m (pos (length fs)))) [
    | inl e ↦ rw e (Pairs-take R (pos_part m) fs h)
    | inr e ↦ rw e h
  ]

  drop_nits-Pairs : (b : Bool) (fs : List Finding) → Pairs R fs → Pairs R (drop_nits b fs)
  unfolding drop_nits
  drop_nits-Pairs true fs h = h
  drop_nits-Pairs false fs h = Pairs-filter R (λ f. not (str_eq f.severity "nit")) fs h

  take-drop-Pairs :
      (n : ℕ) (fs : List Finding) → Pairs R fs → All (λ a. All (R a) (drop n fs)) (take n fs)
  take-drop-Pairs zero fs h = tt
  take-drop-Pairs (suc n) [] h = tt
  take-drop-Pairs (suc n) (f ∷ fs) h = (All-drop (R f) n fs h.0, take-drop-Pairs n fs h.1)

-- The findings that meet the per-file cap, before the total cap.
abbrev pub capped : List Finding → ℤ → Bool → List Finding
capped fs cap b = cap_per_file cap (drop_nits b (sort_stable finding_less fs))

capped-IsSorted : (fs : List Finding) (cap : ℤ) (b : Bool) → IsSorted finding_less (capped fs cap b)
capped-IsSorted fs cap b =
    cap_per_file-Pairs (λ x y. finding_less y x ≡ false) cap _
      (drop_nits-Pairs (λ x y. finding_less y x ≡ false) b _ (sort_findings-IsSorted fs))

cut_off :
    (fs : List Finding) (cap : ℤ) (m : ℕ) (b : Bool)
    → All
        (λ a. All (λ c. finding_less c a ≡ false) (drop (suc m) (capped fs cap b)))
        (apply_caps fs cap (pos (suc m)) b)
unfolding apply_caps cap_total
cut_off fs cap m b =
    elim (Bool-cases
      (ltb_ℤ (pos 0) (pos (suc m)) && ltb_ℤ (pos (suc m)) (pos (length (capped fs cap b))))) [
        | inl e ↦
            rw e (
              take-drop-Pairs (λ x y. finding_less y x ≡ false) (suc m) _
                (capped-IsSorted fs cap b))
        | inr e ↦
            rw (e, drop-eq-nil (suc m) (capped fs cap b) (ground arith))
              (All-trivial (λ a. Unit) (capped fs cap b) (λ a. tt))
      ]

-- For all findings and limits: the kept findings are in the order of the sort, and each is one of the
-- given findings.
apply_caps-IsSorted :
    (fs : List Finding) (cap m : ℤ) (b : Bool)
    → IsSorted finding_less (apply_caps fs cap m b) × All (λ f. Memᴰ f fs) (apply_caps fs cap m b)
apply_caps-IsSorted fs cap m b = (
  unfold apply_caps in
      cap_total-Pairs (λ x y. finding_less y x ≡ false) m _ (capped-IsSorted fs cap b),
  apply_caps-All (λ f. Memᴰ f fs) fs cap m b (All-members fs),
)

-- The order that a reader expects, said without the code's ranks: the place of a severity in this list, with
-- any other text behind it, then the file, then the line.
abbrev severities : List String
severities = "critical" ∷ "high" ∷ "medium" ∷ "low" ∷ "nit" ∷ []

abbrev place : String → List String → ℕ
place s [] = 0
place s (t ∷ ts) = if str_eq s t then 0 else suc (place s ts)

-- The first finding belongs ahead of the second.
abbrev pub IsAhead : Finding → Finding → Type 0
IsAhead c a =
    let i = place c.severity severities in
    let j = place a.severity severities in
    (i < j)
    ⊎ ((i ≡ j) × ((text_lt c.file a.file ≡ true) ⊎ ((c.file ≡ a.file) × (c.line <ℤ a.line))))

severity_rank-place : (s : String) → severity_rank s + place s severities ≡ 5
unfolding severity_rank
severity_rank-place s = ground arith

IsAhead-less : (c a : Finding) → IsAhead c a → finding_less c a ≡ true
unfolding finding_less
IsAhead-less c a h = ground (
  arith,
  severity_rank-place c.severity,
  severity_rank-place a.severity,
  text_eq_iff c.file a.file,
  text_lt_asymm c.file a.file,
  text_lt_asymm a.file c.file,
)

Pairs-weaken {κ ρ} :
    (R : Finding → Finding → Type κ) (S : Finding → Finding → Type ρ)
    → ((a c : Finding) → R a c → S a c)
    → (fs : List Finding) → Pairs R fs
    → Pairs S fs
Pairs-weaken R S k [] h = tt
Pairs-weaken R S k (f ∷ fs) h = (All-weaken (R f) (S f) (k f) fs h.0, Pairs-weaken R S k fs h.1)

not-IsAhead : (c a : Finding) → finding_less c a ≡ false → ¬ (IsAhead c a)
not-IsAhead c a h ahead = cc (IsAhead-less c a ahead)

-- Under a positive total cap: the kept findings are in order, the severe ones first, then by file and
-- line; and no finding that meets the per-file cap and is cut off belongs ahead of one that is kept.
pub apply_caps_best :
    (fs : List Finding) (cap : ℤ) (m : ℕ) (b : Bool)
    → Pairs (λ a c. ¬ (IsAhead c a)) (apply_caps fs cap (pos (suc m)) b)
      × All
          (λ a. All (λ c. ¬ (IsAhead c a)) (drop (suc m) (capped fs cap b)))
          (apply_caps fs cap (pos (suc m)) b)
apply_caps_best fs cap m b = (
  Pairs-weaken _ _ (λ a c. not-IsAhead c a) _ (apply_caps-IsSorted fs cap (pos (suc m)) b).0,
  All-weaken _ _ (λ a h. All-weaken _ _ (λ c. not-IsAhead c a) _ h) _ (cut_off fs cap m b),
)
