-- ===== src/Analysis/Caps/Limits.antt =====
-- What `applyCaps` keeps: how many findings, and which.
use arcticworks_codepeer.Base.{
  ℕ, zero, suc, ◌+◌, ◌-◌, ◌≤◌, ◌<◌, ◌≡◌, refl, ap, Bool, List, [], ◌∷◌, arith, if◌then◌else◌,
  length, filter, take, ℤ, pos, pos_part, length-take,
}
use arcticworks_codepeer.Base.Text.{Text, text_eq}
use arcticworks_codepeer.Base.Text.Order.{text_eq_iff}
use arcticworks_codepeer.Base.Assoc.{Assoc, lookup, insert, lookup-insert}
use arcticworks_codepeer.Domain.{Finding}
use arcticworks_codepeer.Analysis.Caps.{
  count_of, cap_loop, cap_per_file, cap_total, apply_caps, drop_nits, finding_less,
}
use arcticworks_codepeer.Base.Sort.{sort_stable}

-- The findings of one file.
abbrev pub of_file : Text → List Finding → List Finding
of_file path = filter (λ f. text_eq f.file path)

count_of-insert :
    (k j : Text) (n : ℕ) (m : Assoc ℕ)
    → count_of j (insert k n m) ≡ (if text_eq k j then n else count_of j m)
unfolding count_of
count_of-insert k j n m = ground (arith, lookup-insert k j n m)

take-sub :
    (n c : ℕ) (f : Finding) (xs : List Finding)
    → c < n
    → take (n - c) (f ∷ xs) ≡ f ∷ take (n - (c + 1)) xs
take-sub n c f xs h = let e : n - c ≡ suc (n - (c + 1)) = omega arith in rw e

take-none : (n c : ℕ) (xs : List Finding) → n ≤ c → take (n - c) xs ≡ []
take-none n c xs h = let e : n - c ≡ 0 = omega arith in rw e

take-nil : (n : ℕ) → [] ≡ take {A = Finding} n []
take-nil zero = refl
take-nil (suc n) = refl

of_file-cap_loop :
    (path : Text) (n : ℕ) (counts : Assoc ℕ) (fs : List Finding)
    → of_file path (cap_loop (pos n) counts fs) ≡ take (n - count_of path counts) (of_file path fs)
unfolding cap_loop
of_file-cap_loop path n counts [] = take-nil (n - count_of path counts)
of_file-cap_loop path n counts (f ∷ fs) = ground (
  arith,
  of_file-cap_loop path n counts fs,
  of_file-cap_loop path n (insert f.file (count_of f.file counts + 1) counts) fs,
  count_of-insert f.file path (count_of f.file counts + 1) counts,
  text_eq_iff f.file path,
  take-sub n (count_of path counts) f (of_file path fs),
  take-none n (count_of path counts) (of_file path fs),
  take-none n (count_of path counts) (f ∷ of_file path fs),
)

count_of-nil : (path : Text) → count_of path [] ≡ 0
unfolding count_of lookup
count_of-nil path = refl

sub-zero : (n : ℕ) → suc n - 0 ≡ suc n
sub-zero n = omega arith

-- For every list, file and positive cap: of each file the per-file cap keeps the first findings, up
-- to the cap, in their order, and loses no other.
of_file-cap_per_file :
    (path : Text) (n : ℕ) (fs : List Finding)
    → of_file path (cap_per_file (pos (suc n)) fs) ≡ take (suc n) (of_file path fs)
unfolding cap_per_file
of_file-cap_per_file path n fs =
    ground (arith, of_file-cap_loop path (suc n) [] fs, count_of-nil path, sub-zero n)

module _ (p : Finding → Bool) where
  length-filter-take-le :
      (n : ℕ) (xs : List Finding) → length (filter p (take n xs)) ≤ length (filter p xs)
  length-filter-take-le zero xs = omega arith
  length-filter-take-le (suc n) [] = omega arith
  length-filter-take-le (suc n) (x ∷ xs) = ground (arith, length-filter-take-le n xs)

length-cap_total-le : (n : ℕ) (fs : List Finding) → length (cap_total (pos (suc n)) fs) ≤ suc n
unfolding cap_total
length-cap_total-le n fs = ground (arith, length-take (suc n) fs)

of_file-cap_total-le :
    (path : Text) (m : ℤ) (fs : List Finding)
    → length (of_file path (cap_total m fs)) ≤ length (of_file path fs)
unfolding cap_total
of_file-cap_total-le path m fs =
    ground (arith, length-filter-take-le (λ f. text_eq f.file path) (pos_part m) fs)

-- For positive limits, whatever the findings: at most `max_findings` findings are kept, and at most
-- `per_file_cap` of any one file.
pub apply_caps_limits :
    (fs : List Finding) (cap max_findings : ℕ) (include_nits : Bool)
    → let kept = apply_caps fs (pos (suc cap)) (pos (suc max_findings)) include_nits in
      (length kept ≤ suc max_findings) × ((path : Text) → length (of_file path kept) ≤ suc cap)
unfolding apply_caps
apply_caps_limits fs cap max_findings include_nits = (
  length-cap_total-le max_findings _,
  λ path.
      of_capped path (pos (suc max_findings))
        (drop_nits include_nits (sort_stable finding_less fs)),
)
  where
    of_capped :
        (path : Text) (m : ℤ) (xs : List Finding)
        → length (of_file path (cap_total m (cap_per_file (pos (suc cap)) xs))) ≤ suc cap
    of_capped path m xs = omega (
      arith,
      of_file-cap_total-le path m (cap_per_file (pos (suc cap)) xs),
      ap length (of_file-cap_per_file path cap xs),
      length-take (suc cap) (of_file path xs),
    )
