-- ===== src/Analysis/Diff/Lines.antt =====
-- Which lines lie in the hunks of a file.
use arcticworks_codepeer.Base.{
  ◌≡◌, ◌↔◌, refl, subst, Bool, true, ◌&&◌, inl, inr, List, [], ◌∷◌, arith, Bool-cases, any, Memᴰ, ℤ,
  pos, ltb_ℤ, leb_ℤ, ◌+ℤ◌, wrap64, ◌<ℤ◌, ◌≤ℤ◌, FitsInt64, wrap64-eq_of_fits, All,
}
use arcticworks_codepeer.Analysis.Diff.{Hunk, new_line_in_diff}

-- The line is one of the lines of the hunk on the new side, by its start and its count.
abbrev pub Covers : Hunk → ℤ → Type 0
Covers h line =
    (pos 0 <ℤ h.new_count) × (h.new_start ≤ℤ line) × (line <ℤ h.new_start +ℤ h.new_count)

abbrev pub EndFits : Hunk → Type 0
EndFits h = FitsInt64 (h.new_start +ℤ h.new_count)

covers : ℤ → Hunk → Bool
covers line h =
    ltb_ℤ (pos 0) h.new_count
    && leb_ℤ h.new_start line
    && ltb_ℤ line (wrap64 (h.new_start +ℤ h.new_count))

covers-Covers : (h : Hunk) (line : ℤ) → EndFits h → (covers line h ≡ true) ↔ Covers h line
unfolding covers
covers-Covers h line f =
    rw (wrap64-eq_of_fits (h.new_start +ℤ h.new_count) f)
      (λ e. (ground arith, ground arith, ground arith), λ (a, b, c). ground arith)

some_covers :
    (hs : List Hunk) (line : ℤ)
    → All EndFits hs
    → any (covers line) hs ≡ true
    → (h : Hunk) × Memᴰ h hs × Covers h line
some_covers [] line f e = absurd cc
some_covers (h ∷ hs) line f e = elim (Bool-cases (covers line h)) [
  | inl c ↦ (h, Memᴰ.head refl, (covers-Covers h line f.0).0 c)
  | inr c ↦ let (g, m, k) = some_covers hs line f.1 (ground arith) in (g, Memᴰ.tail m, k)
]

covers_some :
    (hs : List Hunk) (line : ℤ) (h : Hunk)
    → All EndFits hs
    → Memᴰ h hs
    → Covers h line
    → any (covers line) hs ≡ true
covers_some [] line h f m c = elim m [ ]
covers_some (g ∷ hs) line h f (Memᴰ.head q) c =
    let e : covers line g ≡ true = (covers-Covers g line f.0).1 (subst (λ x. Covers x line) q c) in
    ground arith
covers_some (g ∷ hs) line h f (Memᴰ.tail m) c =
    let e = covers_some hs line h f.1 m c in ground arith

-- For hunks whose ends are within 64 bits: a line is accepted exactly when it is one of the new lines of
-- one of the hunks, by the start and the count that the hunk has.
pub new_line_in_diff_iff :
    (hs : List Hunk) (line : ℤ)
    → All EndFits hs
    → (new_line_in_diff hs line ≡ true) ↔ ((h : Hunk) × Memᴰ h hs × Covers h line)
unfolding new_line_in_diff covers
new_line_in_diff_iff hs line f = (some_covers hs line f, λ (h, m, c). covers_some hs line h f m c)
