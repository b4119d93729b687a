-- ===== src/Analysis/Caps/Order.antt =====
-- The order of the findings is a strict weak order, as the standard library's sort asks.
use arcticworks_codepeer.Base.{◌≡◌, true, false, inl, inr, List, arith, Bool-cases}
use arcticworks_codepeer.Base.Text.{Text, text_lt}
use arcticworks_codepeer.Base.Text.Order.{text_eq_iff, text_lt_asymm, text_lt_total, text_lt_trans}
use arcticworks_codepeer.Base.Sort.{sort_stable, IsSorted, sort_stable-IsSorted}
use arcticworks_codepeer.Domain.{Finding}
use arcticworks_codepeer.Analysis.Caps.{finding_less}

text_lt_negtrans : (s t u : Text) → text_lt t s ≡ false → text_lt u t ≡ false → text_lt u s ≡ false
text_lt_negtrans s t u h k = elim (Bool-cases (text_lt s t)) [
  | inl e ↦ ground (arith, text_lt_trans u s t)
  | inr e ↦ rw (text_lt_total s t e h) k
]

pub finding_less_asymm : (a b : Finding) → finding_less a b ≡ true → finding_less b a ≡ false
unfolding finding_less
finding_less_asymm a b h =
    ground
      (arith, text_eq_iff a.file b.file, text_eq_iff b.file a.file, text_lt_asymm a.file b.file)

pub finding_less_negtrans :
    (a b c : Finding)
    → finding_less b a ≡ false
    → finding_less c b ≡ false
    → finding_less c a ≡ false
unfolding finding_less
finding_less_negtrans a b c h k = ground (
  arith,
  text_eq_iff b.file a.file,
  text_eq_iff c.file b.file,
  text_eq_iff c.file a.file,
  text_lt_total b.file a.file,
  text_lt_total c.file b.file,
  text_lt_asymm c.file a.file,
  text_lt_asymm b.file a.file,
  text_lt_asymm c.file b.file,
  text_lt_negtrans a.file b.file c.file,
)

pub sort_findings-IsSorted :
    (fs : List Finding) → IsSorted finding_less (sort_stable finding_less fs)
sort_findings-IsSorted fs =
    sort_stable-IsSorted finding_less finding_less_asymm finding_less_negtrans fs
