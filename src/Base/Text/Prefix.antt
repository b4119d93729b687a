-- ===== src/Base/Text/Prefix.antt =====
-- A text that starts with a prefix is the prefix and the rest.
use arcticworks_codepeer.Base.{◌≡◌, refl, some, [], ◌∷◌, ◌++◌, arith}
use arcticworks_codepeer.Base.Text.{Text, strip_prefix}

pub strip_prefix-append : (p s : Text) → strip_prefix (p ++ s) p ≡ some s
unfolding strip_prefix
strip_prefix-append [] s = refl
strip_prefix-append (c ∷ p) s = ground (arith, strip_prefix-append p s)

pub strip_prefix-eq-some : (s p rest : Text) → strip_prefix s p ≡ some rest → s ≡ p ++ rest
unfolding strip_prefix
strip_prefix-eq-some s [] rest h = ground arith
strip_prefix-eq-some [] (b ∷ p) rest h = cc
strip_prefix-eq-some (a ∷ s) (b ∷ p) rest h = ground (arith, strip_prefix-eq-some s p rest)
