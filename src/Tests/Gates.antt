-- ===== src/Tests/Gates.antt =====
-- The gates on the default configuration, with a glob that knows one pattern.
use arcticworks_codepeer.Base.{
  ℕ, ◌≡◌, ◌≢◌, refl, String, Bool, false, ◌||◌, Option, some, [], ◌∷◌, str_eq, str_eq_iff, arith,
}
use arcticworks_codepeer.Base.Text.{Text, codes, text_eq}
use arcticworks_codepeer.Domain.{RepoConfig, default_repo_config}
use arcticworks_codepeer.Config
use arcticworks_codepeer.Analysis.Gates.{
  user_ignored, title_skipped, base_branch_allowed, mode_allows, should_skip_file, matches_any,
}
use arcticworks_codepeer.Config.Paths.{path_ignored}
use arcticworks_codepeer.Analysis.Gates.Agreement.{gates_agree}

abbrev sample_config : RepoConfig
sample_config = record default_repo_config {
  ignore_usernames = "bob" ∷ [];
  base_branches = "main" ∷ [];
  ignore_paths = codes "*.go" ∷ [];
  skip_title_keywords = codes "Later" ∷ [];
}

sample_login : ◌≢◌ {A = String} "bob" ""
sample_login h =
    let ne : str_eq "bob" "" ≡ false = refl in absurd (ground (arith, (str_eq_iff "bob" "").1 h))

only_go : Text → Text → Option Bool
only_go pattern path = some (text_eq pattern (codes "*.go"))

gates_agree_example :
    (user_ignored sample_config "bob" ≡ Config.user_ignored (some sample_config) "bob")
    × (title_skipped sample_config (codes "later")
        ≡ Config.title_skipped (some sample_config) (codes "later"))
    × (base_branch_allowed sample_config "dev"
        ≡ Config.base_branch_allowed (some sample_config) "dev")
    × (mode_allows sample_config "push" ≡ Config.mode_allows (some sample_config) "push")
    × (path_ignored only_go (some sample_config) (codes "a.go") ≡ (
        should_skip_file only_go (codes "a.go")
        || matches_any only_go (codes "a.go") sample_config.ignore_paths))
gates_agree_example =
    gates_agree only_go sample_config "bob" "dev" "push" (codes "later") (codes "a.go") sample_login
      (not_nil, tt) (not_nil, tt)
  where
    not_nil : {c : ℕ} {t : Text} → (c ∷ t) ≢ []
    not_nil h = absurd cc
