-- ===== src/Analysis/Gates.antt =====
-- internal/analysis/pipeline.go and skip.go: the tests that decide whether a change is analyzed, and
-- which of its files. `doublestar.Match` is the parameter `glob`; `none` is its error.
pub mod Agreement
use arcticworks_codepeer.Base.{
  ℕ, String, Bool, true, false, not, ◌&&◌, ◌||◌, Option, none, some, List, [], ◌∷◌, ◌++◌,
  if◌then◌else◌, is_nil, str_eq, any, ℤ,
}
use arcticworks_codepeer.Base.Text.{Text, codes, contains, to_lower}
use arcticworks_codepeer.Domain.{RepoConfig, ReviewConfig, ChangedFile, default_agents}

unfoldable pub mode_allows : RepoConfig → String → Bool
mode_allows cfg mode = str_eq cfg.mode mode || str_eq cfg.mode "both"

unfoldable pub user_ignored : RepoConfig → String → Bool
user_ignored cfg login =
    if str_eq login ""
    then false
    else any (λ u. str_eq u login) cfg.ignore_usernames
      || str_eq login "dependabot[bot]"
      || str_eq login "renovate[bot]"
      || str_eq login "dependabot-preview[bot]"
      || str_eq login "github-actions[bot]"
      || str_eq login "imgbot[bot]"

abbrev pub built_in_keywords : List Text
built_in_keywords =
    codes "wip"
    ∷ codes "draft"
    ∷ codes "[skip review]"
    ∷ codes "[skip ci-review]"
    ∷ codes "do not review"
    ∷ []

unfoldable pub title_skipped : RepoConfig → Text → Bool
title_skipped cfg title =
    any (λ k. not (is_nil k) && contains (to_lower title) (to_lower k))
      (cfg.skip_title_keywords ++ built_in_keywords)

unfoldable pub base_branch_allowed : RepoConfig → String → Bool
base_branch_allowed cfg base_ref =
    is_nil cfg.base_branches || any (λ b. str_eq b base_ref) cfg.base_branches

abbrev pub default_ignore_patterns : List Text
default_ignore_patterns =
    codes "**/*.lock"
    ∷ codes "**/package-lock.json"
    ∷ codes "**/yarn.lock"
    ∷ codes "**/pnpm-lock.yaml"
    ∷ codes "**/*.min.js"
    ∷ codes "**/*.min.css"
    ∷ codes "**/*.map"
    ∷ codes "**/*.pb.go"
    ∷ codes "**/vendor/**"
    ∷ codes "**/node_modules/**"
    ∷ codes "**/dist/**"
    ∷ codes "**/__generated__/**"
    ∷ codes "**/*.generated.*"
    ∷ codes "**/*.png"
    ∷ codes "**/*.jpg"
    ∷ codes "**/*.jpeg"
    ∷ codes "**/*.gif"
    ∷ codes "**/*.svg"
    ∷ codes "**/*.ico"
    ∷ codes "**/*.woff*"
    ∷ codes "**/*.ttf"
    ∷ codes "**/*.eot"
    ∷ codes "**/*.zip"
    ∷ codes "**/*.tar*"
    ∷ codes "**/*.gz"
    ∷ codes "**/*.exe"
    ∷ codes "**/*.dll"
    ∷ codes "**/*.so"
    ∷ codes "**/*.dylib"
    ∷ codes "**/*.class"
    ∷ codes "**/*.jar"
    ∷ codes "**/*.bin"
    ∷ codes "**/*.pdf"
    ∷ []

abbrev pub matched : Option Bool → Bool
matched none = false
matched (some b) = b

module _ (glob : Text → Text → Option Bool) where
  unfoldable pub should_skip_file : Text → Bool
  should_skip_file path = any (λ p. matched (glob p path)) default_ignore_patterns

  unfoldable pub matches_any : Text → List Text → Bool
  matches_any path patterns = any (λ p. not (is_nil p) && matched (glob p path)) patterns

  -- The kept files and the skipped ones.
  unfoldable pub filter_files : List ChangedFile → List Text → List ChangedFile × List ChangedFile
  filter_files [] ignore = ([], [])
  filter_files (f ∷ fs) ignore =
      let (kept, skipped) = filter_files fs ignore in
      if should_skip_file f.path || matches_any f.path ignore
      then (kept, f ∷ skipped)
      else (f ∷ kept, skipped)

-- selectAgents; the pipeline's own list is `none` where it is nil.
unfoldable pub select_agents : Option (List String) → RepoConfig → List String
select_agents (some as') cfg = as'
select_agents none cfg = elim cfg.agents [ none ↦ default_agents | some as' ↦ as' ]

-- The settings of a `Pipeline`.
pub record Settings : Type 0 where
  pub strictness : String
  pub max_findings : ℤ
  pub per_file_cap : ℤ
  pub include_nits : Bool
  pub custom_instructions : List Text
  pub agents : Option (List String)

unfoldable pub review_config : Settings → RepoConfig → ReviewConfig
review_config p cfg = record {
  strictness = if str_eq p.strictness "" then cfg.strictness else p.strictness;
  max_findings = p.max_findings;
  per_file_cap = p.per_file_cap;
  include_nits = p.include_nits || cfg.include_nits;
  custom_instructions = cfg.custom_instructions ++ p.custom_instructions;
}

-- NewPipeline
abbrev pub new_pipeline : Settings
new_pipeline = record {
  strictness = "balanced";
  max_findings = ℤ.pos 10;
  per_file_cap = ℤ.pos 3;
  include_nits = false;
  custom_instructions = [];
  agents = none;
}
