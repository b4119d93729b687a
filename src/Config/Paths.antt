-- ===== src/Config/Paths.antt =====
-- internal/config/codepeer.go: `PathIgnored`. doublestar.Match is a parameter; a pattern that it refuses
-- matches nothing.
use arcticworks_codepeer.Base.{Bool, false, ◌||◌, Option, none, some, List, [], ◌∷◌, any}
use arcticworks_codepeer.Base.Text.{Text, codes}
use arcticworks_codepeer.Domain.{RepoConfig}

abbrev pub default_ignored_patterns : List Text
default_ignored_patterns =
    codes "**/*.lock"
    ∷ codes "**/package-lock.json"
    ∷ codes "**/yarn.lock"
    ∷ codes "**/pnpm-lock.yaml"
    ∷ codes "**/*.min.js"
    ∷ codes "**/*.min.css"
    ∷ codes "**/*.map"
    ∷ codes "**/*.pb.go"
    ∷ codes "**/vendor/**"
    ∷ codes "**/node_modules/**"
    ∷ codes "**/dist/**"
    ∷ codes "**/__generated__/**"
    ∷ codes "**/*.generated.*"
    ∷ codes "**/*.png"
    ∷ codes "**/*.jpg"
    ∷ codes "**/*.jpeg"
    ∷ codes "**/*.gif"
    ∷ codes "**/*.svg"
    ∷ codes "**/*.ico"
    ∷ codes "**/*.woff*"
    ∷ codes "**/*.ttf"
    ∷ codes "**/*.eot"
    ∷ codes "**/*.zip"
    ∷ codes "**/*.tar*"
    ∷ codes "**/*.gz"
    ∷ codes "**/*.exe"
    ∷ codes "**/*.dll"
    ∷ codes "**/*.so"
    ∷ codes "**/*.dylib"
    ∷ codes "**/*.class"
    ∷ codes "**/*.jar"
    ∷ codes "**/*.bin"
    ∷ codes "**/*.pdf"
    ∷ []

abbrev pub is_match : Option Bool → Bool
is_match none = false
is_match (some b) = b

module _ (glob : Text → Text → Option Bool) where
  unfoldable pub match_any : List Text → Text → Bool
  match_any patterns path = any (λ p. is_match (glob p path)) patterns

  unfoldable pub path_ignored : Option RepoConfig → Text → Bool
  path_ignored none path = match_any default_ignored_patterns path
  path_ignored (some cfg) path =
      match_any default_ignored_patterns path || match_any cfg.ignore_paths path
