-- ===== src/Analysis/Gates/Agreement.antt =====
-- The tests of package analysis against those of package config, and the split of the changed files.
use arcticworks_codepeer.Base.{
  String, ◌≡◌, ◌≢◌, refl, ◌∙◌, Bool, not, ◌&&◌, ◌||◌, Option, none, some, List, [], ◌∷◌, ◌++◌,
  arith, is_nil, str_eq, str_eq_iff, any, All, filter,
}
use arcticworks_codepeer.Base.Text.{Text, contains, to_lower}
use arcticworks_codepeer.Domain.{RepoConfig, ChangedFile}
use arcticworks_codepeer.Config
use arcticworks_codepeer.Config.Paths.{default_ignored_patterns, is_match, match_any, path_ignored}
use arcticworks_codepeer.Analysis.Gates.{
  mode_allows, user_ignored, title_skipped, built_in_keywords, base_branch_allowed, matched,
  should_skip_file, matches_any, filter_files,
}

str_eq_comm : (a b : String) → str_eq a b ≡ str_eq b a
str_eq_comm a b = ground (arith, str_eq_iff a b, str_eq_iff b a)

any-str_eq_comm :
    (l : String) (us : List String) → any (λ u. str_eq u l) us ≡ any (λ u. str_eq l u) us
any-str_eq_comm l [] = refl
any-str_eq_comm l (u ∷ us) = rw (str_eq_comm u l, any-str_eq_comm l us)

any-append {ℓ} :
    {A : Type ℓ} (p : A → Bool) (xs ys : List A) → any p (xs ++ ys) ≡ (any p xs || any p ys)
any-append p [] ys = refl
any-append p (x ∷ xs) ys = ground (arith, any-append p xs ys)

-- With no empty keyword the test for it changes nothing.
any_nonempty :
    (p : Text → Bool) (ks : List Text)
    → All (λ k. k ≢ []) ks
    → any (λ k. not (is_nil k) && p k) ks ≡ any p ks
any_nonempty p [] h = refl
any_nonempty p ([] ∷ ks) h = absurd (h.0 refl)
any_nonempty p ((c ∷ k) ∷ ks) h = rw (any_nonempty p ks h.1)

user_ignored_agrees :
    (cfg : RepoConfig) (login : String)
    → login ≢ ""
    → user_ignored cfg login ≡ Config.user_ignored (some cfg) login
unfolding user_ignored Config.user_ignored
user_ignored_agrees cfg login n =
    ground (arith, str_eq_iff login "", any-str_eq_comm login cfg.ignore_usernames)

base_branch_allowed_agrees :
    (cfg : RepoConfig) (base_ref : String)
    → base_branch_allowed cfg base_ref ≡ Config.base_branch_allowed (some cfg) base_ref
unfolding base_branch_allowed Config.base_branch_allowed
base_branch_allowed_agrees cfg base_ref = ground (arith, any-str_eq_comm base_ref cfg.base_branches)

-- The built-in keywords differ in case alone.
built_in_same :
    (title : Text)
    → any (λ k. not (is_nil k) && contains (to_lower title) (to_lower k)) built_in_keywords
      ≡ any (λ k. contains (to_lower title) (to_lower k)) Config.default_skip_keywords
unfolding to_lower
built_in_same title = refl

-- For every configuration whose title keywords are not empty, and every title: the two tests for
-- skipped titles agree, though one has its built-in keywords in lower case and puts them last.
title_skipped_agrees :
    (cfg : RepoConfig) (title : Text)
    → All (λ k. k ≢ []) cfg.skip_title_keywords
    → title_skipped cfg title ≡ Config.title_skipped (some cfg) title
unfolding title_skipped Config.title_skipped
title_skipped_agrees cfg title h =
    any-append (λ k. not (is_nil k) && contains (to_lower title) (to_lower k))
      cfg.skip_title_keywords built_in_keywords
    ∙ ground (
      arith,
      any_nonempty (λ k. contains (to_lower title) (to_lower k)) cfg.skip_title_keywords h,
      built_in_same title,
    )

-- For all files and patterns: the kept files and the skipped files are the files that no pattern, or
-- some pattern, ignores, each in the given order.
filter_files-eq-filter :
    (glob : Text → Text → Option Bool) (fs : List ChangedFile) (ignore : List Text)
    → let ignored =
        λ (f : ChangedFile). should_skip_file glob f.path || matches_any glob f.path ignore in
      filter_files glob fs ignore ≡ (filter (λ f. not (ignored f)) fs, filter ignored fs)
unfolding filter_files
filter_files-eq-filter glob [] ignore = refl
filter_files-eq-filter glob (f ∷ fs) ignore = ground (arith, filter_files-eq-filter glob fs ignore)

is_match-eq : (o : Option Bool) → is_match o ≡ matched o
is_match-eq none = refl
is_match-eq (some b) = refl

any-is_match :
    (glob : Text → Text → Option Bool) (path : Text) (ps : List Text)
    → any (λ p. is_match (glob p path)) ps ≡ any (λ p. matched (glob p path)) ps
any-is_match glob path [] = refl
any-is_match glob path (p ∷ ps) = rw (is_match-eq (glob p path), any-is_match glob path ps) refl

-- The two lists of built-in patterns are the same, so a path is ignored by package config exactly when a
-- pass leaves its file out, if no pattern of the repository is empty.
path_ignored_agrees :
    (glob : Text → Text → Option Bool) (cfg : RepoConfig) (path : Text)
    → All (λ p. p ≢ []) cfg.ignore_paths
    → path_ignored glob (some cfg) path
      ≡ (should_skip_file glob path || matches_any glob path cfg.ignore_paths)
unfolding path_ignored match_any should_skip_file matches_any
path_ignored_agrees glob cfg path h =
    rw
      (
        any-is_match glob path default_ignored_patterns,
        any-is_match glob path cfg.ignore_paths,
        any_nonempty (λ p. matched (glob p path)) cfg.ignore_paths h,
      )
      refl

-- For every configuration none of whose title keywords and ignored patterns is empty: the packages agree
-- on every login that is not empty, on every title, base branch and mode, and on every path: a path that
-- package config ignores is one that the file filter leaves out.
pub gates_agree :
    (glob : Text → Text → Option Bool) (cfg : RepoConfig) (login base_ref mode : String)
    (title path : Text)
    → login ≢ ""
    → All (λ k. k ≢ []) cfg.skip_title_keywords
    → All (λ p. p ≢ []) cfg.ignore_paths
    → (user_ignored cfg login ≡ Config.user_ignored (some cfg) login)
      × (title_skipped cfg title ≡ Config.title_skipped (some cfg) title)
      × (base_branch_allowed cfg base_ref ≡ Config.base_branch_allowed (some cfg) base_ref)
      × (mode_allows cfg mode ≡ Config.mode_allows (some cfg) mode)
      × (path_ignored glob (some cfg) path
          ≡ (should_skip_file glob path || matches_any glob path cfg.ignore_paths))
unfolding mode_allows Config.mode_allows
gates_agree glob cfg login base_ref mode title path named keywords patterns = (
  user_ignored_agrees cfg login named,
  title_skipped_agrees cfg title keywords,
  base_branch_allowed_agrees cfg base_ref,
  refl,
  path_ignored_agrees glob cfg path patterns,
)
