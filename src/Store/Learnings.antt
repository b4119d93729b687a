-- ===== src/Store/Learnings.antt =====
-- internal/store/store.go: what the reactions to comments have taught.
use arcticworks_codepeer.Base.{
  ℕ, String, ℤ, negsuc, Bool, ◌&&◌, List, [], ◌∷◌, ◌++◌, if◌then◌else◌, str_eq, any, filter, map,
  ltb, ◌==◌, ◌+ℤ◌, leb_ℤ,
}
use arcticworks_codepeer.Base.Result.{Result, ok, err}
use arcticworks_codepeer.Domain.{Repo, FindingRecord, AnalysisRun}
use arcticworks_codepeer.Store.{Store, StoreError, no_parent, update_rows, Learning}

-- UNIQUE (repo_id, key, signal)
abbrev pub is_learning : ℕ → String → String → Learning → Bool
is_learning repo_id key signal l =
    l.repo_id == repo_id && (str_eq l.key key && str_eq l.signal signal)

-- UpsertLearning; the sum is within the 32 bits of its column.
unfoldable pub upsert_learning : ℕ → String → String → ℤ → Store → Result StoreError Store
upsert_learning repo_id key signal delta s =
    if any (is_learning repo_id key signal) s.learnings
    then ok (record s {
      learnings =
          update_rows (is_learning repo_id key signal)
            (λ l. record l { weight = l.weight +ℤ delta }) s.learnings;
    })
    else if any (λ (x : Repo). x.id == repo_id) s.repos
    then ok (record s {
      learnings =
          s.learnings
          ++ record { repo_id = repo_id; key = key; signal = signal; weight = delta } ∷ [];
    })
    else err no_parent

-- SuppressedKeys: the keys with a weight of -2 or lower under some signal.
unfoldable pub suppressed_keys : ℕ → Store → List String
suppressed_keys repo_id s =
    map (λ l. l.key) (filter (λ l. l.repo_id == repo_id && leb_ℤ l.weight (negsuc 1)) s.learnings)

-- LearningKeysForComments, as the pairs of comment and hash.
unfoldable pub learning_keys_for_comments : ℕ → ℕ → Store → List (ℕ × String)
learning_keys_for_comments repo_id pr_number s =
    map (λ f. (f.comment_id, f.dedupe_hash))
      (filter
        (λ (f : FindingRecord).
          ltb 0 f.comment_id
          && any
              (λ (r : AnalysisRun).
                r.id == f.run_id && (r.repo_id == repo_id && (r.pr_number == pr_number)))
              s.runs)
        s.findings)
