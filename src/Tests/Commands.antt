-- ===== src/Tests/Commands.antt =====
-- The commands: a sync of two installations, one of which cannot be listed; a check whose model does not answer;
-- and a review with two seeded defects.
use arcticworks_codepeer.Base.{
  ℕ, ◌≡◌, refl, if◌then◌else◌, ◌==◌, pos, ◌+ℤ◌, List, [], ◌∷◌, arith, inl, inr, Bool-cases,
}
use arcticworks_codepeer.Base.Text.{Text, codes}
use arcticworks_codepeer.Base.Result.{Result, ok, err}
use arcticworks_codepeer.Domain.{Installation, Repo}
use arcticworks_codepeer.Store.{empty_store}
use arcticworks_codepeer.Commands.Sync.{total_repos, BelongTo, run_sync, run_sync-ok}
use arcticworks_codepeer.Commands.Score.{Defect, hits, score}
use arcticworks_codepeer.Tests.Data.{finding_at}
use arcticworks_codepeer.Tests.Store.{sample_repo}

abbrev sample_installation : ℕ → Installation
sample_installation n = record {
  id = n;
  account_id = n;
  account_login = "o";
  account_type = "User";
}

abbrev two_installations : List Installation
two_installations = sample_installation 1 ∷ sample_installation 2 ∷ []

-- The repositories of the first installation alone are listed.
abbrev listed_repos : ℕ → Result Text (List Repo)
listed_repos id =
    if id == 1
    then ok (sample_repo ∷ record sample_repo { id = 6 } ∷ [])
    else err (codes "no access")

listed_repos-BelongTo : (id : ℕ) → BelongTo id (listed_repos id)
listed_repos-BelongTo id = elim (Bool-cases (id == 1)) [
  | inl e ↦ let one : id ≡ 1 = ground (arith, e) in rw one (refl, (refl, tt))
  | inr e ↦ rw e tt
]

run_sync-ok_example : (run_sync (ok two_installations) listed_repos empty_store).0 ≡ ok 2
unfolding total_repos
run_sync-ok_example = run_sync-ok listed_repos two_installations empty_store listed_repos-BelongTo

abbrev defect_at : ℕ → Defect
defect_at n = record {
  file = codes "a.go";
  line = pos n;
  description = [];
  severity = codes "high";
}

-- One finding between two defects counts as both.
one_finding_two_defects :
    score (defect_at 1 ∷ defect_at 5 ∷ []) (finding_at "a.go" 3 "high" "Leak" ∷ [])
    ≡ record { defects = 2; found = 2; extra = 0; missed = [] }
unfolding score hits ◌+ℤ◌
one_finding_two_defects = refl
