-- ===== src/Tests/Store.antt =====
-- A store with one repository, a run with findings, and a learning.
use arcticworks_codepeer.Base.{
  ℕ, ◌≡◌, ◌≢◌, String, true, false, Option, List, ◌++◌, none, some, negsuc, [], ◌∷◌, All, any, refl,
}
use arcticworks_codepeer.Base.Result.{ok, err}
use arcticworks_codepeer.Base.Text.{Text, codes, text_lt}
use arcticworks_codepeer.Base.Sort.{IsSorted, sort_stable}
use arcticworks_codepeer.Store.Migrate.{Database, is_recorded, migrate}
use arcticworks_codepeer.Store.Migrate.Applied.{run_all, migrate_contract}
use arcticworks_codepeer.Domain.{Repo, Finding}
use arcticworks_codepeer.Store.{Store, empty_store}
use arcticworks_codepeer.Store.Runs.{new_run, create_run}
use arcticworks_codepeer.Store.Findings.{
  is_finding, record_of, save_findings, findings_for_run, insert_findings, insert_finding,
}
use arcticworks_codepeer.Store.Learnings.{upsert_learning}
use arcticworks_codepeer.Store.Saved.{HasUniqueHashes, save_findings_contract}
use arcticworks_codepeer.Tests.Data.{finding_at}

abbrev pub sample_repo : Repo
sample_repo = record {
  id = 5;
  installation_id = 1;
  owner = "o";
  name = "r";
  default_branch = "main";
  enabled = true;
  config = none;
}

abbrev one_repo : Store
one_repo = record empty_store { repos = sample_repo ∷ [] }

abbrev one_run : Store
one_run = record one_repo { runs = new_run 1 5 "pr" "abc" (some 7) ∷ []; next_run = 2 }

run_created : create_run 5 "pr" "abc" (some 7) one_repo ≡ ok (1, one_run)
unfolding create_run
run_created = refl

abbrev leak : Finding
leak = finding_at "a.go" 2 "high" "Leak"

abbrev hash_of : Finding → String
hash_of f = f.severity

abbrev one_finding : Store
one_finding = record one_run { findings = record_of 1 1 "high" leak ∷ []; next_finding = 3 }

findings_saved : save_findings 1 (leak ∷ leak ∷ []) hash_of one_run ≡ ok one_finding
unfolding save_findings insert_findings insert_finding
findings_saved = refl

save_findings_contract_example :
    HasUniqueHashes one_finding.findings
    × All (λ f. any (is_finding 1 (hash_of f)) one_finding.findings ≡ true) (leak ∷ leak ∷ [])
    × ((other : ℕ)
        → other ≢ 1
        → findings_for_run other one_finding ≡ findings_for_run other one_run)
save_findings_contract_example =
    save_findings_contract 1 hash_of (leak ∷ leak ∷ []) one_run one_finding findings_saved tt

abbrev one_learning : Store
one_learning = record one_repo {
  learnings = record { repo_id = 5; key = "k"; signal = "down"; weight = negsuc 0 } ∷ [];
}

learning_added : upsert_learning 5 "k" "down" (negsuc 0) one_repo ≡ ok one_learning
unfolding upsert_learning
learning_added = refl

-- A database at the first of two migrations; a migration adds a table.
abbrev add_table : Text → List Text → Option (List Text)
add_table name tables = some (name ∷ tables)

abbrev two_migrations : List Text
two_migrations = codes "0002_runs.sql" ∷ codes "0001_init.sql" ∷ []

abbrev old_database : Database (List Text)
old_database = record { versions = codes "0001_init.sql" ∷ []; schema = codes "0001_init.sql" ∷ [] }

migrated_once : migrate add_table two_migrations old_database ≡ (
  ok tt,
  record {
    versions = codes "0001_init.sql" ∷ codes "0002_runs.sql" ∷ [];
    schema = codes "0002_runs.sql" ∷ codes "0001_init.sql" ∷ [];
  },
)
unfolding migrate sort_stable
migrated_once = refl

migrate_contract_example :
    let (r, db') = migrate add_table two_migrations old_database in
    ((done : List Text) × (db'.versions ≡ old_database.versions ++ done)
      × (run_all add_table done old_database.schema ≡ some db'.schema)
      × IsSorted text_lt done
      × All (λ n. is_recorded n old_database.versions ≡ false) done)
    × (r ≡ ok tt
        → All (λ n. is_recorded n db'.versions ≡ true) (sort_stable text_lt two_migrations)
          × (migrate add_table two_migrations db' ≡ (ok tt, db')))
    × ((n : Text) → r ≡ err n → add_table n db'.schema ≡ none)
migrate_contract_example = migrate_contract add_table two_migrations old_database
