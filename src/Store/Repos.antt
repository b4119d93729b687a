-- ===== src/Store/Repos.antt =====
-- internal/store/store.go: deliveries, installations, repositories and pull requests.
use arcticworks_codepeer.Base.{
  ℕ, String, Bool, true, false, not, ◌&&◌, Option, none, some, List, [], ◌∷◌, ◌++◌, if◌then◌else◌,
  str_eq, any, filter, find, ltb, ◌==◌,
}
use arcticworks_codepeer.Base.Sort.{sort_stable}
use arcticworks_codepeer.Base.Result.{Result, ok, err}
use arcticworks_codepeer.Domain.{Installation, Repo, RepoConfig, PrState}
use arcticworks_codepeer.Store.{Store, StoreError, no_parent, no_rows, update_rows}

-- RecordDelivery: false for a delivery that is there already.
unfoldable pub record_delivery : String → Store → Bool × Store
record_delivery id s =
    if any (λ d. str_eq d id) s.deliveries
    then (false, s)
    else (true, record s { deliveries = s.deliveries ++ id ∷ [] })

unfoldable pub upsert_installation : Installation → Store → Store
upsert_installation i s =
    if any (λ (x : Installation). x.id == i.id) s.installations
    then record s { installations = update_rows (λ x. x.id == i.id) (λ x. i) s.installations }
    else record s { installations = s.installations ++ i ∷ [] }

-- A new repository has a branch; one that is there keeps its branch, its switch and its configuration.
abbrev inserted : Repo → Repo
inserted r = record r {
  default_branch = if str_eq r.default_branch "" then "main" else r.default_branch;
}

abbrev renamed : Repo → Repo → Repo
renamed r x = record x { installation_id = r.installation_id; owner = r.owner; name = r.name }

unfoldable pub upsert_repo : Repo → Store → Result StoreError Store
upsert_repo r s =
    if not (any (λ (i : Installation). i.id == r.installation_id) s.installations)
    then err no_parent
    else if any (λ (x : Repo). x.id == r.id) s.repos
    then ok (record s { repos = update_rows (λ x. x.id == r.id) (renamed r) s.repos })
    else ok (record s { repos = s.repos ++ inserted r ∷ [] })

abbrev row_or_error : {A : Type 0} → Option A → Result StoreError A
row_or_error none = err no_rows
row_or_error (some r) = ok r

unfoldable pub get_repo : ℕ → Store → Result StoreError Repo
get_repo id s = row_or_error (find (λ x. x.id == id) s.repos)

unfoldable pub get_repo_by_name : String → String → Store → Result StoreError Repo
get_repo_by_name owner name s =
    row_or_error (find (λ x. str_eq x.owner owner && str_eq x.name name) s.repos)

unfoldable pub list_repos_for_installation : ℕ → Store → List Repo
list_repos_for_installation id s =
    sort_stable (λ a b. ltb a.id b.id) (filter (λ x. x.installation_id == id) s.repos)

unfoldable pub set_repo_config : ℕ → RepoConfig → Store → Store
set_repo_config id cfg s = record s {
  repos = update_rows (λ x. x.id == id) (λ x. record x { config = some cfg }) s.repos;
}

abbrev pub is_pr : ℕ → ℕ → PrState → Bool
is_pr repo_id number p = p.repo_id == repo_id && (p.number == number)

unfoldable pub get_pr_state : ℕ → ℕ → Store → Option PrState
get_pr_state repo_id number s = find (is_pr repo_id number) s.pull_requests

abbrev or_zero : Option ℕ → ℕ
or_zero none = 0
or_zero (some n) = n

-- COALESCE(NULLIF(new, 0), old)
abbrev pub nonzero_or : ℕ → ℕ → ℕ
nonzero_or new old = if new == 0 then old else new

abbrev tracked : String → ℕ → ℕ → PrState → PrState
tracked head_sha review_id check_run_id p = record p {
  last_analyzed_sha = head_sha;
  review_id = nonzero_or review_id p.review_id;
  check_run_id = nonzero_or check_run_id p.check_run_id;
}

unfoldable pub set_pr_state : ℕ → ℕ → String → Option ℕ → Option ℕ → Store → Result StoreError Store
set_pr_state repo_id number head_sha review_id check_run_id s =
    if any (is_pr repo_id number) s.pull_requests
    then ok (record s {
      pull_requests =
          update_rows (is_pr repo_id number)
            (tracked head_sha (or_zero review_id) (or_zero check_run_id)) s.pull_requests;
    })
    else if any (λ (x : Repo). x.id == repo_id) s.repos
    then ok (record s {
      pull_requests =
          s.pull_requests
          ++ record {
            repo_id = repo_id;
            number = number;
            last_analyzed_sha = head_sha;
            review_id = or_zero review_id;
            check_run_id = or_zero check_run_id;
          }
            ∷ [];
    })
    else err no_parent
