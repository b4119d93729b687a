-- ===== src/Commands/Sync.antt =====
-- cmd/codepeer/sync.go: the loop of `runSync` over the installations and their repositories, after the database
-- and the clients are set up.
use arcticworks_codepeer.Base.{
  ℕ, ◌+◌, ◌≡◌, refl, ap, ◌∙◌, Bool, true, inl, inr, List, [], ◌∷◌, ◌++◌, Bool-cases, any, ◌==◌, All,
  length, arith,
}
use arcticworks_codepeer.Base.Text.{Text}
use arcticworks_codepeer.Base.Result.{Result, ok, err}
use arcticworks_codepeer.Domain.{Installation, Repo}
use arcticworks_codepeer.Store.{Store, StoreError, update_rows}
use arcticworks_codepeer.Store.Repos.{upsert_installation, upsert_repo}

pub data SyncError : Type 0 where
  not_listed : Text → SyncError
  not_stored : StoreError → SyncError

-- The loop over the repositories ends at the first that is refused.
upsert_all : List Repo → Store → Result SyncError (Unit {0}) × Store
upsert_all [] s = (ok tt, s)
upsert_all (r ∷ repos) s = elim (upsert_repo r s) [
  | err e ↦ (err (not_stored e), s)
  | ok s' ↦ upsert_all repos s'
]

abbrev counted : ℕ → Result SyncError ℕ × Store → Result SyncError ℕ × Store
counted n (err e, s) = (err e, s)
counted n (ok m, s) = (ok (n + m), s)

abbrev then_rest :
    ℕ
    → (Store → Result SyncError ℕ × Store)
    → Result SyncError (Unit {0}) × Store
    → Result SyncError ℕ × Store
then_rest n rest (err e, s) = (err e, s)
then_rest n rest (ok done, s) = counted n (rest s)

-- An installation whose repositories cannot be listed is passed over.
sync_one :
    Result Text (List Repo)
    → (Store → Result SyncError ℕ × Store)
    → Store
    → Result SyncError ℕ × Store
unfolding upsert_all
sync_one (err e) rest s = rest s
sync_one (ok repos) rest s = then_rest (length repos) rest (upsert_all repos s)

sync_installations :
    (ℕ → Result Text (List Repo)) → List Installation → Store → Result SyncError ℕ × Store
unfolding sync_one
sync_installations list [] s = (ok 0, s)
sync_installations list (i ∷ is) s =
    sync_one (list i.id) (sync_installations list is) (upsert_installation i s)

-- The number of repositories.
unfoldable pub run_sync :
    Result Text (List Installation)
    → (ℕ → Result Text (List Repo))
    → Store
    → Result SyncError ℕ × Store
unfolding sync_installations
run_sync (err e) list s = (err (not_listed e), s)
run_sync (ok is) list s = sync_installations list is s

abbrev knows : ℕ → Store → Bool
knows id s = any (λ (i : Installation). i.id == id) s.installations

any-append_last :
    (id : ℕ) (xs : List Installation) (x : Installation)
    → x.id ≡ id
    → any (λ (i : Installation). i.id == id) (xs ++ x ∷ []) ≡ true
any-append_last id [] x e = ground arith
any-append_last id (y ∷ xs) x e = ground (arith, any-append_last id xs x e)

any-update_rows :
    (x : Installation) (xs : List Installation)
    → any (λ (i : Installation). i.id == x.id) xs ≡ true
    → any (λ (i : Installation). i.id == x.id) (update_rows (λ i. i.id == x.id) (λ i. x) xs) ≡ true
unfolding update_rows
any-update_rows x [] h = cc
any-update_rows x (y ∷ xs) h = ground (arith, any-update_rows x xs)

upsert_installation-knows :
    (i : Installation) (s : Store) → knows i.id (upsert_installation i s) ≡ true
unfolding upsert_installation
upsert_installation-knows i s = elim (Bool-cases (knows i.id s)) [
  | inl e ↦ rw e (any-update_rows i s.installations e)
  | inr e ↦ rw e (any-append_last i.id s.installations i refl)
]

-- A repository of a known installation is stored.
upsert_repo-ok :
    (r : Repo) (s : Store)
    → knows r.installation_id s ≡ true
    → (s' : Store) × (upsert_repo r s ≡ ok s') × (s'.installations ≡ s.installations)
unfolding upsert_repo
upsert_repo-ok r s h = elim (Bool-cases (any (λ (x : Repo). x.id == r.id) s.repos)) [
  | inl e ↦ rw (h, e) (_, refl, refl)
  | inr e ↦ rw (h, e) (_, refl, refl)
]

upsert_all-ok :
    (id : ℕ) (repos : List Repo) (s : Store)
    → All (λ (r : Repo). r.installation_id ≡ id) repos
    → knows id s ≡ true
    → (s' : Store) × (upsert_all repos s ≡ (ok tt, s'))
unfolding upsert_all
upsert_all-ok id [] s h k = (s, refl)
upsert_all-ok id (r ∷ repos) s h k =
    let (s1, stored, same) = upsert_repo-ok r s (ap (λ n. knows n s) h.0 ∙ k) in
    let known : knows id s1 ≡ true = ap (any (λ (i : Installation). i.id == id)) same ∙ k in
    let (s2, rest) = upsert_all-ok id repos s1 h.1 known in (s2, rw (stored, upsert_all) rest)

-- The repositories that can be listed.
abbrev listed_length : Result Text (List Repo) → ℕ
listed_length (err e) = 0
listed_length (ok repos) = length repos

unfoldable pub total_repos : (ℕ → Result Text (List Repo)) → List Installation → ℕ
total_repos list [] = 0
total_repos list (i ∷ is) = listed_length (list i.id) + total_repos list is

abbrev pub BelongTo : ℕ → Result Text (List Repo) → Type 0
BelongTo id (err e) = Unit {0}
BelongTo id (ok repos) = All (λ (r : Repo). r.installation_id ≡ id) repos

sync_one-ok :
    (id n : ℕ) (listed : Result Text (List Repo)) (rest : Store → Result SyncError ℕ × Store)
    (s : Store)
    → BelongTo id listed
    → knows id s ≡ true
    → ((s' : Store) → (rest s').0 ≡ ok n)
    → (sync_one listed rest s).0 ≡ ok (listed_length listed + n)
unfolding sync_one
sync_one-ok id n (err e) rest s b k h = h s ∙ ap ok (omega arith)
sync_one-ok id n (ok repos) rest s b k h =
    let (s', stored) = upsert_all-ok id repos s b k in
    rw stored (counted-ok (length repos) n (rest s') (h s'))
  where
    counted-ok :
        (m n : ℕ) (o : Result SyncError ℕ × Store) → o.0 ≡ ok n → (counted m o).0 ≡ ok (m + n)
    counted-ok m n (err e, s) q = absurd cc
    counted-ok m n (ok k, s) q = let e : k ≡ n = cc in ap (λ x. ok (m + x)) e

sync_installations-ok :
    (list : ℕ → Result Text (List Repo)) (is : List Installation) (s : Store)
    → ((id : ℕ) → BelongTo id (list id))
    → (sync_installations list is s).0 ≡ ok (total_repos list is)
unfolding sync_installations total_repos
sync_installations-ok list [] s b = refl
sync_installations-ok list (i ∷ is) s b =
    sync_one-ok i.id (total_repos list is) (list i.id) (sync_installations list is)
      (upsert_installation i s) (b i.id) (upsert_installation-knows i s)
      (λ s'. sync_installations-ok list is s' b)

-- For every store and installations whose listed repositories belong to them: whatever cannot be listed, the
-- store refuses no repository, and the number of all listed repositories is returned.
pub run_sync-ok :
    (list : ℕ → Result Text (List Repo)) (is : List Installation) (s : Store)
    → ((id : ℕ) → BelongTo id (list id))
    → (run_sync (ok is) list s).0 ≡ ok (total_repos list is)
unfolding run_sync
run_sync-ok list is s b = sync_installations-ok list is s b
