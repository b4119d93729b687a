-- ===== src/Store/Once.antt =====
-- What the store does only once: a delivery is new once, and a key has one run.
use arcticworks_codepeer.Base.{
  ℕ, ◌≡◌, ◌≢◌, refl, String, Bool, true, false, ◌||◌, Option, none, some, inl, inr, List, [], ◌∷◌,
  ◌++◌, arith, Bool-cases, str_eq, str_eq_iff, any, find, ◌==◌,
}
use arcticworks_codepeer.Base.Result.{ok, err}
use arcticworks_codepeer.Domain.{Repo}
use arcticworks_codepeer.Store.{Store, duplicate_run}
use arcticworks_codepeer.Store.Repos.{record_delivery}
use arcticworks_codepeer.Store.Runs.{is_run, new_run, create_run, run_by_key}

any-append_one {ℓ} :
    {A : Type ℓ} (p : A → Bool) (xs : List A) (x : A) → any p (xs ++ x ∷ []) ≡ (any p xs || p x)
any-append_one p [] x = ground arith
any-append_one p (y ∷ xs) x = ground (arith, any-append_one p xs x)

find-none {ℓ} : {A : Type ℓ} (p : A → Bool) (xs : List A) → any p xs ≡ false → find p xs ≡ none
find-none p [] h = refl
find-none p (x ∷ xs) h = ground (arith, find-none p xs)

find-append_one {ℓ} :
    {A : Type ℓ} (p : A → Bool) (xs : List A) (x : A)
    → any p xs ≡ false
    → p x ≡ true
    → find p (xs ++ x ∷ []) ≡ some x
find-append_one p [] x h k = ground arith
find-append_one p (y ∷ xs) x h k = ground (arith, find-append_one p xs x)

-- For every store and two different deliveries: to record a delivery a second time answers false and
-- changes nothing, and does not change the answer for the other delivery.
record_delivery_once :
    (id other : String) (s : Store)
    → id ≢ other
    → (record_delivery id (record_delivery id s).1 ≡ (false, (record_delivery id s).1))
      × ((record_delivery other (record_delivery id s).1).0 ≡ (record_delivery other s).0)
unfolding record_delivery
record_delivery_once id other s n = elim (Bool-cases (any (λ d. str_eq d id) s.deliveries)) [
  | inl e ↦ (ground arith, ground arith)
  | inr e ↦ (
    ground (arith, any-append_one (λ d. str_eq d id) s.deliveries id, str_eq_iff id id),
    ground (arith, any-append_one (λ d. str_eq d other) s.deliveries id, str_eq_iff id other),
  )
]

is_run-new_run :
    (id repo_id : ℕ) (kind input_sha : String) (pr_number : Option ℕ)
    → is_run repo_id kind input_sha (new_run id repo_id kind input_sha pr_number) ≡ true
is_run-new_run id repo_id kind input_sha pr_number =
    ground (arith, str_eq_iff kind kind, str_eq_iff input_sha input_sha)

created :
    (repo_id : ℕ) (kind input_sha : String) (pr_number : Option ℕ) (s s' : Store) (id : ℕ)
    → create_run repo_id kind input_sha pr_number s ≡ ok (id, s')
    → (any (is_run repo_id kind input_sha) s.runs ≡ false)
      × (s'.runs ≡ s.runs ++ new_run id repo_id kind input_sha pr_number ∷ [])
unfolding create_run
created repo_id kind input_sha pr_number s s' id h =
    elim (Bool-cases (any (is_run repo_id kind input_sha) s.runs)) [
      | inl e ↦ absurd (ground arith)
      | inr e ↦ elim (Bool-cases (any (λ (x : Repo). x.id == repo_id) s.repos)) [
        | inl f ↦ (e, ground arith)
        | inr f ↦ absurd (ground arith)
      ]
    ]

-- If a run is created, there was none with its key; then the run with this key is the new one, and no
-- second run with the key is created.
create_run_once :
    (repo_id : ℕ) (kind input_sha : String) (pr_number : Option ℕ) (s s' : Store) (id : ℕ)
    → create_run repo_id kind input_sha pr_number s ≡ ok (id, s')
    → (run_by_key repo_id kind input_sha s ≡ none)
      × (run_by_key repo_id kind input_sha s' ≡ some (new_run id repo_id kind input_sha pr_number))
      × ((again : Option ℕ) → create_run repo_id kind input_sha again s' ≡ err duplicate_run)
unfolding create_run run_by_key
create_run_once repo_id kind input_sha pr_number s s' id h =
    let key = is_run repo_id kind input_sha in
    let run = new_run id repo_id kind input_sha pr_number in
    let (e, rows) = created repo_id kind input_sha pr_number s s' id h in
    let found = is_run-new_run id repo_id kind input_sha pr_number in
    let there : any key s'.runs ≡ true = rw rows (ground (arith, any-append_one key s.runs run)) in
    (
      find-none key s.runs e,
      rw rows (find-append_one key s.runs run e found),
      λ again. ground arith,
    )
