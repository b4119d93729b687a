-- ===== src/Githubx/Served.antt =====
-- internal/githubx/client.go: what `ListPRFiles` returns of the files that GitHub serves, and what the
-- retries of a call come to.
use mathlib.Core.Path.{fun_ext}
use arcticworks_codepeer.Base.{
  ℕ, zero, suc, ◌-◌, ◌*◌, ◌≤◌, ◌<◌, ◌≡◌, refl, ap, ◌∙◌, List, [], ◌∷◌, ◌++◌, map, arith, length,
  length-map, take, drop,
}
use arcticworks_codepeer.Base.Result.{Result, ok}
use arcticworks_codepeer.Domain.{ChangedFile}
use arcticworks_codepeer.Githubx.Retry.{ClientError, do_with_retry}
use arcticworks_codepeer.Githubx.Pages.{per_page, served, list_pages, list_pages-served}
use arcticworks_codepeer.Githubx.Client.{
  Call, CommitFile, changed_file, map_ok, map_commit_files, list_pr_files,
}

module _ {A B : Type 0} (f : A → B) where
  map-take : (n : ℕ) (xs : List A) → map f (take n xs) ≡ take n (map f xs)
  map-take zero xs = refl
  map-take (suc n) [] = refl
  map-take (suc n) (x ∷ xs) = ap (◌∷◌ (f x)) (map-take n xs)

  map-drop : (n : ℕ) (xs : List A) → map f (drop n xs) ≡ drop n (map f xs)
  map-drop zero xs = refl
  map-drop (suc n) [] = refl
  map-drop (suc n) (x ∷ xs) = map-drop n xs

  map-served : (xs : List A) (page : ℕ) → map f (served xs page) ≡ served (map f xs) page
  map-served xs page =
      map-take per_page (drop (per_page * (page - 1)) xs)
      ∙ ap (take per_page) (map-drop (per_page * (page - 1)) xs)

-- The number of files of a list of files is that of its changed files.
length-map_commit_files : (files : List CommitFile) → length (map_commit_files files) ≡ length files
unfolding map_commit_files
length-map_commit_files files = length-map changed_file files

-- The files that a client gets for a list that GitHub serves by pages of 100, if every page's call
-- comes to that page within its retries. With fuel above a hundredth of the number of files the loop
-- ends. Fewer than 100 files are returned as they are; of 100 or more the first 100 come twice.
pub list_pr_files-served :
    (call : ℕ → Call (List CommitFile)) (files : List CommitFile) (fuel : ℕ)
    → ((page : ℕ)
        → do_with_retry (call page).reply (call page).cancelled_before ≡ ok (served files page))
    → length files < per_page * fuel
    → (length files < per_page → list_pr_files call (suc fuel) ≡ ok (map_commit_files files))
      × (per_page ≤ length files
          → list_pr_files call (suc fuel)
            ≡ ok (take per_page (map_commit_files files) ++ map_commit_files files))
unfolding list_pr_files map_ok map_commit_files
list_pr_files-served call files fuel answers h =
    let fetched : ℕ → Result ClientError (List ChangedFile) = λ page.
      map_ok map_commit_files (do_with_retry (call page).reply (call page).cancelled_before) in
    let same : fetched ≡ (λ page. ok (served (map_commit_files files) page)) = fun_ext (λ page.
      ap (map_ok map_commit_files) (answers page) ∙ ap ok (map-served changed_file files page)) in
    let n : length (map_commit_files files) ≡ length files = length-map_commit_files files in
    let (short, long) = list_pages-served (map_commit_files files) fuel (omega arith) in
    let run = ap (λ f. list_pages f (suc fuel)) same in
    (λ less. run ∙ short (omega arith), λ more. run ∙ long (omega arith))
