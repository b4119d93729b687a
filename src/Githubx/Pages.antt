-- ===== src/Githubx/Pages.antt =====
-- internal/githubx/client.go: the loops of `ListPRFiles` and `ListInstallationRepos` over pages. `opts.Page`
-- starts at 0, which GitHub reads as the first page. Fuel is the number of pages that are asked for.
use arcticworks_codepeer.Base.{
  ℕ, zero, suc, ◌+◌, ◌-◌, ◌*◌, ◌≤◌, ◌<◌, ◌≡◌, refl, sym, ap, ◌∙◌, true, false, inl, inr, List, [],
  ◌∷◌, ◌++◌, arith, Bool-cases, ltb, ltb→lt, if◌then◌else◌, length, length-take, take, drop,
}
use arcticworks_codepeer.Base.Result.{Result, ok, err}
use arcticworks_codepeer.Githubx.Retry.{ClientError, out_of_pages}

abbrev pub per_page : ℕ
per_page = 100

ltb-false : (a b : ℕ) → b ≤ a → ltb a b ≡ false
ltb-false a b h = ground arith

false-ltb : (a b : ℕ) → ltb a b ≡ false → b ≤ a
false-ltb a b h = ground arith

module _ {A : Type 0} where
  -- `files = append(files, page...)`, and the end at a page that is not full.
  page_then :
      Result ClientError (List A) → Result ClientError (List A) → Result ClientError (List A)
  page_then (err e) rest = err e
  page_then (ok page) (err e) = if ltb (length page) per_page then ok page else err e
  page_then (ok page) (ok rest) = if ltb (length page) per_page then ok page else ok (page ++ rest)

  pages_from : (ℕ → Result ClientError (List A)) → ℕ → ℕ → Result ClientError (List A)
  unfolding page_then
  pages_from fetch zero page = err out_of_pages
  pages_from fetch (suc fuel) page = page_then (fetch page) (pages_from fetch fuel (suc page))

  unfoldable pub list_pages : (ℕ → Result ClientError (List A)) → ℕ → Result ClientError (List A)
  unfolding pages_from
  list_pages fetch fuel = pages_from fetch fuel 0

  -- A page of a list, as GitHub serves it: the pages 0 and 1 are both the first.
  abbrev pub served : List A → ℕ → List A
  served xs page = take per_page (drop (per_page * (page - 1)) xs)

  take-drop : (n : ℕ) (xs : List A) → take n xs ++ drop n xs ≡ xs
  take-drop zero xs = refl
  take-drop (suc n) [] = refl
  take-drop (suc n) (x ∷ xs) = ap (◌∷◌ x) (take-drop n xs)

  drop-nil : (n : ℕ) → drop {A = A} n [] ≡ []
  drop-nil zero = refl
  drop-nil (suc n) = refl

  drop-drop : (n m : ℕ) (xs : List A) → drop n (drop m xs) ≡ drop (m + n) xs
  drop-drop n zero xs = ap (λ k. drop k xs) (omega arith)
  drop-drop n (suc m) [] = drop-nil n ∙ sym (drop-nil (suc m + n))
  drop-drop n (suc m) (x ∷ xs) =
      let e : suc m + n ≡ suc (m + n) = omega arith in
      drop-drop n m xs ∙ sym (ap (λ k. drop k (x ∷ xs)) e)

  length-drop : (n : ℕ) (xs : List A) → length (drop n xs) ≡ length xs - n
  length-drop zero xs = omega arith
  length-drop (suc n) [] = omega arith
  length-drop (suc n) (x ∷ xs) = omega (arith, length-drop n xs)

  take-eq_of_short : (n : ℕ) (xs : List A) → length xs ≤ n → take n xs ≡ xs
  take-eq_of_short zero [] h = refl
  take-eq_of_short zero (x ∷ xs) h = absurd (omega arith)
  take-eq_of_short (suc n) [] h = refl
  take-eq_of_short (suc n) (x ∷ xs) h = ap (◌∷◌ x) (take-eq_of_short n xs (omega arith))

  short_page :
      (page : List A) (o : Result ClientError (List A))
      → ltb (length page) per_page ≡ true
      → page_then (ok page) o ≡ ok page
  unfolding page_then
  short_page page (err e) h = rw h refl
  short_page page (ok rest) h = rw h refl

  full_page :
      (page rest : List A)
      → ltb (length page) per_page ≡ false
      → page_then (ok page) (ok rest) ≡ ok (page ++ rest)
  unfolding page_then
  full_page page rest h = rw h refl

  -- A page that is full, and one that is not, followed by what the rest of the loop returns.
  page_then-served :
      (d : List A) (o : Result ClientError (List A))
      → (per_page ≤ length d → o ≡ ok (drop per_page d))
      → page_then (ok (take per_page d)) o ≡ ok d
  unfolding page_then
  page_then-served d o h = elim (Bool-cases (ltb (length d) per_page)) [
    | inl e ↦
        let same = take-eq_of_short per_page d (omega (arith, ltb→lt (length d) per_page e)) in
        short_page (take per_page d) o (rw same e) ∙ ap ok same
    | inr e ↦
        let full : ltb (length (take per_page d)) per_page ≡ false =
          ltb-false (length (take per_page d)) per_page
            (omega (arith, length-take per_page d, false-ltb (length d) per_page e)) in
        rw (h (false-ltb (length d) per_page e))
          (full_page (take per_page d) (drop per_page d) full ∙ ap ok (take-drop per_page d))
  ]

  page_step :
      (xs : List A) (fuel k : ℕ)
      → (per_page ≤ length (drop (per_page * k) xs)
          → pages_from (λ page. ok (served xs page)) fuel (suc (suc k))
            ≡ ok (drop per_page (drop (per_page * k) xs)))
      → pages_from (λ page. ok (served xs page)) (suc fuel) (suc k) ≡ ok (drop (per_page * k) xs)
  unfolding pages_from
  page_step xs fuel k next =
      let d = drop (per_page * k) xs in
      let rest = pages_from (λ page. ok (served xs page)) fuel (suc (suc k)) in
      let here : served xs (suc k) ≡ take per_page d =
        ap (λ n. take per_page (drop n xs)) (omega arith) in
      ap (λ p. page_then (ok p) rest) here ∙ page_then-served d rest next

  pages_from-served :
      (xs : List A) (fuel k : ℕ)
      → length xs < per_page * (k + suc fuel)
      → pages_from (λ page. ok (served xs page)) (suc fuel) (suc k) ≡ ok (drop (per_page * k) xs)
  unfolding pages_from
  pages_from-served xs zero k h =
      page_step xs 0 k (λ full. absurd (omega (arith, length-drop (per_page * k) xs)))
  pages_from-served xs (suc fuel) k h = page_step xs (suc fuel) k (λ full.
      pages_from-served xs fuel (suc k) (omega arith)
      ∙ ap ok (ap (λ n. drop n xs) (omega arith) ∙ sym (drop-drop per_page (per_page * k) xs)))

  -- If GitHub serves a list by pages of 100, the number of a page left out or 0 for the first: with fuel
  -- above a hundredth of its length, the loop ends, and returns the list if it has fewer than 100
  -- elements; of a longer list it returns the first 100 elements twice.
  pub list_pages-served :
      (xs : List A) (fuel : ℕ)
      → length xs < per_page * fuel
      → (length xs < per_page → list_pages (λ page. ok (served xs page)) (suc fuel) ≡ ok xs)
        × (per_page ≤ length xs
            → list_pages (λ page. ok (served xs page)) (suc fuel) ≡ ok (take per_page xs ++ xs))
  unfolding list_pages pages_from
  list_pages-served xs zero h = absurd (omega arith)
  list_pages-served xs (suc fuel) h =
      let rest = pages_from (λ page. ok (served xs page)) (suc fuel) 1 in
      let first : served xs 0 ≡ take per_page xs = refl in
      let all : rest ≡ ok xs = pages_from-served xs fuel 0 (omega arith) in
      (
        λ short.
            ap (λ p. page_then (ok p) rest) first
            ∙ page_then-served xs rest (λ full. absurd (omega arith)),
        λ full.
            ap (λ p. page_then (ok p) rest) first
            ∙ ap (page_then (ok (take per_page xs))) all
            ∙ full_page (take per_page xs) xs (
                ltb-false (length (take per_page xs)) per_page
                  (omega (arith, length-take per_page xs))),
      )
