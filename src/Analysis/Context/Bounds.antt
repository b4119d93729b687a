-- ===== src/Analysis/Context/Bounds.antt =====
-- How much the reviewer is given.
use arcticworks_codepeer.Base.{
  ℕ, zero, suc, ◌+◌, ◌≤◌, ◌<◌, ◌≡◌, ◌≢◌, refl, sym, ap, subst, ◌∙◌, not, ◌||◌, Option, none, some,
  inl, inr, List, [], ◌∷◌, ◌++◌, arith, if◌then◌else◌, Bool-cases, str_eq, length, take, ltb, leb,
  All, append_assoc, append-nil,
}
use arcticworks_codepeer.Base.Text.{Text, text_eq}
use arcticworks_codepeer.Base.Assoc.{Assoc, insert}
use arcticworks_codepeer.Base.Result.{Result, ok, err}
use arcticworks_codepeer.Domain.{ChangedFile}
use arcticworks_codepeer.Analysis.Context.{
  ContextState, max_context_file_bytes, max_context_files, max_instructions_bytes, usable,
  add_context, context_step, context_loop, build_context, section, instruction_names,
  instructions_loop, build_instructions,
}

take-append_long : (n : ℕ) (xs ys : Text) → n ≤ length xs → take n (xs ++ ys) ≡ take n xs
take-append_long zero xs ys h = refl
take-append_long (suc n) [] ys h = absurd (omega arith)
take-append_long (suc n) (x ∷ xs) ys h = ground (arith, take-append_long n xs ys)

take-all : (n : ℕ) (xs : Text) → length xs ≤ n → take n xs ≡ xs
take-all zero [] h = refl
take-all zero (x ∷ xs) h = absurd (omega arith)
take-all (suc n) [] h = refl
take-all (suc n) (x ∷ xs) h = ground (arith, take-all n xs)

module _ (get_file : Text → Result Text Text) where
  -- The sections of the files, one after the other.
  abbrev pub sections : List Text → Text
  sections [] = []
  sections (name ∷ names) = section name (get_file name) ++ sections names

  instructions_loop-sections :
      (b : Text) (names : List Text)
      → take max_instructions_bytes (instructions_loop get_file b names)
        ≡ take max_instructions_bytes (b ++ sections names)
  unfolding instructions_loop
  instructions_loop-sections b [] = ap (take max_instructions_bytes) (sym (append-nil b))
  instructions_loop-sections b (name ∷ names) =
      elim (Bool-cases (ltb max_instructions_bytes (length b))) [
        | inl e ↦ rw e (
            instructions_loop-sections b names
            ∙ take-append_long max_instructions_bytes b (sections names) (ground arith)
            ∙ sym (
                take-append_long max_instructions_bytes b (sections (name ∷ names)) (ground arith)))
        | inr e ↦ rw e (
            instructions_loop-sections (b ++ section name (get_file name)) names
            ∙ ap (take max_instructions_bytes)
                (append_assoc b (section name (get_file name)) (sections names)))
      ]

  -- For all configured names: the instructions are the first 30000 bytes of the sections of the first
  -- three files (of the default ones where none is configured) that can be read.
  pub build_instructions-eq-take :
      (names : List Text)
      → build_instructions get_file names
        ≡ take max_instructions_bytes (sections (take 3 (instruction_names names)))
  unfolding build_instructions
  build_instructions-eq-take names =
      cut_off (instructions_loop get_file [] (take 3 (instruction_names names)))
      ∙ instructions_loop-sections [] (take 3 (instruction_names names))
    where
      cut_off :
          (x : Text)
          → (if ltb max_instructions_bytes (length x) then take max_instructions_bytes x else x)
            ≡ take max_instructions_bytes x
      cut_off x = elim (Bool-cases (ltb max_instructions_bytes (length x))) [
        | inl e ↦ rw e refl
        | inr e ↦ rw e (sym (take-all max_instructions_bytes x (ground arith)))
      ]

  -- An entry of the context: the content that was read, not empty, within the limit.
  abbrev pub IsRead : Text × Text → Type 0
  IsRead (path, content) =
      (get_file path ≡ ok content) × (content ≢ []) × (length content ≤ max_context_file_bytes)

  insert-IsRead :
      (path content : Text) (m : Assoc Text)
      → IsRead (path, content)
      → All IsRead m
      → All IsRead (insert path content m) × (length (insert path content m) ≤ length m + 1)
  unfolding insert
  insert-IsRead path content [] r h = ((r, tt), omega arith)
  insert-IsRead path content ((j, w) ∷ m) r h =
      let (a, n) = insert-IsRead path content m r h.1 in
      elim (Bool-cases (text_eq j path)) [
        | inl e ↦ rw e ((r, h.1), omega arith)
        | inr e ↦ rw e ((h.0, a), omega arith)
      ]

  usable-IsRead :
      (path content : Text) (o : Result Text Text)
      → get_file path ≡ o
      → usable o ≡ some content
      → IsRead (path, content)
  unfolding usable
  usable-IsRead path content (err e) q h = absurd cc
  usable-IsRead path content (ok []) q h = absurd cc
  usable-IsRead path content (ok (c ∷ t)) q h =
      let same : c ∷ t ≡ content = ground arith in
      let bound : length (c ∷ t) ≤ max_context_file_bytes = ground arith in
      (q ∙ ap ok same, λ n. cc, subst (λ x. length x ≤ max_context_file_bytes) same bound)

  -- At most as many entries as files taken, and no more than twelve.
  abbrev Inv : ContextState → Type 0
  Inv s = All IsRead s.out × (length s.out ≤ s.count) × (s.count ≤ max_context_files)

  add_context-Inv :
      (s : ContextState) (path : Text) (o : Option Text)
      → ((content : Text) → o ≡ some content → IsRead (path, content))
      → s.count < max_context_files
      → Inv s
      → Inv (add_context s path o)
  unfolding add_context
  add_context-Inv s path none r lt v = v
  add_context-Inv s path (some content) r lt (a, n, k) =
      let (b, m) = insert-IsRead path content s.out (r content refl) a in
      (b, omega arith, omega arith)

  context_step-Inv : (s : ContextState) (f : ChangedFile) → Inv s → Inv (context_step get_file s f)
  unfolding context_step
  context_step-Inv s f v = elim (Bool-cases (leb max_context_files s.count)) [
    | inl e ↦ rw e v
    | inr e ↦ elim (Bool-cases (not (str_eq f.status "modified" || str_eq f.status "added"))) [
      | inl g ↦ rw (e, g) v
      | inr g ↦
          rw (e, g)
            (add_context-Inv s f.path (usable (get_file f.path))
              (λ content h. usable-IsRead f.path content (get_file f.path) refl h) (ground arith) v)
    ]
  ]

  context_loop-Inv :
      (s : ContextState) (fs : List ChangedFile) → Inv s → Inv (context_loop get_file s fs)
  unfolding context_loop
  context_loop-Inv s [] v = v
  context_loop-Inv s (f ∷ fs) v =
      context_loop-Inv (context_step get_file s f) fs (context_step-Inv s f v)

  -- For all changed files: the context has at most twelve files, each with the content that was read for
  -- it, which is not empty and has at most 20000 bytes.
  pub build_context_bounds :
      (files : List ChangedFile)
      → All IsRead (build_context get_file files)
        × (length (build_context get_file files) ≤ max_context_files)
  unfolding build_context
  build_context_bounds files =
      let (a, n, k) =
        context_loop-Inv (record { count = 0; out = [] }) files (tt, omega arith, omega arith) in
      (a, omega arith)
