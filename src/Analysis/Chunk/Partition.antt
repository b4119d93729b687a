-- ===== src/Analysis/Chunk/Partition.antt =====
-- The chunks hold the changed files, each once, within the limit, with their text.
use arcticworks_codepeer.Base.{
  ℕ, subst, ◌+◌, ◌≤◌, ◌≡◌, ◌≢◌, refl, ap, ◌∙◌, sym, true, false, not, ◌&&◌, ◌⊎◌, inl, inr, List, [],
  ◌∷◌, ◌++◌, arith, ltb, is_nil, Bool-cases, All, All-append, append_assoc, append-nil,
}
use mathlib.Core.List.{Perm}
use arcticworks_codepeer.Base.Text.{Text, text_eq}
use arcticworks_codepeer.Base.Text.Order.{text_eq_iff}
use arcticworks_codepeer.Base.Assoc.{Assoc}
use arcticworks_codepeer.Base.Sort.{sort_stable, sort_stable-perm}
use arcticworks_codepeer.Domain.{ChangedFile}
use arcticworks_codepeer.Analysis.Chunk.{
  Chunk, ChunkState, max_lines_per_chunk, more_additions, changed_lines, build_diff_text, flush,
  make_room, chunk_step, chunk_loop, fill_texts, chunk_files,
}

abbrev total_lines : List ChangedFile → ℕ
total_lines [] = 0
total_lines (f ∷ fs) = changed_lines f + total_lines fs

-- The files of a list of chunks, in order.
abbrev pub all_files : List Chunk → List ChangedFile
all_files [] = []
all_files (c ∷ cs) = c.files ++ all_files cs

-- A chunk has a file, and one file alone if its lines pass the limit.
abbrev pub IsWithinLimit : List ChangedFile → Type 0
IsWithinLimit fs =
    (fs ≢ []) × ((total_lines fs ≤ max_lines_per_chunk) ⊎ ((f : ChangedFile) × (fs ≡ f ∷ [])))

total_lines-append :
    (xs ys : List ChangedFile) → total_lines (xs ++ ys) ≡ total_lines xs + total_lines ys
total_lines-append [] ys = omega arith
total_lines-append (x ∷ xs) ys = omega (arith, total_lines-append xs ys)

all_files-append : (xs ys : List Chunk) → all_files (xs ++ ys) ≡ all_files xs ++ all_files ys
all_files-append [] ys = refl
all_files-append (x ∷ xs) ys = rw (all_files-append xs ys, append_assoc)

-- The text of a chunk is that of its files, or not filled in yet.
abbrev HasText : Assoc Text → Chunk → Type 0
HasText d c = (c.diff_text ≡ []) ⊎ (c.diff_text ≡ build_diff_text c.files d)

record Inv (d : Assoc Text) (s : ChunkState) : Type 0 where
  within : All (λ c. IsWithinLimit c.files) s.chunks
  texts : All (HasText d) s.chunks
  counted : s.cur_lines ≡ total_lines s.cur
  fits : s.cur_lines ≤ max_lines_per_chunk

abbrev held : ChunkState → List ChangedFile
held s = all_files s.chunks ++ s.cur

cons-ne-nil : (f : ChangedFile) (fs : List ChangedFile) → f ∷ fs ≢ []
cons-ne-nil f fs e = cc

flush-held_at :
    (cs : List Chunk) (cur : List ChangedFile) (n : ℕ)
    → held (flush (record { chunks = cs; cur = cur; cur_lines = n })) ≡ all_files cs ++ cur
unfolding flush
flush-held_at cs [] n = refl
flush-held_at cs (f ∷ fs) n = simp (all_files-append, append-nil)

flush-held : (s : ChunkState) → held (flush s) ≡ held s
flush-held s = flush-held_at s.chunks s.cur s.cur_lines

flush-cur_lines : (s : ChunkState) → ((flush s).cur ≡ []) × ((flush s).cur_lines ≡ 0)
unfolding flush
flush-cur_lines s = ground arith

flush-chunks_at :
    (d : Assoc Text) (cs : List Chunk) (cur : List ChangedFile) (n : ℕ)
    → Inv d (record { chunks = cs; cur = cur; cur_lines = n })
    → All
        (λ c. IsWithinLimit c.files)
        (flush (record { chunks = cs; cur = cur; cur_lines = n })).chunks
      × All (HasText d) (flush (record { chunks = cs; cur = cur; cur_lines = n })).chunks
unfolding flush
flush-chunks_at d cs [] n v = (v.within, v.texts)
flush-chunks_at d cs (f ∷ fs) n v = (
  All-append (λ c. IsWithinLimit c.files) cs _ v.within
      ((cons-ne-nil f fs, inl (omega (arith, v.counted, v.fits))), tt),
  All-append (HasText d) cs _ v.texts (inl refl, tt),
)

flush-Inv : (d : Assoc Text) (s : ChunkState) → Inv d s → Inv d (flush s)
flush-Inv d s v =
    let (w, t) = flush-chunks_at d s.chunks s.cur s.cur_lines v in
    let (e, z) = flush-cur_lines s in
    record { within = w; texts = t; counted = rw (z, e); fits = rw z (omega arith) }

-- A flush leaves nothing open: all that is held is in the chunks.
closed-held : (s : ChunkState) → all_files (flush s).chunks ≡ held s
closed-held s =
    sym (append-nil _)
    ∙ ap (λ c. all_files (flush s).chunks ++ c) (sym (flush-cur_lines s).0)
    ∙ flush-held s

make_room-held : (s : ChunkState) (f : ChangedFile) → held (make_room s f) ≡ held s
unfolding make_room
make_room-held s f = ground (arith, flush-held s)

make_room-Inv :
    (d : Assoc Text) (s : ChunkState) (f : ChangedFile) → Inv d s → Inv d (make_room s f)
unfolding make_room
make_room-Inv d s f v =
    elim (Bool-cases
      (not (is_nil s.cur) && ltb max_lines_per_chunk (s.cur_lines + changed_lines f))) [
        | inl e ↦ rw e (flush-Inv d s v)
        | inr e ↦ rw e v
      ]

-- A file within the limit fits after `make_room`.
make_room-fits :
    (d : Assoc Text) (s : ChunkState) (f : ChangedFile)
    → Inv d s
    → changed_lines f ≤ max_lines_per_chunk
    → (make_room s f).cur_lines + changed_lines f ≤ max_lines_per_chunk
unfolding make_room
make_room-fits d s f v h = ground (arith, flush-cur_lines s, nil_lines s.cur, v.counted)
  where
    nil_lines : (cur : List ChangedFile) → is_nil cur ≡ true → total_lines cur ≡ 0
    nil_lines [] e = refl
    nil_lines (g ∷ cur) e = cc

chunk_step-held :
    (d : Assoc Text) (s : ChunkState) (f : ChangedFile) → held (chunk_step d s f) ≡ held s ++ f ∷ []
unfolding chunk_step
chunk_step-held d s f = elim (Bool-cases (ltb max_lines_per_chunk (changed_lines f))) [
  | inl e ↦ rw e (
      rw ((flush-cur_lines s).0, append-nil)
        (all_files-append (flush s).chunks _ ∙ ap (λ x. x ++ f ∷ []) (closed-held s)))
  | inr e ↦ rw e (
      sym (append_assoc _ (make_room s f).cur (f ∷ []))
      ∙ ap (λ x. x ++ f ∷ []) (make_room-held s f))
]

chunk_step-Inv :
    (d : Assoc Text) (s : ChunkState) (f : ChangedFile) → Inv d s → Inv d (chunk_step d s f)
unfolding chunk_step
chunk_step-Inv d s f v = elim (Bool-cases (ltb max_lines_per_chunk (changed_lines f))) [
  | inl e ↦ rw e (
      let v' = flush-Inv d s v in
      record {
        within =
            All-append (λ c. IsWithinLimit c.files) (flush s).chunks _ v'.within
              ((cons-ne-nil f [], inr (f, refl)), tt);
        texts = All-append (HasText d) (flush s).chunks _ v'.texts (inr refl, tt);
        counted = v'.counted;
        fits = v'.fits;
      })
  | inr e ↦ rw e (
      let v' = make_room-Inv d s f v in
      record {
        within = v'.within;
        texts = v'.texts;
        counted = omega (arith, v'.counted, total_lines-append (make_room s f).cur (f ∷ []));
        fits = make_room-fits d s f v (ground arith);
      })
]

chunk_loop-held :
    (d : Assoc Text) (s : ChunkState) (fs : List ChangedFile)
    → held (chunk_loop d s fs) ≡ held s ++ fs
unfolding chunk_loop
chunk_loop-held d s [] = sym (append-nil (held s))
chunk_loop-held d s (f ∷ fs) =
    chunk_loop-held d (chunk_step d s f) fs
    ∙ ap (λ x. x ++ fs) (chunk_step-held d s f)
    ∙ append_assoc (held s) (f ∷ []) fs

chunk_loop-Inv :
    (d : Assoc Text) (s : ChunkState) (fs : List ChangedFile) → Inv d s → Inv d (chunk_loop d s fs)
unfolding chunk_loop
chunk_loop-Inv d s [] v = v
chunk_loop-Inv d s (f ∷ fs) v = chunk_loop-Inv d (chunk_step d s f) fs (chunk_step-Inv d s f v)

fill_texts-files : (d : Assoc Text) (cs : List Chunk) → all_files (fill_texts d cs) ≡ all_files cs
unfolding fill_texts
fill_texts-files d [] = refl
fill_texts-files d (c ∷ cs) = ground (arith, fill_texts-files d cs)

-- A chunk as the reviewer receives it.
abbrev pub IsReviewable : Assoc Text → Chunk → Type 0
IsReviewable d c = IsWithinLimit c.files × (c.diff_text ≡ build_diff_text c.files d)

fill_texts-IsReviewable :
    (d : Assoc Text) (cs : List Chunk)
    → All (λ c. IsWithinLimit c.files) cs
    → All (HasText d) cs
    → All (IsReviewable d) (fill_texts d cs)
unfolding fill_texts
fill_texts-IsReviewable d [] w t = tt
fill_texts-IsReviewable d (c ∷ cs) w t = elim (Bool-cases (text_eq c.diff_text [])) [
  | inl e ↦ rw e ((w.0, refl), fill_texts-IsReviewable d cs w.1 t.1)
  | inr e ↦ rw e ((w.0, filled t.0 e), fill_texts-IsReviewable d cs w.1 t.1)
]
  where
    filled : HasText d c → text_eq c.diff_text [] ≡ false → c.diff_text ≡ build_diff_text c.files d
    filled (inl z) n = ground (arith, text_eq_iff c.diff_text [])
    filled (inr z) n = z

start : ChunkState
start = record { chunks = []; cur = []; cur_lines = 0 }

start-Inv : (d : Assoc Text) → Inv d start
unfolding start
start-Inv d = record { within = tt; texts = tt; counted = refl; fits = omega arith }

-- For all changed files and diffs: the chunks together hold the files in the order of a stable sort by
-- additions, descending, and so hold each file exactly once.
pub chunk_files-partition :
    (fs : List ChangedFile) (d : Assoc Text)
    → (all_files (chunk_files fs d) ≡ sort_stable more_additions fs)
      × Perm (all_files (chunk_files fs d)) fs
chunk_files-partition fs d =
    let e = in_order in (e, subst (λ l. Perm l fs) (sym e) (sort_stable-perm more_additions fs))
  where
    in_order : all_files (chunk_files fs d) ≡ sort_stable more_additions fs
    in_order =
        unfold chunk_files start in
        (fill_texts-files d _
          ∙ closed-held (chunk_loop d start (sort_stable more_additions fs))
          ∙ chunk_loop-held d start (sort_stable more_additions fs))

-- For all changed files and diffs: every chunk has a file; its lines are at most 1500 unless it has one
-- file alone; its text is that of its files.
pub chunk_files-IsReviewable :
    (fs : List ChangedFile) (d : Assoc Text) → All (IsReviewable d) (chunk_files fs d)
unfolding chunk_files start
chunk_files-IsReviewable fs d =
    let v =
      flush-Inv d (chunk_loop d start (sort_stable more_additions fs))
        (chunk_loop-Inv d start (sort_stable more_additions fs) (start-Inv d)) in
    fill_texts-IsReviewable d _ v.within v.texts
