-- ===== src/Analysis/Chunk.antt =====
-- internal/analysis/chunk.go: `ChunkFiles` groups the changed files for the reviewer.
pub mod Partition
use arcticworks_codepeer.Base.{
  ℕ, ◌+◌, Bool, true, false, not, ◌&&◌, Option, none, some, List, [], ◌∷◌, ◌++◌, ltb, if◌then◌else◌,
  is_nil, length,
}
use arcticworks_codepeer.Base.Text.{Text, codes, text_eq}
use arcticworks_codepeer.Base.Assoc.{Assoc, lookup}
use arcticworks_codepeer.Base.Sort.{sort_stable}
use arcticworks_codepeer.Domain.{ChangedFile}

abbrev pub max_lines_per_chunk : ℕ
max_lines_per_chunk = 1500

pub record Chunk : Type 0 where
  pub files : List ChangedFile
  pub diff_text : Text

abbrev text_or_nil : Option Text → Text
text_or_nil none = []
text_or_nil (some t) = t

unfoldable pub build_diff_text : List ChangedFile → Assoc Text → Text
build_diff_text [] diff_by_file = []
build_diff_text (f ∷ fs) diff_by_file =
    codes "\n--- FILE: "
    ++ (f.path
        ++ (codes " ---\n"
            ++ (text_or_nil (lookup f.path diff_by_file)
                ++ (b'\n' ∷ build_diff_text fs diff_by_file))))

-- Files with more additions come first.
abbrev pub more_additions : ChangedFile → ChangedFile → Bool
more_additions a b = ltb b.additions a.additions

abbrev pub changed_lines : ChangedFile → ℕ
changed_lines f = f.additions + f.deletions

-- The variables of the loop; the `cur` of the source has no text yet.
pub record ChunkState : Type 0 where
  pub chunks : List Chunk
  pub cur : List ChangedFile
  pub cur_lines : ℕ

unfoldable pub flush : ChunkState → ChunkState
flush s = if is_nil s.cur then record s { cur = []; cur_lines = 0 } else record {
  chunks = s.chunks ++ record { files = s.cur; diff_text = [] } ∷ [];
  cur = [];
  cur_lines = 0;
}

-- A file over the limit is a chunk of its own, with its text.
add_oversized : Assoc Text → ChunkState → ChangedFile → ChunkState
add_oversized diff_by_file s f = record s {
  chunks =
      s.chunks ++ record { files = f ∷ []; diff_text = build_diff_text (f ∷ []) diff_by_file } ∷ [];
}

add_file : ChunkState → ChangedFile → ChunkState
add_file s f = record s { cur = s.cur ++ f ∷ []; cur_lines = s.cur_lines + changed_lines f }

-- A chunk that the file would take over the limit is closed.
unfoldable pub make_room : ChunkState → ChangedFile → ChunkState
make_room s f =
    if not (is_nil s.cur) && ltb max_lines_per_chunk (s.cur_lines + changed_lines f)
    then flush s
    else s

unfoldable pub chunk_step : Assoc Text → ChunkState → ChangedFile → ChunkState
unfolding add_oversized add_file
chunk_step diff_by_file s f =
    if ltb max_lines_per_chunk (changed_lines f)
    then add_oversized diff_by_file (flush s) f
    else add_file (make_room s f) f

unfoldable pub chunk_loop : Assoc Text → ChunkState → List ChangedFile → ChunkState
chunk_loop diff_by_file s [] = s
chunk_loop diff_by_file s (f ∷ fs) = chunk_loop diff_by_file (chunk_step diff_by_file s f) fs

unfoldable pub fill_texts : Assoc Text → List Chunk → List Chunk
fill_texts diff_by_file [] = []
fill_texts diff_by_file (c ∷ cs) =
    (if text_eq c.diff_text []
      then record c { diff_text = build_diff_text c.files diff_by_file }
      else c)
    ∷ fill_texts diff_by_file cs

unfoldable pub chunk_files : List ChangedFile → Assoc Text → List Chunk
chunk_files files diff_by_file =
    fill_texts diff_by_file
      (flush (
        chunk_loop diff_by_file (record { chunks = []; cur = []; cur_lines = 0 })
          (sort_stable more_additions files))).chunks
