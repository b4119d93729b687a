-- ===== src/Analysis/Context.antt =====
-- internal/analysis/context.go: the files and the instructions that the reviewer is given. `get_file` is
-- the GitHub client's answer for a path at the commit of the pass.
pub mod Bounds
use arcticworks_codepeer.Base.{
  ℕ, ◌+◌, String, Bool, true, false, not, ◌||◌, Option, none, some, List, [], ◌∷◌, ◌++◌,
  if◌then◌else◌, str_eq, is_nil, length, take, ltb, leb,
}
use arcticworks_codepeer.Base.Text.{Text, codes}
use arcticworks_codepeer.Base.Assoc.{Assoc, insert}
use arcticworks_codepeer.Base.Result.{Result, ok, err}
use arcticworks_codepeer.Domain.{ChangedFile}

abbrev pub max_context_file_bytes : ℕ
max_context_file_bytes = 20000

abbrev pub max_context_files : ℕ
max_context_files = 12

abbrev pub max_instructions_bytes : ℕ
max_instructions_bytes = 30000

-- The loop of `BuildContext`: the number of files taken, and the map.
pub record ContextState : Type 0 where
  pub count : ℕ
  pub out : Assoc Text

-- A file that cannot be read, is empty or too large is left out.
unfoldable pub usable : Result Text Text → Option Text
usable (err e) = none
usable (ok content) =
    if is_nil content || ltb max_context_file_bytes (length content) then none else some content

add_context : ContextState → Text → Option Text → ContextState
add_context s path none = s
add_context s path (some content) = record { count = s.count + 1; out = insert path content s.out }

-- The names of instruction files, where none are configured.
abbrev pub instruction_names : List Text → List Text
instruction_names [] = codes "AGENTS.md" ∷ codes "CLAUDE.md" ∷ []
instruction_names (n ∷ names) = n ∷ names

abbrev section_text : Text → Text → Text
section_text name content = codes "### " ++ (name ++ (codes "\n" ++ (content ++ codes "\n\n")))

-- What the loop of `BuildInstructions` writes for a file.
unfoldable pub section : Text → Result Text Text → Text
section name (err e) = []
section name (ok []) = []
section name (ok (c ∷ content)) = section_text name (c ∷ content)

module _ (get_file : Text → Result Text Text) where
  -- The body of the loop; after its `break` it changes nothing.
  unfoldable pub context_step : ContextState → ChangedFile → ContextState
  unfolding add_context
  context_step s f =
      if leb max_context_files s.count
      then s
      else if not (str_eq f.status "modified" || str_eq f.status "added")
      then s
      else add_context s f.path (usable (get_file f.path))

  unfoldable pub context_loop : ContextState → List ChangedFile → ContextState
  context_loop s [] = s
  context_loop s (f ∷ fs) = context_loop (context_step s f) fs

  unfoldable pub build_context : List ChangedFile → Assoc Text
  build_context files = (context_loop (record { count = 0; out = [] }) files).out

  -- The loop breaks when the text is longer than the limit, and it is not before the first file.
  unfoldable pub instructions_loop : Text → List Text → Text
  instructions_loop b [] = b
  instructions_loop b (name ∷ names) =
      instructions_loop
        (if ltb max_instructions_bytes (length b) then b else b ++ section name (get_file name))
        names

  unfoldable pub build_instructions : List Text → Text
  build_instructions instruction_files =
      let out = instructions_loop [] (take 3 (instruction_names instruction_files)) in
      if ltb max_instructions_bytes (length out) then take max_instructions_bytes out else out
