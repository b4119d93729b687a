-- ===== src/Analysis/Diff.antt =====
-- internal/analysis/diff.go: hunks of a unified diff, and the sections of its files.
pub mod Lines
use arcticworks_codepeer.Base.{
  ◌+◌, Bool, ◌&&◌, Option, none, some, List, [], ◌∷◌, ◌++◌, if◌then◌else◌, take, drop, any, ℤ, pos,
  ltb_ℤ, leb_ℤ, eqb_ℤ, ◌+ℤ◌, wrap64,
}
use arcticworks_codepeer.Base.Text.{
  Text, codes, text_eq, has_prefix, trim_prefix, has_suffix, trim_suffix, index, split, join, cut,
  fields,
}
use arcticworks_codepeer.Base.Text.Decimal.{atoi}
use arcticworks_codepeer.Base.Assoc.{Assoc, lookup, insert}

pub record Hunk : Type 0 where
  pub new_start : ℤ
  pub new_count : ℤ
  pub old_start : ℤ
  pub old_count : ℤ
  pub header : Text

-- The text before the first `sep`, or all of it.
before : Text → Text → Text
before s sep = elim (index s sep) [ none ↦ s | some i ↦ take i s ]

unfoldable pub path_from_diff_header : Text → Text
unfolding before
path_from_diff_header line =
    let rest = trim_prefix line (codes "diff --git ") in
    elim (index rest (codes " b/")) [
      | none ↦ []
      | some i ↦ trim_suffix (before (drop (i + 3) rest) (codes " ")) (13 ∷ [])
    ]

unfoldable pub path_from_triple_header : Text → Text
unfolding before
path_from_triple_header line =
    let p = trim_prefix line (codes "+++ ") in
    let q = trim_prefix p (codes "b/") in
    if text_eq p (codes "/dev/null")
    then []
    else if has_suffix p (codes " /dev/null")
    then []
    else if text_eq q (codes "/dev/null")
    then []
    else before q (9 ∷ [])

-- The start and the count of a range such as `-3,7`; a count that is left out is one.
unfoldable pub parse_range : Text → Option (ℤ × ℤ)
parse_range s =
    let (start_s, count_s, found) =
      cut (trim_prefix (trim_prefix s (codes "-")) (codes "+")) b',' in
    elim (atoi start_s) [
      | none ↦ none
      | some start ↦
          if found
          then elim (atoi count_s) [ none ↦ none | some count ↦ some (start, count) ]
          else some (start, pos 1)
    ]

-- A count of zero is read as one.
unfoldable pub at_least_one : ℤ → ℤ
at_least_one n = if eqb_ℤ n (pos 0) then pos 1 else n

hunk_of : Text → Option (ℤ × ℤ) → Option (ℤ × ℤ) → Option Hunk
unfolding at_least_one
hunk_of line (some (old_start, old_count)) (some (new_start, new_count)) = some (record {
  new_start = new_start;
  new_count = at_least_one new_count;
  old_start = old_start;
  old_count = at_least_one old_count;
  header = line;
})
hunk_of line _ _ = none

hunk_of_parts : Text → List Text → Option Hunk
unfolding hunk_of
hunk_of_parts line (p ∷ q ∷ parts) = hunk_of line (parse_range p) (parse_range q)
hunk_of_parts line _ = none

unfoldable pub parse_hunk_header : Text → Option Hunk
unfolding hunk_of_parts
parse_hunk_header line =
    let rest = trim_prefix line (codes "@@ ") in
    elim (index rest (codes " @@")) [
      | none ↦ none
      | some end ↦ hunk_of_parts line (fields (take end rest))
    ]

-- The loop of `ParseHunks`: the map of hunks, and the path that the next hunk belongs to.
pub record HunkState : Type 0 where
  pub out : Assoc (List Hunk)
  pub current : Text

-- out[current], nil for a path that is not there
unfoldable pub hunks_of : Text → Assoc (List Hunk) → List Hunk
hunks_of path out = elim (lookup path out) [ none ↦ [] | some hs ↦ hs ]

add_hunk : HunkState → Option Hunk → HunkState
add_hunk s none = s
add_hunk s (some h) = record s { out = insert s.current (hunks_of s.current s.out ++ h ∷ []) s.out }

-- The `switch` on the prefixes of a line. The case of `rename from ` changes nothing.
unfoldable pub hunk_step : HunkState → Text → HunkState
unfolding add_hunk
hunk_step s line =
    if has_prefix line (codes "diff --git ")
    then record s { current = path_from_diff_header line }
    else if has_prefix line (codes "rename from ")
    then s
    else if has_prefix line (codes "--- ")
    then (if text_eq s.current [] then record s { current = path_from_triple_header line } else s)
    else if has_prefix line (codes "+++ ")
    then (if text_eq (path_from_triple_header line) []
        then s
        else record s { current = path_from_triple_header line })
    else if has_prefix line (codes "@@ ")
    then (if text_eq s.current [] then s else add_hunk s (parse_hunk_header line))
    else s

unfoldable pub hunk_loop : HunkState → List Text → HunkState
hunk_loop s [] = s
hunk_loop s (line ∷ lines) = hunk_loop (hunk_step s line) lines

-- The error that `ParseHunks` returns is always nil.
unfoldable pub parse_hunks : Text → Assoc (List Hunk)
unfolding hunk_loop
parse_hunks diff = (hunk_loop (record { out = []; current = [] }) (split diff b'\n')).out

-- `h.NewStart+h.NewCount` is a sum of two `int`s.
unfoldable pub new_line_in_diff : List Hunk → ℤ → Bool
new_line_in_diff hunks line =
    any
      (λ h.
        ltb_ℤ (pos 0) h.new_count
        && leb_ℤ h.new_start line
        && ltb_ℤ line (wrap64 (h.new_start +ℤ h.new_count)))
      hunks

unfoldable pub extract_added_from : List Text → List Text
extract_added_from [] = []
extract_added_from (l ∷ ls) =
    let rest = extract_added_from ls in
    if has_prefix l (codes "+++")
    then rest
    else if has_prefix l (codes "+")
    then trim_prefix l (codes "+") ∷ rest
    else rest

unfoldable pub extract_added_lines : Text → List Text
unfolding extract_added_from
extract_added_lines patch = extract_added_from (split patch b'\n')

-- The loop of `SplitDiffByFile`. `flush` returns early, and leaves the buffer, while no path is known.
pub record SplitState : Type 0 where
  pub out : Assoc Text
  pub current : Text
  pub buf : List Text

unfoldable pub flush : SplitState → SplitState
flush s =
    if text_eq s.current []
    then s
    else if text_eq (join s.buf b'\n') []
    then record s { buf = [] }
    else record s { out = insert s.current (join s.buf b'\n') s.out; buf = [] }

unfoldable pub split_step : SplitState → Text → SplitState
split_step s line =
    if has_prefix line (codes "diff --git ")
    then record (flush s) { current = path_from_diff_header line; buf = (flush s).buf ++ line ∷ [] }
    else if text_eq s.current []
    then s
    else record s { buf = s.buf ++ line ∷ [] }

unfoldable pub split_loop : SplitState → List Text → SplitState
split_loop s [] = s
split_loop s (line ∷ lines) = split_loop (split_step s line) lines

unfoldable pub split_diff_by_file : Text → Assoc Text
unfolding split_loop
split_diff_by_file raw =
    (flush (split_loop (record { out = []; current = []; buf = [] }) (split raw b'\n'))).out
