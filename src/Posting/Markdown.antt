-- ===== src/Posting/Markdown.antt =====
-- internal/posting/markdown.go: the texts that are posted.
pub mod Bounds
use arcticworks_codepeer.Base.{
  ℕ, String, Bool, true, false, not, ◌&&◌, ◌||◌, Option, none, some, List, [], ◌∷◌, ◌++◌, ℤ, pos,
  leb_ℤ, ltb, leb, if◌then◌else◌, is_nil, length, map, take, str_eq, ◌==◌,
}
use arcticworks_codepeer.Base.Text.{Text, codes, text_eq, split, join, upper}
use arcticworks_codepeer.Base.Text.Decimal.{print_ℕ, itoa}
use arcticworks_codepeer.Domain.{
  FindingRecord, Suggestion, status_approved, status_changes_requested,
}
use arcticworks_codepeer.Posting.Output.{ReviewOutput}

-- The bytes of an em dash between two spaces.
abbrev pub dash : Text
dash = 32 ∷ 226 ∷ 128 ∷ 148 ∷ 32 ∷ []

abbrev pub severity_tag : String → Text
severity_tag s =
    if str_eq s "critical"
    then codes "**Critical**"
    else if str_eq s "high"
    then codes "**High**"
    else if str_eq s "medium"
    then codes "**Medium**"
    else if str_eq s "low"
    then codes "**Low**"
    else if str_eq s "nit"
    then codes "**Nit**"
    else codes "**Unknown**"

unfoldable pub capitalize : Text → Text
capitalize [] = []
capitalize (c ∷ s) = upper c ∷ s

abbrev pub line_label : ℤ → Text
line_label line = if leb_ℤ line (pos 0) then codes "-" else itoa line

abbrev nothing_to_do : Text
nothing_to_do = codes "No findings" ++ (dash ++ codes "nothing to act on.")

abbrev pub verdict_text : String → Text
verdict_text status =
    if str_eq status status_approved
    then codes "No blocking findings."
    else if str_eq status status_changes_requested
    then codes "Findings below should be addressed."
    else nothing_to_do

trim_cr : Text → Text
trim_cr [] = []
trim_cr (c ∷ s) = let rest = trim_cr s in if c == 13 && is_nil rest then [] else c ∷ rest

abbrev fence_safe : Text → Text
fence_safe line = if text_eq (trim_cr line) (codes "```") then codes "````" else line

unfoldable pub sanitize_fence : Text → Text
unfolding trim_cr
sanitize_fence s = join (map fence_safe (split s 10)) 10

unfoldable pub cap_string : Text → ℕ → Text
cap_string s max = if ltb max (length s) then take max s else s

-- What the string builder of a body has after some writes.
abbrev pub written : List Text → Text
written [] = []
written (t ∷ ts) = t ++ written ts

abbrev partial_lines : List Text → Text
partial_lines [] = []
partial_lines (f ∷ fs) = written (codes "\n- `" ∷ f ∷ codes "`" ∷ []) ++ partial_lines fs

abbrev place : FindingRecord → Text
place f = written (codes "`" ∷ f.file ∷ codes ":" ∷ line_label f.line ∷ codes "`" ∷ [])

abbrev finding_rows : List FindingRecord → Text
finding_rows [] = []
finding_rows (f ∷ fs) =
    written (
      codes "\n| "
      ∷ severity_tag f.severity
      ∷ codes " | "
      ∷ place f
      ∷ codes " | "
      ∷ f.title
      ∷ codes " |"
      ∷ [])
    ++ finding_rows fs

abbrev summary_limit : ℕ
summary_limit = 65000

abbrev body_limit : ℕ
body_limit = 30000

-- The summary before it is cut.
summary_text : ReviewOutput → Text
summary_text out = written (
    codes "## CodePeer Review\n\n"
    ∷ out.result.summary
    ∷ (if not (is_nil out.partial_files)
        then written (
            codes
              "\n\n### Partial review\n\nAnalysis failed for these changed files (LLM errors); they were NOT reviewed:\n"
            ∷ partial_lines out.partial_files
            ∷ codes "\n\n**Verdict:** Partial review"
            ∷ dash
            ∷ codes "do not rely on this as a complete review."
            ∷ [])
        else codes "\n\n**Verdict:** " ++ verdict_text out.result.status)
    ∷ codes "\n\n### Findings ("
    ∷ print_ℕ (length out.findings)
    ∷ codes ")"
    ∷ (if length out.findings == 0
        then codes "\n\n" ++ nothing_to_do
        else codes "\n| Severity | File | Title |\n|---|---|---|" ++ finding_rows out.findings)
    ∷ [])

unfoldable pub build_summary_body : ReviewOutput → Text
unfolding summary_text
build_summary_body out =
    let s = summary_text out in
    if ltb summary_limit (length s) then take summary_limit s ++ codes "\n\n_(truncated)_" else s

-- The suggested fix, if both snippets are there.
suggested : Option Suggestion → Text
suggested none = []
suggested (some s) =
    if is_nil s.old || is_nil s.new
    then []
    else written
        (codes "\n\nSuggested fix:\n```suggestion\n" ∷ sanitize_fence s.new ∷ codes "\n```" ∷ [])

abbrev heading : FindingRecord → Text
heading f = written (
    codes "**"
    ∷ capitalize (codes f.severity)
    ∷ codes " ("
    ∷ codes f.category
    ∷ codes ")** "
    ∷ f.title
    ∷ [])

unfoldable pub build_comment_body : FindingRecord → Text
unfolding suggested
build_comment_body f =
    cap_string (written (heading f ∷ codes "\n\n" ∷ f.body ∷ suggested f.suggestion ∷ []))
      body_limit

unfoldable pub build_issue_body : FindingRecord → ℕ → String → String → Text
unfolding suggested
build_issue_body f pr_number repo_owner repo_name =
    cap_string
      (written (
        heading f
        ∷ codes "\n\nSeverity: "
        ∷ codes f.severity
        ∷ codes "\nCategory: "
        ∷ codes f.category
        ∷ codes "\nFile: "
        ∷ place f
        ∷ codes "\n\n"
        ∷ f.body
        ∷ suggested f.suggestion
        ∷ (if ltb 0 pr_number
            then written (
                codes "\n\nFound in PR: "
                ∷ codes repo_owner
                ∷ codes "/"
                ∷ codes repo_name
                ∷ codes "#"
                ∷ print_ℕ pr_number
                ∷ [])
            else codes "\n\nFound in push to " ++ codes repo_name)
        ∷ []))
      body_limit

-- The part of a push comment for one finding.
push_section : FindingRecord → Text
unfolding suggested
push_section f = written (
    codes "**"
    ∷ capitalize (codes f.severity)
    ∷ codes " "
    ∷ codes f.category
    ∷ codes "** "
    ∷ f.title
    ∷ dash
    ∷ place f
    ∷ codes "\n\n"
    ∷ f.body
    ∷ suggested f.suggestion
    ∷ [])

later_sections : List FindingRecord → Text
unfolding push_section
later_sections [] = []
later_sections (f ∷ fs) = codes "\n\n---\n\n" ++ (push_section f ++ later_sections fs)

push_sections : List FindingRecord → Text
unfolding push_section later_sections
push_sections [] = []
push_sections (f ∷ fs) = push_section f ++ later_sections fs

unfoldable pub build_push_comment_body : List FindingRecord → String → Text
unfolding push_sections
build_push_comment_body fs head_sha =
    cap_string
      (written (
        push_sections (take 10 fs)
        ∷ codes "\n\nPush: `"
        ∷ cap_string (codes head_sha) 8
        ∷ codes "`"
        ∷ []))
      body_limit

unfoldable pub issue_title : FindingRecord → Text
issue_title f = cap_string (codes "CodePeer: " ++ f.title) 200
