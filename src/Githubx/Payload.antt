-- ===== src/Githubx/Payload.antt =====
-- internal/githubx/client.go: what `CreateCheckRun`, `UpdateCheckRun`, `CreateReview` and `CreateComment`
-- send. A field that is left out is none; a time is whether it is set.
use arcticworks_codepeer.Base.{
  ℕ, zero, suc, String, Bool, true, false, Option, none, some, List, map, take, ℤ, pos, negsuc,
  str_eq,
}
use arcticworks_codepeer.Base.Text.{Text}
use arcticworks_codepeer.Domain.{Annotation, InlineComment}

abbrev max_check_annotations : ℕ
max_check_annotations = 50

positive : ℤ → Option ℕ
positive (negsuc n) = none
positive (pos zero) = none
positive (pos (suc n)) = some (suc n)

pub record CheckRunAnnotation : Type 0 where
  pub path : Text
  pub start_line : Option ℕ
  pub end_line : Option ℕ
  pub annotation_level : String
  pub message : Text
  pub title : Text

check_run_annotation : Annotation → CheckRunAnnotation
unfolding positive
check_run_annotation a = record {
  path = a.path;
  start_line = positive a.start_line;
  end_line = positive a.end_line;
  annotation_level = a.level;
  message = a.message;
  title = a.title;
}

-- `take` has all of a list that is not longer.
unfoldable pub map_annotations : List Annotation → List CheckRunAnnotation
unfolding check_run_annotation
map_annotations annotations = map check_run_annotation (take max_check_annotations annotations)

pub record CheckRunOptions : Type 0 where
  pub name : String
  pub head_sha : String
  pub status : String
  pub conclusion : String
  pub title : Text
  pub summary : Text
  pub annotations : List CheckRunAnnotation
  pub started : Bool
  pub completed : Bool

-- The options of `CreateCheckRun`.
unfoldable pub check_run_options :
    String → String → String → String → Text → Text → List Annotation → CheckRunOptions
check_run_options name head_sha status conclusion title summary annotations = record {
  name = name;
  head_sha = head_sha;
  status = status;
  conclusion = conclusion;
  title = title;
  summary = summary;
  annotations = map_annotations annotations;
  started = str_eq status "in_progress";
  completed = str_eq status "completed";
}

pub record DraftComment : Type 0 where
  pub path : Text
  pub body : Text
  pub side : String
  pub line : ℤ

-- A comment of `CreateReview`. The start of a comment is never set by the program.
unfoldable pub draft_comment : InlineComment → DraftComment
draft_comment c = record { path = c.path; body = c.body; side = c.side; line = c.line }

pub record PullRequestComment : Type 0 where
  pub body : Text
  pub commit_id : String
  pub path : Text
  pub side : String
  pub line : Option ℕ
  pub on_file : Bool

-- The comment of `CreateComment`: on a line, or on the file.
unfoldable pub pull_request_comment : String → InlineComment → PullRequestComment
unfolding positive
pull_request_comment head_sha c = record {
  body = c.body;
  commit_id = head_sha;
  path = c.path;
  side = c.side;
  line = positive c.line;
  on_file = elim (positive c.line) [ none ↦ true | some n ↦ false ];
}
