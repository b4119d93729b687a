-- ===== src/Tests/Llm.antt =====
-- A model that is overloaded once, and then answers; and a text with a raw tab in a string.
use arcticworks_codepeer.Base.{
  map, All, ◌≡◌, ◌↔◌, refl, Bool, true, false, none, some, List, [], ◌∷◌,
}
use arcticworks_codepeer.Base.Text.{Text, codes}
use arcticworks_codepeer.Base.Result.{ok}
use arcticworks_codepeer.Domain.{CompileInput}
use arcticworks_codepeer.Llm.Escape.{escape_raw_control_chars}
use arcticworks_codepeer.Llm.Escape.Reading.{outside, meaning, IsClean, tokens}
use arcticworks_codepeer.Llm.Escape.Reading.Repair.{escape_raw_control_chars_lem}
use arcticworks_codepeer.Llm.Chat.{Config, Event, HttpReply, ResponseBody, Wire}
use arcticworks_codepeer.Llm.Chat.Bounds.{Extends}
use arcticworks_codepeer.Llm.Review.{NullFinding, review, compile}
use arcticworks_codepeer.Llm.Review.Contract.{IsGood, review_contract}
use arcticworks_codepeer.Tests.Data.{finding_at, sample_request, sample_findings, sample_files}

abbrev with_tab : Text
with_tab = 34 ∷ b'a' ∷ 9 ∷ 34 ∷ []

escaped : escape_raw_control_chars with_tab ≡ 34 ∷ b'a' ∷ 92 ∷ b't' ∷ 34 ∷ []
unfolding escape_raw_control_chars
escaped = refl

escape_raw_control_chars_lem_example :
    (map meaning (tokens outside (escape_raw_control_chars with_tab))
      ≡ map meaning (tokens outside with_tab))
    × All IsClean (tokens outside (escape_raw_control_chars with_tab))
    × ((escape_raw_control_chars with_tab ≡ with_tab) ↔ All IsClean (tokens outside with_tab))
escape_raw_control_chars_lem_example = escape_raw_control_chars_lem with_tab

abbrev answer : ResponseBody
answer = record { status = "completed"; output_text = codes "{}"; output = []; error = none }

abbrev reply_after : List Event → HttpReply
reply_after [] = record { status_code = 429; retry_after = codes "120"; content = [] }
reply_after (e ∷ es) = record { status_code = 200; retry_after = []; content = codes "{}" }

abbrev sample_wire : Wire
sample_wire = record {
  post = λ h r. ok (reply_after h);
  unmarshal = λ t. (true, answer);
  time_until = λ h t. none;
  is_cancelled = λ h. false;
}

abbrev sample_config : Config
sample_config = record { base_url = []; api_key = []; model = []; reasoning_effort = [] }

abbrev read_findings : Text → NullFinding → Bool × NullFinding
read_findings t nf = (
  true,
  record {
    summary = codes "s";
    status = "";
    findings = none ∷ some (finding_at "a.go" 2 "high" "Leak") ∷ [];
  },
)

abbrev sample_job : CompileInput
sample_job = record {
  repo_owner = "o";
  repo_name = "r";
  pr_number = 7;
  pr_title = codes "Fix";
  pr_body = [];
  head_sha = "abc";
  files = sample_files;
  candidates = sample_findings;
  config = sample_request.config;
}

review_contract_example :
    let (r, h1) = review read_findings sample_wire sample_config sample_request [] in
    let (c, h2) = compile read_findings sample_wire sample_config (λ fs. none) sample_job [] in
    Extends 9 [] h1 × IsGood r × Extends 9 [] h2 × IsGood c
review_contract_example =
    review_contract read_findings sample_wire sample_config (λ fs. none) sample_request sample_job
      []
