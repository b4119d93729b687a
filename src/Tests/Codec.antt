-- ===== src/Tests/Codec.antt =====
-- An encoder of payloads with a decoder of each payload, as an example of json.Marshal and json.Unmarshal: the
-- fields one after the other, each byte shifted by one, with a zero at the end of a field.
use Prim.Native.Nat.{Ordering, compare}
use Prim.Native.Char.{Char, char, code, nul, IsLt, IsScalar}
use Prim.Native.String.{String}
use text.Mathlib.TextEquality.{Char-path}
use arcticworks_codepeer.Base.{ℕ, zero, suc, ◌≡◌, refl, ap, ◌∙◌, none, some, List, [], ◌∷◌}
use arcticworks_codepeer.Base.Text.{Text, codes}
use arcticworks_codepeer.Domain as Domain
use arcticworks_codepeer.Domain.{Payload}
use arcticworks_codepeer.Webhook.{Json}
use arcticworks_codepeer.Worker.Dispatch.{Decoders}
use arcticworks_codepeer.Worker.Dispatch.Decodes.{ReadsBack}
use arcticworks_codepeer.Tests.Webhook.{sample_event}

abbrev BothLt : Ordering → Ordering → Type 0
BothLt Ordering.lt o = IsLt o
BothLt Ordering.eq o = ⊥
BothLt Ordering.gt o = ⊥

abbrev Scalar : Ordering → Ordering → Ordering → Type 0
Scalar Ordering.lt o p = Unit
Scalar Ordering.eq o p = BothLt o p
Scalar Ordering.gt o p = BothLt o p

dec_lt_type : (o : Ordering) → Dec (IsLt o)
dec_lt_type Ordering.lt = yes tt
dec_lt_type Ordering.eq = no (λ x. x)
dec_lt_type Ordering.gt = no (λ x. x)

dec_both : (o p : Ordering) → Dec (BothLt o p)
dec_both Ordering.lt p = dec_lt_type p
dec_both Ordering.eq p = no (λ x. x)
dec_both Ordering.gt p = no (λ x. x)

dec_scalar : (o p q : Ordering) → Dec (Scalar o p q)
dec_scalar Ordering.lt p q = yes tt
dec_scalar Ordering.eq p q = dec_both p q
dec_scalar Ordering.gt p q = dec_both p q

chosen : (n : ℕ) → Dec (IsScalar n) → Char
chosen n (yes p) = char n p
chosen n (no p) = nul

chr : ℕ → Char
chr n = chosen n (dec_scalar (compare n 55296) (compare 57343 n) (compare n 1114112))

chosen-char : (n : ℕ) (p : IsScalar n) (d : Dec (IsScalar n)) → chosen n d ≡ char n p
unfolding chosen
chosen-char n p (yes q) = Char-path (char n q) (char n p) refl
chosen-char n p (no q) = absurd (q p)

chr-code : (c : Char) → chr (code c) ≡ c
unfolding chr
chr-code (char n p) = chosen-char n p _

pub string_of : Text → String
string_of [] = String.[]
string_of (b ∷ t) = String.◌∷◌ (chr b) (string_of t)

string_of-codes : (s : String) → string_of (codes s) ≡ s
unfolding string_of
string_of-codes String.[] = refl
string_of-codes (String.◌∷◌ c s) = rw (chr-code c, string_of-codes s) refl

put_text : Text → Text → Text
put_text [] rest = 0 ∷ rest
put_text (b ∷ t) rest = suc b ∷ put_text t rest

joined : List Text → Text
unfolding put_text
joined [] = []
joined (t ∷ ts) = put_text t (joined ts)

first : Text → Text
first [] = []
first (zero ∷ s) = []
first (suc b ∷ s) = b ∷ first s

after_first : Text → Text
after_first [] = []
after_first (zero ∷ s) = s
after_first (suc b ∷ s) = after_first s

first-put_text : (t rest : Text) → first (put_text t rest) ≡ t
unfolding first put_text
first-put_text [] rest = refl
first-put_text (b ∷ t) rest = ap (◌∷◌ b) (first-put_text t rest)

after_first-put_text : (t rest : Text) → after_first (put_text t rest) ≡ rest
unfolding after_first put_text
after_first-put_text [] rest = refl
after_first-put_text (b ∷ t) rest = after_first-put_text t rest

nth : ℕ → List Text → Text
nth n [] = []
nth zero (t ∷ ts) = t
nth (suc n) (t ∷ ts) = nth n ts

pub field_at : ℕ → Text → Text
field_at zero s = first s
field_at (suc n) s = field_at n (after_first s)

field_at-joined : (n : ℕ) (ts : List Text) → field_at n (joined ts) ≡ nth n ts
unfolding field_at joined nth first after_first
field_at-joined zero [] = refl
field_at-joined (suc n) [] = field_at-joined n []
field_at-joined zero (t ∷ ts) = first-put_text t (joined ts)
field_at-joined (suc n) (t ∷ ts) =
    ap (field_at n) (after_first-put_text t (joined ts)) ∙ field_at-joined n ts

pub number_of : Text → ℕ
number_of [] = 0
number_of (n ∷ t) = n

fields_of : Payload → List Text
fields_of (Domain.analyze_pr p) =
    (p.installation_id ∷ [])
    ∷ (p.repo_id ∷ [])
    ∷ codes p.repo_owner
    ∷ codes p.repo_name
    ∷ (p.pr_number ∷ [])
    ∷ codes p.head_sha
    ∷ codes p.action
    ∷ codes p.sender_login
    ∷ []
fields_of (Domain.analyze_push p) =
    (p.installation_id ∷ [])
    ∷ (p.repo_id ∷ [])
    ∷ codes p.repo_owner
    ∷ codes p.repo_name
    ∷ codes p.before
    ∷ codes p.after
    ∷ p.ref
    ∷ codes p.sender_login
    ∷ []
fields_of (Domain.feedback p) =
    (p.installation_id ∷ [])
    ∷ (p.repo_id ∷ [])
    ∷ codes p.repo_owner
    ∷ codes p.repo_name
    ∷ (p.pr_number ∷ [])
    ∷ []
fields_of (Domain.close_pr_issues p) =
    (p.installation_id ∷ [])
    ∷ (p.repo_id ∷ [])
    ∷ codes p.repo_owner
    ∷ codes p.repo_name
    ∷ (p.pr_number ∷ [])
    ∷ []
fields_of (Domain.issue_command p) =
    (p.installation_id ∷ [])
    ∷ (p.repo_id ∷ [])
    ∷ codes p.repo_owner
    ∷ codes p.repo_name
    ∷ (p.issue_number ∷ [])
    ∷ p.command
    ∷ codes p.sender_login
    ∷ []

abbrev pub read_back : Decoders
read_back = record {
  analyze_pr = λ s. some (record {
    installation_id = number_of (field_at 0 s);
    repo_id = number_of (field_at 1 s);
    repo_owner = string_of (field_at 2 s);
    repo_name = string_of (field_at 3 s);
    pr_number = number_of (field_at 4 s);
    head_sha = string_of (field_at 5 s);
    action = string_of (field_at 6 s);
    sender_login = string_of (field_at 7 s);
  });
  analyze_push = λ s. some (record {
    installation_id = number_of (field_at 0 s);
    repo_id = number_of (field_at 1 s);
    repo_owner = string_of (field_at 2 s);
    repo_name = string_of (field_at 3 s);
    before = string_of (field_at 4 s);
    after = string_of (field_at 5 s);
    ref = field_at 6 s;
    sender_login = string_of (field_at 7 s);
  });
  feedback = λ s. some (record {
    installation_id = number_of (field_at 0 s);
    repo_id = number_of (field_at 1 s);
    repo_owner = string_of (field_at 2 s);
    repo_name = string_of (field_at 3 s);
    pr_number = number_of (field_at 4 s);
  });
  close_pr_issues = λ s. some (record {
    installation_id = number_of (field_at 0 s);
    repo_id = number_of (field_at 1 s);
    repo_owner = string_of (field_at 2 s);
    repo_name = string_of (field_at 3 s);
    pr_number = number_of (field_at 4 s);
  });
  issue_command = λ s. some (record {
    installation_id = number_of (field_at 0 s);
    repo_id = number_of (field_at 1 s);
    repo_owner = string_of (field_at 2 s);
    repo_name = string_of (field_at 3 s);
    issue_number = number_of (field_at 4 s);
    command = field_at 5 s;
    sender_login = string_of (field_at 6 s);
  });
}

pub encode_payload : Payload → Text
unfolding fields_of
encode_payload p = joined (fields_of p)

abbrev pub codec_json : Json
codec_json = record {
  pull_request = λ b. some sample_event;
  push = λ b. none;
  installation = λ b. none;
  installation_repos = λ b. none;
  issue_comment = λ b. none;
  encode = encode_payload;
}

pub codec-ReadsBack : ReadsBack codec_json read_back
unfolding encode_payload nth number_of
codec-ReadsBack = record {
  analyze_pr = λ p.
      rw
        (
          field_at-joined 0 (fields_of (Domain.analyze_pr p)),
          field_at-joined 1 (fields_of (Domain.analyze_pr p)),
          field_at-joined 2 (fields_of (Domain.analyze_pr p)),
          field_at-joined 3 (fields_of (Domain.analyze_pr p)),
          field_at-joined 4 (fields_of (Domain.analyze_pr p)),
          field_at-joined 5 (fields_of (Domain.analyze_pr p)),
          field_at-joined 6 (fields_of (Domain.analyze_pr p)),
          field_at-joined 7 (fields_of (Domain.analyze_pr p)),
          string_of-codes p.repo_owner,
          string_of-codes p.repo_name,
          string_of-codes p.head_sha,
          string_of-codes p.action,
          string_of-codes p.sender_login,
        )
        refl;
  analyze_push = λ p.
      rw
        (
          field_at-joined 0 (fields_of (Domain.analyze_push p)),
          field_at-joined 1 (fields_of (Domain.analyze_push p)),
          field_at-joined 2 (fields_of (Domain.analyze_push p)),
          field_at-joined 3 (fields_of (Domain.analyze_push p)),
          field_at-joined 4 (fields_of (Domain.analyze_push p)),
          field_at-joined 5 (fields_of (Domain.analyze_push p)),
          field_at-joined 6 (fields_of (Domain.analyze_push p)),
          field_at-joined 7 (fields_of (Domain.analyze_push p)),
          string_of-codes p.repo_owner,
          string_of-codes p.repo_name,
          string_of-codes p.before,
          string_of-codes p.after,
          string_of-codes p.sender_login,
        )
        refl;
  feedback = λ p.
      rw
        (
          field_at-joined 0 (fields_of (Domain.feedback p)),
          field_at-joined 1 (fields_of (Domain.feedback p)),
          field_at-joined 2 (fields_of (Domain.feedback p)),
          field_at-joined 3 (fields_of (Domain.feedback p)),
          field_at-joined 4 (fields_of (Domain.feedback p)),
          string_of-codes p.repo_owner,
          string_of-codes p.repo_name,
        )
        refl;
  close_pr_issues = λ p.
      rw
        (
          field_at-joined 0 (fields_of (Domain.close_pr_issues p)),
          field_at-joined 1 (fields_of (Domain.close_pr_issues p)),
          field_at-joined 2 (fields_of (Domain.close_pr_issues p)),
          field_at-joined 3 (fields_of (Domain.close_pr_issues p)),
          field_at-joined 4 (fields_of (Domain.close_pr_issues p)),
          string_of-codes p.repo_owner,
          string_of-codes p.repo_name,
        )
        refl;
  issue_command = λ p.
      rw
        (
          field_at-joined 0 (fields_of (Domain.issue_command p)),
          field_at-joined 1 (fields_of (Domain.issue_command p)),
          field_at-joined 2 (fields_of (Domain.issue_command p)),
          field_at-joined 3 (fields_of (Domain.issue_command p)),
          field_at-joined 4 (fields_of (Domain.issue_command p)),
          field_at-joined 5 (fields_of (Domain.issue_command p)),
          field_at-joined 6 (fields_of (Domain.issue_command p)),
          string_of-codes p.repo_owner,
          string_of-codes p.repo_name,
          string_of-codes p.sender_login,
        )
        refl;
}
