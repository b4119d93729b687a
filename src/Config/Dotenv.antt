-- ===== src/Config/Dotenv.antt =====
-- internal/config/dotenv.go: the assignments of an environment file. The environment of the process is a
-- function, and the file that a path names is a parameter.
use arcticworks_codepeer.Base.{
  ℕ, ◌≡◌, refl, sym, ap, ◌∙◌, Bool, true, false, not, ◌&&◌, ◌||◌, inl, inr, Option, none, some,
  List, [], ◌∷◌, Bool-cases, any, leb, ◌==◌, if◌then◌else◌, is_nil, is_some, length,
}
use arcticworks_codepeer.Base.Text.{Text, codes, text_eq, has_prefix, trim_space, cut, split}
use arcticworks_codepeer.Base.Text.Order.{text_eq→eq}
use arcticworks_codepeer.Base.Result.{Result, ok, err}
use arcticworks_codepeer.Base.Action.{Action, pure, fail, resume, ◌>>◌}

-- The variables that are set. An empty value is not an unset one.
abbrev pub Environ : Type 0
Environ = Text → Option Text

pub data EnvError : Type 0 where
  line_too_long : EnvError
  unreadable_file : EnvError
  invalid_variable : Text → EnvError
  invalid_value : Text → EnvError
  required : Text → EnvError

pub data EnvFile : Type 0 where
  missing unreadable : EnvFile
  content : Text → EnvFile

last_byte : ℕ → Text → ℕ
last_byte c [] = c
last_byte c (d ∷ s) = last_byte d s

without_last : ℕ → Text → Text
without_last c [] = []
without_last c (d ∷ s) = c ∷ without_last d s

-- A value in quotes of one kind loses them.
unquote : Text → Text
unfolding last_byte without_last
unquote [] = []
unquote (q ∷ []) = q ∷ []
unquote (q ∷ c ∷ s) =
    if (q == b'"' && last_byte c s == b'"') || (q == b'\'' && last_byte c s == b'\'')
    then without_last c s
    else q ∷ c ∷ s

assignment : Text × Text × Bool → Option (Text × Text)
unfolding unquote
assignment (key, val, found) =
    if not found || is_nil (trim_space key)
    then none
    else some (trim_space key, unquote (trim_space val))

-- The variable and the value of a line, if it has them.
env_line : Text → Option (Text × Text)
unfolding assignment
env_line raw =
    if is_nil (trim_space raw) || has_prefix (trim_space raw) (codes "#")
    then none
    else assignment (cut (trim_space raw) b'=')

-- What `os.Setenv` refuses.
abbrev bad_variable : Text → Text → Bool
bad_variable key val = any (λ c. c == b'=' || c == 0) key || any (λ c. c == 0) val

abbrev set_env : Text → Text → Environ → Environ
set_env key val env k = if text_eq key k then some val else env k

-- A variable that is set already is left alone.
apply_assignment : Option (Text × Text) → Action Environ EnvError (Unit {0})
apply_assignment none env = (ok tt, env)
apply_assignment (some (key, val)) env =
    if is_some (env key)
    then (ok tt, env)
    else if bad_variable key val
    then (err (invalid_variable key), env)
    else (ok tt, set_env key val env)

-- The buffer of a bufio.Scanner: a line with this many bytes has no place in it.
abbrev max_line : ℕ
max_line = 65_536

load_lines : List Text → Action Environ EnvError (Unit {0})
unfolding apply_assignment
load_lines [] = pure tt
load_lines (l ∷ ls) =
    if leb max_line (length l)
    then fail line_too_long
    else apply_assignment (env_line l) >> load_lines ls

load_file : EnvFile → Action Environ EnvError (Unit {0})
unfolding load_lines
load_file missing = pure tt
load_file unreadable = fail unreadable_file
load_file (content t) = load_lines (split t b'\n')

abbrev pub or_default : Text → Option Text → Text
or_default default none = default
or_default default (some []) = default
or_default default (some (c ∷ s)) = c ∷ s

abbrev pub env_path : Environ → Text
env_path env = or_default (codes ".env") (env (codes "CODE_PEER_ENV_FILE"))

-- `split` has an empty line after the last line feed, and leaves a carriage return at the end of a line:
-- `env_line` skips the one and trims the other.
unfoldable pub load_dotenv : (Text → EnvFile) → Action Environ EnvError (Unit {0})
unfolding load_file env_line
load_dotenv files env = load_file (files (env_path env)) env

-- The value that a variable has in the lines of a file: that of its first assignment.
assigned_or : Text → Option Text → Option (Text × Text) → Option Text
assigned_or k rest none = rest
assigned_or k rest (some (key, val)) = if text_eq key k then some val else rest

pub first_value : Text → List Text → Option Text
unfolding assigned_or
first_value k [] = none
first_value k (l ∷ ls) = assigned_or k (first_value k ls) (env_line l)

abbrev pub or_else : Option Text → Option Text → Option Text
or_else none o = o
or_else (some v) o = some v

or_else-none : (o : Option Text) → or_else o none ≡ o
or_else-none none = refl
or_else-none (some v) = refl

or_else-set : (o a b : Option Text) → is_some o ≡ true → or_else o a ≡ or_else o b
or_else-set none a b h = cc
or_else-set (some v) a b h = refl

or_else-unset : (o a : Option Text) → is_some o ≡ false → or_else o a ≡ a
or_else-unset none a h = refl
or_else-unset (some v) a h = cc

module _ (key val k : Text) (rest : Option Text) (env : Environ) where
  abbrev looked_up : Option Text
  looked_up = if text_eq key k then some val else rest

  left_alone : is_some (env key) ≡ true → or_else (env k) rest ≡ or_else (env k) looked_up
  left_alone h = elim (Bool-cases (text_eq key k)) [
    | inl same ↦
        or_else-set (env k) rest looked_up
          (ap (λ v. is_some (env v)) (sym (text_eq→eq key k same)) ∙ h)
    | inr other ↦ rw other refl
  ]

  set_now :
      is_some (env key) ≡ false → or_else (set_env key val env k) rest ≡ or_else (env k) looked_up
  set_now h = elim (Bool-cases (text_eq key k)) [
    | inl same ↦ rw same (
        sym (
          or_else-unset (env k) (some val)
            (ap (λ v. is_some (env v)) (sym (text_eq→eq key k same)) ∙ h)))
    | inr other ↦ rw other refl
  ]

assigned :
    (a : Option (Text × Text)) (env : Environ) (k : Text) (rest : Option Text)
    → (apply_assignment a env).0 ≡ ok tt
    → or_else ((apply_assignment a env).1 k) rest ≡ or_else (env k) (assigned_or k rest a)
unfolding apply_assignment assigned_or
assigned none env k rest h = refl
assigned (some (key, val)) env k rest h = elim (Bool-cases (is_some (env key))) [
  | inl e ↦ rw e (left_alone key val k rest env e)
  | inr e ↦ elim (Bool-cases (bad_variable key val)) [
    | inl bad ↦ (let h' = rw e at h in let h'' = rw bad at h' in cc)
    | inr good ↦ rw e (rw good (set_now key val k rest env e))
  ]
]

short_line :
    (long : Bool) (act : Action Environ EnvError (Unit {0})) (env : Environ)
    → ((if long then fail line_too_long else act) env).0 ≡ ok tt
    → (if long then fail line_too_long else act) ≡ act
short_line true act env h = cc
short_line false act env h = refl

resumed :
    (ls : List Text) (o : Result EnvError (Unit {0}) × Environ)
    → (resume (λ done. load_lines ls) o).0 ≡ ok tt
    → (o.0 ≡ ok tt) × (resume (λ done. load_lines ls) o ≡ load_lines ls o.1)
resumed ls (err e, env) h = cc
resumed ls (ok tt, env) h = (refl, refl)

load_lines-first_value :
    (ls : List Text) (env : Environ) (k : Text)
    → (load_lines ls env).0 ≡ ok tt
    → (load_lines ls env).1 k ≡ or_else (env k) (first_value k ls)
unfolding load_lines first_value
load_lines-first_value [] env k h = sym (or_else-none (env k))
load_lines-first_value (l ∷ ls) env k h =
    let act = apply_assignment (env_line l) >> load_lines ls in
    let fits : load_lines (l ∷ ls) ≡ act = short_line (leb max_line (length l)) act env h in
    let done : (act env).0 ≡ ok tt = ap (λ f. (f env).0) (sym fits) ∙ h in
    let (first, follows) = resumed ls (apply_assignment (env_line l) env) done in
    let env' : Environ = (apply_assignment (env_line l) env).1 in
    ap (λ f. (f env).1 k) fits
    ∙ ap (λ o. o.1 k) follows
    ∙ load_lines-first_value ls env' k (ap (λ o. o.0) (sym follows) ∙ done)
    ∙ assigned (env_line l) env k (first_value k ls) first

-- After a file has been loaded with no error, a variable that was set before has its value from before,
-- and any other has the value of its first assignment in the file; without one it is not set.
pub load_dotenv-first_value :
    (files : Text → EnvFile) (env : Environ) (t : Text)
    → files (env_path env) ≡ content t
    → (load_dotenv files env).0 ≡ ok tt
    → (k : Text) → (load_dotenv files env).1 k ≡ or_else (env k) (first_value k (split t b'\n'))
unfolding load_dotenv load_file
load_dotenv-first_value files env t named h k =
    let opened : load_dotenv files env ≡ load_lines (split t b'\n') env =
      ap (λ f. load_file f env) named in
    ap (λ o. o.1 k) opened
    ∙ load_lines-first_value (split t b'\n') env k (ap (λ o. o.0) (sym opened) ∙ h)
