-- ===== src/Base/Text.antt =====
-- Go's `string` as its list of bytes, with the functions of package `strings` that the program calls.
-- Case folding and white space are those of ASCII; a byte above 127 is left alone.
pub mod Order
pub mod Decimal
pub mod Prefix
pub mod Hex
use Prim.Native.Char.{code}
use Prim.Native.String.{String}
use arcticworks_codepeer.Base.{
  ℕ, suc, ◌+◌, ◌-◌, Bool, true, false, ◌&&◌, ◌||◌, Option, none, some, List, [], ◌∷◌, ◌++◌, ltb,
  leb, ◌==◌, if◌then◌else◌, length, take, is_some, map,
}

abbrev pub Text : Type 0
Text = List ℕ

-- A literal of the source: its bytes, since every literal that the model uses is ASCII.
abbrev pub codes : String → Text
codes String.[] = []
codes (String.◌∷◌ c s) = code c ∷ codes s

abbrev pub text_eq : Text → Text → Bool
text_eq [] [] = true
text_eq [] (b ∷ t) = false
text_eq (a ∷ s) [] = false
text_eq (a ∷ s) (b ∷ t) = a == b && text_eq s t

-- `<` on strings: byte by byte, a proper prefix first.
abbrev pub text_lt : Text → Text → Bool
text_lt [] [] = false
text_lt [] (b ∷ t) = true
text_lt (a ∷ s) [] = false
text_lt (a ∷ s) (b ∷ t) = ltb a b || (a == b && text_lt s t)

-- What follows the prefix `p` of `s`, if it is one.
unfoldable pub strip_prefix : Text → Text → Option Text
strip_prefix s [] = some s
strip_prefix [] (b ∷ p) = none
strip_prefix (a ∷ s) (b ∷ p) = let rest = strip_prefix s p in if a == b then rest else none

-- strings.HasPrefix(s, p)
unfoldable pub has_prefix : Text → Text → Bool
unfolding strip_prefix
has_prefix s p = is_some (strip_prefix s p)

-- strings.TrimPrefix(s, p)
unfoldable pub trim_prefix : Text → Text → Text
unfolding strip_prefix
trim_prefix s p = elim (strip_prefix s p) [ none ↦ s | some rest ↦ rest ]

-- strings.HasSuffix(s, p)
unfoldable pub has_suffix : Text → Text → Bool
has_suffix [] p = text_eq [] p
has_suffix (c ∷ s) p = text_eq (c ∷ s) p || has_suffix s p

-- strings.TrimSuffix(s, p)
unfoldable pub trim_suffix : Text → Text → Text
unfolding has_suffix
trim_suffix s p = if has_suffix s p then take (length s - length p) s else s

-- strings.Index(s, sub), `none` for -1
unfoldable pub index : Text → Text → Option ℕ
unfolding has_prefix
index [] sub = if has_prefix [] sub then some 0 else none
index (c ∷ s) sub =
    let rest = index s sub in
    if has_prefix (c ∷ s) sub then some 0 else elim rest [ none ↦ none | some i ↦ some (suc i) ]

-- strings.Contains(s, sub)
unfoldable pub contains : Text → Text → Bool
unfolding index
contains s sub = is_some (index s sub)

-- strings.Split(s, sep) at a separator of one byte
unfoldable pub split : Text → ℕ → List Text
split [] sep = [] ∷ []
split (c ∷ s) sep =
    let rest = split s sep in
    if c == sep then [] ∷ rest else elim rest [ [] ↦ (c ∷ []) ∷ [] | l ∷ ls ↦ (c ∷ l) ∷ ls ]

-- strings.Join(lines, sep) at a separator of one byte
unfoldable pub join : List Text → ℕ → Text
join [] sep = []
join (l ∷ []) sep = l
join (l ∷ m ∷ ls) sep = l ++ sep ∷ join (m ∷ ls) sep

-- strings.Cut(s, sep) at a separator of one byte: before, after, found
unfoldable pub cut : Text → ℕ → Text × Text × Bool
cut [] sep = ([], [], false)
cut (c ∷ s) sep =
    let (before, after, found) = cut s sep in
    if c == sep then ([], s, true) else (c ∷ before, after, found)

-- unicode.IsSpace on ASCII
abbrev pub is_space : ℕ → Bool
is_space c = c == 32 || (leb 9 c && leb c 13)

unfoldable pub trim_left : Text → Text
trim_left [] = []
trim_left (c ∷ s) = let rest = trim_left s in if is_space c then rest else c ∷ s

unfoldable pub trim_right : Text → Text
trim_right [] = []
trim_right (c ∷ s) =
    let rest = trim_right s in
    elim rest [ [] ↦ if is_space c then [] else c ∷ [] | d ∷ r ↦ c ∷ d ∷ r ]

-- strings.TrimSpace(s)
unfoldable pub trim_space : Text → Text
unfolding trim_left trim_right
trim_space s = trim_right (trim_left s)

-- Each maximal run without white space, in order; `word` is the run that is being read.
flush_word : Text → List Text → List Text
flush_word [] ws = ws
flush_word (c ∷ w) ws = (c ∷ w) ∷ ws

fields_from : Text → Text → List Text
unfolding flush_word
fields_from word [] = flush_word word []
fields_from word (c ∷ s) =
    let broken = flush_word word (fields_from [] s) in
    let longer = fields_from (word ++ c ∷ []) s in if is_space c then broken else longer

-- strings.Fields(s)
unfoldable pub fields : Text → List Text
unfolding fields_from
fields s = fields_from [] s

-- strings.ToLower and strings.ToUpper on one byte
unfoldable pub lower : ℕ → ℕ
lower c = if leb b'A' c && leb c b'Z' then c + 32 else c

unfoldable pub upper : ℕ → ℕ
upper c = if leb b'a' c && leb c b'z' then c - 32 else c

unfoldable pub to_lower : Text → Text
unfolding lower
to_lower s = map lower s
