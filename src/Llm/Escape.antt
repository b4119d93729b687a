-- ===== src/Llm/Escape.antt =====
-- internal/llm/client.go: `escapeRawControlChars`. The text is valid UTF-8, as what JSON decodes is, so
-- that a byte above 127 stands for itself.
pub mod Reading
use arcticworks_codepeer.Base.{
  ℕ, ◌≡◌, refl, ap, sym, ◌∙◌, ◌↔◌, Bool, true, false, not, ◌&&◌, ◌||◌, inl, inr, [], ◌∷◌, ◌++◌,
  arith, Bool-cases, ltb, ◌==◌, if◌then◌else◌,
}
use arcticworks_codepeer.Base.Text.{Text, codes}
use arcticworks_codepeer.Base.Text.Hex.{encode_hex}

abbrev pub quote : ℕ
quote = 34

abbrev pub backslash : ℕ
backslash = 92

-- What stands for a control character.
abbrev escape_of : ℕ → Text
escape_of c =
    if c == 9
    then backslash ∷ b't' ∷ []
    else if c == 10
    then backslash ∷ b'n' ∷ []
    else if c == 13
    then backslash ∷ b'r' ∷ []
    else if c == 8
    then backslash ∷ b'b' ∷ []
    else if c == 12
    then backslash ∷ b'f' ∷ []
    else backslash ∷ codes "u00" ++ encode_hex (c ∷ [])

-- The variables of the loop: inside a string literal, and after a backslash in one.
pub record Scan : Type 0 where
  pub in_string : Bool
  pub escaped : Bool

abbrev pub scan_start : Scan
scan_start = record { in_string = false; escaped = false }

abbrev pub scan_next : Scan → ℕ → Scan
scan_next k c =
    if k.escaped
    then record k { escaped = false }
    else if k.in_string && c == backslash
    then record k { escaped = true }
    else if c == quote
    then record k { in_string = not k.in_string }
    else k

abbrev pub is_raw : Scan → ℕ → Bool
is_raw k c = k.in_string && not k.escaped && ltb c 32

abbrev written : Scan → ℕ → Text
written k c = if is_raw k c then escape_of c else c ∷ []

escape_from : Scan → Text → Text
escape_from k [] = []
escape_from k (c ∷ s) = written k c ++ escape_from (scan_next k c) s

unfoldable pub escape_raw_control_chars : Text → Text
unfolding escape_from
escape_raw_control_chars s = escape_from scan_start s
