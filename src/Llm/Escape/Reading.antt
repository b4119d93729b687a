-- ===== src/Llm/Escape/Reading.antt =====
-- What the repair does to a text as JSON reads it. The reader here is a description of its own: it splits a
-- text in what stands outside of the literals, the quotes, and the characters and escapes of the literals.
pub mod Repair
use arcticworks_codepeer.Base.{
  ℕ, zero, suc, ◌+◌, ◌-◌, ◌*◌, ◌≤◌, ◌<◌, ◌≡◌, refl, sym, ap, subst, ◌∙◌, ◌↔◌, Bool, true, false,
  not, ◌&&◌, inl, inr, Option, none, some, List, [], ◌∷◌, ◌++◌, map, append_assoc, arith,
  Bool-cases, ltb, leb, ◌==◌, ==_iff, if◌then◌else◌, All, All-append, All-here,
}
use arcticworks_codepeer.Base.Text.{Text, codes}
use arcticworks_codepeer.Llm.Escape.{
  Scan, scan_start, scan_next, is_raw, escape_of, written, escape_from, escape_raw_control_chars,
}

-- Where the reader is: after `\u` it has a number of digits still to come, less one, and their value so far.
pub data Reader : Type 0 where
  outside inside after_backslash : Reader
  in_hex : ℕ → ℕ → Reader

-- An escape has the character that it stands for; `kept` is any other character after a backslash.
pub data Token : Type 0 where
  between plain escape kept : ℕ → Token
  quote_mark : Token
  cut_off : ℕ → ℕ → Token

digit : ℕ → Option ℕ
digit c =
    if leb 48 c && leb c 57
    then some (c - 48)
    else if leb 97 c && leb c 102
    then some (c - 87)
    else if leb 65 c && leb c 70
    then some (c - 55)
    else none

in_literal : ℕ → List Token × Reader
in_literal c =
    if c == b'\\'
    then ([], after_backslash)
    else if c == b'"'
    then (quote_mark ∷ [], outside)
    else (plain c ∷ [], inside)

escaped_char : ℕ → List Token × Reader
escaped_char c =
    if c == b't'
    then (escape b'\t' ∷ [], inside)
    else if c == b'n'
    then (escape b'\n' ∷ [], inside)
    else if c == b'r'
    then (escape 13 ∷ [], inside)
    else if c == b'b'
    then (escape 8 ∷ [], inside)
    else if c == b'f'
    then (escape 12 ∷ [], inside)
    else if c == b'u'
    then ([], in_hex 3 0)
    else (kept c ∷ [], inside)

hex_char : ℕ → ℕ → ℕ → Option ℕ → List Token × Reader
hex_char k v c none = let (ts, q) = in_literal c in (cut_off k v ∷ ts, q)
hex_char zero v c (some d) = (escape (16 * v + d) ∷ [], inside)
hex_char (suc k) v c (some d) = ([], in_hex k (16 * v + d))

read : Reader → ℕ → List Token × Reader
unfolding in_literal escaped_char hex_char
read outside c = if c == b'"' then (quote_mark ∷ [], inside) else (between c ∷ [], outside)
read inside c = in_literal c
read after_backslash c = escaped_char c
read (in_hex k v) c = hex_char k v c (digit c)

at_end : Reader → List Token
at_end (in_hex k v) = cut_off k v ∷ []
at_end _ = []

pub tokens : Reader → Text → List Token
unfolding read at_end
tokens q [] = at_end q
tokens q (c ∷ s) = (read q c).0 ++ tokens (read q c).1 s

-- What a token means: an escape means its character.
abbrev pub meaning : Token → Token
meaning (escape c) = plain c
meaning (between c) = between c
meaning (plain c) = plain c
meaning (kept c) = kept c
meaning quote_mark = quote_mark
meaning (cut_off k v) = cut_off k v

-- No control character stands for itself in a literal.
abbrev pub IsClean : Token → Type 0
IsClean (plain c) = 32 ≤ c
IsClean (escape c) = Unit {0}
IsClean (between c) = Unit {0}
IsClean (kept c) = Unit {0}
IsClean quote_mark = Unit {0}
IsClean (cut_off k v) = Unit {0}

-- Where the loop is when the reader is there.
abbrev scan_of : Reader → Scan
scan_of outside = record { in_string = false; escaped = false }
scan_of inside = record { in_string = true; escaped = false }
scan_of after_backslash = record { in_string = true; escaped = true }
scan_of (in_hex k v) = record { in_string = true; escaped = false }

digit-plain : (c d : ℕ) → digit c ≡ some d → ((c == 92) ≡ false) × ((c == 34) ≡ false) × (32 ≤ c)
unfolding digit
digit-plain c d h = ground arith

hex_char-scan :
    (k v c : ℕ) (o : Option ℕ)
    → digit c ≡ o
    → scan_next (scan_of (in_hex k v)) c ≡ scan_of (hex_char k v c o).1
unfolding hex_char in_literal
hex_char-scan k v c none h = ground arith
hex_char-scan zero v c (some d) h = ground (arith, digit-plain c d h)
hex_char-scan (suc k) v c (some d) h = ground (arith, digit-plain c d h)

scan_next-read : (q : Reader) (c : ℕ) → scan_next (scan_of q) c ≡ scan_of (read q c).1
unfolding read in_literal escaped_char
scan_next-read outside c = ground arith
scan_next-read inside c = ground arith
scan_next-read after_backslash c = ground arith
scan_next-read (in_hex k v) c = hex_char-scan k v c (digit c) refl

-- The reader over a piece of text.
run : Reader → Text → List Token × Reader
unfolding read
run q [] = ([], q)
run q (c ∷ s) = ((read q c).0 ++ (run (read q c).1 s).0, (run (read q c).1 s).1)

tokens-append : (q : Reader) (s t : Text) → tokens q (s ++ t) ≡ (run q s).0 ++ tokens (run q s).1 t
unfolding tokens run
tokens-append q [] t = refl
tokens-append q (c ∷ s) t =
    ap (◌++◌ (read q c).0) (tokens-append (read q c).1 s t)
    ∙ sym (append_assoc (read q c).0 (run (read q c).1 s).0 (tokens (run q (c ∷ s)).1 t))

-- An escape of the repair is read as the character that it stands for.
abbrev IsEscaped : ℕ → Type 0
IsEscaped c =
    (run inside (escape_of c) ≡ (escape c ∷ [], inside))
    × ((k v : ℕ) → run (in_hex k v) (escape_of c) ≡ (cut_off k v ∷ escape c ∷ [], inside))

abbrev below : ℕ → List ℕ
below zero = []
below (suc n) = n ∷ below n

All-below {κ} : (P : ℕ → Type κ) (n c : ℕ) → All P (below n) → c < n → P c
All-below P zero c h k = absurd (omega arith)
All-below P (suc n) c h k = elim (Bool-cases (c == n)) [
  | inl e ↦ subst P (sym ((==_iff c n).0 e)) h.0
  | inr e ↦ All-below P n c h.1 (ground arith)
]

below-IsEscaped : All IsEscaped (below 32)
unfolding run read in_literal escaped_char hex_char digit
below-IsEscaped = (
  (refl, λ k v. refl),
  (
    (refl, λ k v. refl),
    (
      (refl, λ k v. refl),
      (
        (refl, λ k v. refl),
        (
          (refl, λ k v. refl),
          (
            (refl, λ k v. refl),
            (
              (refl, λ k v. refl),
              (
                (refl, λ k v. refl),
                (
                  (refl, λ k v. refl),
                  (
                    (refl, λ k v. refl),
                    (
                      (refl, λ k v. refl),
                      (
                        (refl, λ k v. refl),
                        (
                          (refl, λ k v. refl),
                          (
                            (refl, λ k v. refl),
                            (
                              (refl, λ k v. refl),
                              (
                                (refl, λ k v. refl),
                                (
                                  (refl, λ k v. refl),
                                  (
                                    (refl, λ k v. refl),
                                    (
                                      (refl, λ k v. refl),
                                      (
                                        (refl, λ k v. refl),
                                        (
                                          (refl, λ k v. refl),
                                          (
                                            (refl, λ k v. refl),
                                            (
                                              (refl, λ k v. refl),
                                              (
                                                (refl, λ k v. refl),
                                                (
                                                  (refl, λ k v. refl),
                                                  (
                                                    (refl, λ k v. refl),
                                                    (
                                                      (refl, λ k v. refl),
                                                      (
                                                        (refl, λ k v. refl),
                                                        (
                                                          (refl, λ k v. refl),
                                                          (
                                                            (refl, λ k v. refl),
                                                            (
                                                            (refl, λ k v. refl),
                                                            ((refl, λ k v. refl), tt),
                                                            ),
                                                          ),
                                                        ),
                                                      ),
                                                    ),
                                                  ),
                                                ),
                                              ),
                                            ),
                                          ),
                                        ),
                                      ),
                                    ),
                                  ),
                                ),
                              ),
                            ),
                          ),
                        ),
                      ),
                    ),
                  ),
                ),
              ),
            ),
          ),
        ),
      ),
    ),
  ),
)

escape_of-IsEscaped : (c : ℕ) → c < 32 → IsEscaped c
escape_of-IsEscaped c h = All-below IsEscaped 32 c below-IsEscaped h
