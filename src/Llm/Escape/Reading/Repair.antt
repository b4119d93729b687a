-- ===== src/Llm/Escape/Reading/Repair.antt =====
-- What the repaired text is read as.
use arcticworks_codepeer.Base.{
  ℕ, zero, suc, ◌≤◌, ◌<◌, ◌≡◌, refl, sym, ap, subst, ◌∙◌, ◌↔◌, true, false, inl, inr, Option, none,
  some, List, [], ◌∷◌, ◌++◌, map, append_assoc, arith, Bool-cases, ◌==◌, All, All-append, All-here,
}
use arcticworks_codepeer.Base.Text.{Text}
use arcticworks_codepeer.Llm.Escape.{
  scan_next, is_raw, escape_of, written, escape_from, escape_raw_control_chars,
}
use arcticworks_codepeer.Llm.Escape.Reading.{
  Reader, Token, outside, inside, after_backslash, in_hex, plain, escape, digit, in_literal,
  escaped_char, hex_char, read, at_end, tokens, meaning, IsClean, scan_of, scan_next-read, run,
  tokens-append, escape_of-IsEscaped,
}

digit-control : (c : ℕ) → c < 32 → digit c ≡ none
unfolding digit
digit-control c h = ground arith

-- A raw control character, and what is written for it.
raw-read :
    (q : Reader) (c : ℕ)
    → is_raw (scan_of q) c ≡ true
    → (c < 32)
      × (read q c ≡ (at_end q ++ plain c ∷ [], inside))
      × (run q (escape_of c) ≡ (at_end q ++ escape c ∷ [], inside))
unfolding read at_end in_literal hex_char
raw-read outside c h = absurd cc
raw-read after_backslash c h = absurd cc
raw-read inside c h =
    let low : c < 32 = ground arith in (low, ground arith, (escape_of-IsEscaped c low).0)
raw-read (in_hex k v) c h =
    let low : c < 32 = ground arith in
    (low, rw (digit-control c low) (ground arith), (escape_of-IsEscaped c low).1 k v)

same_meaning :
    (c : ℕ) (pre rest : List Token)
    → map meaning ((pre ++ escape c ∷ []) ++ rest) ≡ map meaning ((pre ++ plain c ∷ []) ++ rest)
same_meaning c [] rest = refl
same_meaning c (t ∷ pre) rest = ap (◌∷◌ (meaning t)) (same_meaning c pre rest)

written-meaning :
    (q : Reader) (c : ℕ) (t : Text)
    → map meaning (tokens q (written (scan_of q) c ++ t)) ≡ map meaning (tokens q (c ∷ t))
unfolding tokens
written-meaning q c t = elim (Bool-cases (is_raw (scan_of q) c)) [
  | inr e ↦ rw e refl
  | inl e ↦
      let (low, one, two) = raw-read q c e in
      rw e (
        ap (map meaning) (tokens-append q (escape_of c) t ∙ ap (λ o. o.0 ++ tokens o.1 t) two)
        ∙ same_meaning c (at_end q) (tokens inside t)
        ∙ ap (λ o. map meaning (o.0 ++ tokens o.1 t)) (sym one))
]

map-append_same :
    (ts us vs : List Token)
    → map meaning us ≡ map meaning vs
    → map meaning (ts ++ us) ≡ map meaning (ts ++ vs)
map-append_same [] us vs h = h
map-append_same (t ∷ ts) us vs h = ap (◌∷◌ (meaning t)) (map-append_same ts us vs h)

escape_from-meaning :
    (q : Reader) (s : Text)
    → map meaning (tokens q (escape_from (scan_of q) s)) ≡ map meaning (tokens q s)
unfolding escape_from tokens
escape_from-meaning q [] = refl
escape_from-meaning q (c ∷ s) =
    let next = (read q c).1 in
    written-meaning q c (escape_from (scan_next (scan_of q) c) s)
    ∙ map-append_same (read q c).0 _ _ (
        ap (λ k. map meaning (tokens next (escape_from k s))) (scan_next-read q c)
        ∙ escape_from-meaning next s)

in_literal-IsClean : (c : ℕ) → 32 ≤ c → All IsClean (in_literal c).0
unfolding in_literal
in_literal-IsClean c h = elim (Bool-cases (c == 92)) [
  | inl e ↦ rw e tt
  | inr e ↦ elim (Bool-cases (c == 34)) [ inl f ↦ rw (e, f) (tt, tt) | inr f ↦ rw (e, f) (h, tt) ]
]

hex_char-IsClean : (k v c : ℕ) (o : Option ℕ) → 32 ≤ c → All IsClean (hex_char k v c o).0
unfolding hex_char
hex_char-IsClean k v c none h = (tt, in_literal-IsClean c h)
hex_char-IsClean zero v c (some d) h = (tt, tt)
hex_char-IsClean (suc k) v c (some d) h = tt

escaped_char-IsClean : (c : ℕ) → All IsClean (escaped_char c).0
unfolding escaped_char
escaped_char-IsClean c = ground arith

read-IsClean : (q : Reader) (c : ℕ) → is_raw (scan_of q) c ≡ false → All IsClean (read q c).0
unfolding read
read-IsClean outside c h = elim (Bool-cases (c == 34)) [
  | inl e ↦ rw e (tt, tt)
  | inr e ↦ rw e (tt, tt)
]
read-IsClean inside c h = in_literal-IsClean c (ground arith)
read-IsClean after_backslash c h = escaped_char-IsClean c
read-IsClean (in_hex k v) c h = hex_char-IsClean k v c (digit c) (ground arith)

at_end-IsClean : (q : Reader) → All IsClean (at_end q)
unfolding at_end
at_end-IsClean outside = tt
at_end-IsClean inside = tt
at_end-IsClean after_backslash = tt
at_end-IsClean (in_hex k v) = (tt, tt)

written-IsClean :
    (q : Reader) (c : ℕ) (t : Text)
    → All IsClean (tokens (read q c).1 t)
    → All IsClean (tokens q (written (scan_of q) c ++ t))
unfolding tokens
written-IsClean q c t h = elim (Bool-cases (is_raw (scan_of q) c)) [
  | inr e ↦ rw e (All-append IsClean (read q c).0 _ (read-IsClean q c e) h)
  | inl e ↦
      let (low, one, two) = raw-read q c e in
      let same = tokens-append q (escape_of c) t ∙ ap (λ o. o.0 ++ tokens o.1 t) two in
      rw e (
        subst (All IsClean) (sym same) (
          All-append IsClean (at_end q ++ escape c ∷ []) (tokens inside t)
            (All-append IsClean (at_end q) (escape c ∷ []) (at_end-IsClean q) (tt, tt))
            (subst (λ o. All IsClean (tokens o.1 t)) one h)))
]

escape_from-IsClean : (q : Reader) (s : Text) → All IsClean (tokens q (escape_from (scan_of q) s))
unfolding escape_from tokens
escape_from-IsClean q [] = at_end-IsClean q
escape_from-IsClean q (c ∷ s) = written-IsClean q c (escape_from (scan_next (scan_of q) c) s) (
    subst (λ k. All IsClean (tokens (read q c).1 (escape_from k s))) (sym (scan_next-read q c))
      (escape_from-IsClean (read q c).1 s))

All-right : (ts us : List Token) → All IsClean (ts ++ us) → All IsClean us
All-right [] us h = h
All-right (t ∷ ts) us h = All-right ts us h.1

escape_from-eq_of_clean :
    (q : Reader) (s : Text) → All IsClean (tokens q s) → escape_from (scan_of q) s ≡ s
unfolding escape_from tokens
escape_from-eq_of_clean q [] h = refl
escape_from-eq_of_clean q (c ∷ s) h = elim (Bool-cases (is_raw (scan_of q) c)) [
  | inr e ↦ rw e (
      ap (◌∷◌ c) (
        ap (λ k. escape_from k s) (scan_next-read q c)
        ∙ escape_from-eq_of_clean (read q c).1 s (All-right (read q c).0 _ h)))
  | inl e ↦
      let (low, one, two) = raw-read q c e in
      let there = subst (λ o. All IsClean (o.0 ++ tokens o.1 s)) one h in
      absurd (
        omega (
          arith,
          All-here IsClean (at_end q) (plain c) (tokens inside s) (
              subst (All IsClean) (append_assoc (at_end q) (plain c ∷ []) (tokens inside s)) there),
          low,
        ))
]

-- For every text: the repaired text has the same literals as the text, between the same characters, with
-- each raw control character of a literal standing as an escape that means it; it has none itself, but
-- directly after a backslash; and a text is left as it is exactly if it had none.
pub escape_raw_control_chars_lem :
    (s : Text)
    → (map meaning (tokens outside (escape_raw_control_chars s)) ≡ map meaning (tokens outside s))
      × All IsClean (tokens outside (escape_raw_control_chars s))
      × ((escape_raw_control_chars s ≡ s) ↔ All IsClean (tokens outside s))
unfolding escape_raw_control_chars
escape_raw_control_chars_lem s =
    let clean = escape_from-IsClean outside s in
    (
      escape_from-meaning outside s,
      clean,
      (
        λ same. subst (λ t. All IsClean (tokens outside t)) same clean,
        escape_from-eq_of_clean outside s,
      ),
    )
