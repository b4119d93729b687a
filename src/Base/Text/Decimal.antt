-- ===== src/Base/Text/Decimal.antt =====
-- `strconv.Itoa` and `strconv.Atoi`.
use arcticworks_codepeer.Base.{
  ℕ, zero, suc, ◌+◌, ◌-◌, ◌*◌, ◌/◌, ◌%◌, ◌^◌, ◌≤◌, ◌<◌, ◌≡◌, refl, ◌∙◌, ap, ◌&&◌, Option, none,
  some, [], ◌∷◌, arith, ltb, leb, ◌==◌, if◌then◌else◌, Bool-cases, inl, inr, ℤ, pos, negsuc,
  FitsInt64,
}
use arcticworks_codepeer.Base.Text.{Text}

-- The digits of `n` before `out`; fuel above `n` is enough, since each round divides `n` by ten.
digits_from : ℕ → ℕ → Text → Text
digits_from zero n out = out
digits_from (suc f) n out =
    let more = digits_from f (n / 10) ((48 + n % 10) ∷ out) in
    if ltb n 10 then (48 + n) ∷ out else more

unfoldable pub print_ℕ : ℕ → Text
unfolding digits_from
print_ℕ n = digits_from (suc n) n []

-- strconv.Itoa, and the verb %d
unfoldable pub itoa : ℤ → Text
itoa (pos n) = print_ℕ n
itoa (negsuc n) = b'-' ∷ print_ℕ (suc n)

scan_digits : Text → ℕ → Option ℕ
scan_digits [] n = some n
scan_digits (c ∷ s) n =
    if leb b'0' c && leb c b'9' then scan_digits s (n * 10 + (c - b'0')) else none

-- At least one digit, and nothing else.
unfoldable pub scan_number : Text → Option ℕ
unfolding scan_digits
scan_number [] = none
scan_number (c ∷ s) = scan_digits (c ∷ s) 0

in_range_pos : Option ℕ → Option ℤ
in_range_pos none = none
in_range_pos (some n) = if ltb n (2 ^ 63) then some (pos n) else none

in_range_neg : Option ℕ → Option ℤ
in_range_neg none = none
in_range_neg (some zero) = some (pos 0)
in_range_neg (some (suc n)) = if ltb n (2 ^ 63) then some (negsuc n) else none

-- strconv.Atoi: `none` for any error, out of the range of an int64 included
unfoldable pub atoi : Text → Option ℤ
unfolding in_range_pos in_range_neg
atoi [] = none
atoi (c ∷ s) =
    if c == b'-'
    then in_range_neg (scan_number s)
    else if c == b'+'
    then in_range_pos (scan_number s)
    else in_range_pos (scan_number (c ∷ s))

scan_last : (n : ℕ) (out : Text) → scan_digits ((48 + n % 10) ∷ out) (n / 10) ≡ scan_digits out n
unfolding scan_digits
scan_last n out = ground arith

scan_small : (n : ℕ) (out : Text) → n < 10 → scan_digits ((48 + n) ∷ out) 0 ≡ scan_digits out n
unfolding scan_digits
scan_small n out h = ground arith

scan-digits_from :
    (f n : ℕ) (out : Text) → n < f → scan_digits (digits_from f n out) 0 ≡ scan_digits out n
unfolding digits_from
scan-digits_from zero n out h = absurd (omega arith)
scan-digits_from (suc f) n out h =
    ground
      (arith, scan_last n out, scan_small n out, scan-digits_from f (n / 10) ((48 + n % 10) ∷ out))

digits_from-eq_cons :
    (f n : ℕ) (out : Text)
    → n < f
    → (c : ℕ) × (s : Text) × (digits_from f n out ≡ c ∷ s) × (b'0' ≤ c)
unfolding digits_from
digits_from-eq_cons zero n out h = absurd (omega arith)
digits_from-eq_cons (suc f) n out h = elim (Bool-cases (ltb n 10)) [
  | inl e ↦ (48 + n, out, rw e, omega arith)
  | inr e ↦ rw e (digits_from-eq_cons f (n / 10) ((48 + n % 10) ∷ out) (ground arith))
]

scan_number-cons : (t : Text) (c : ℕ) (s : Text) → t ≡ c ∷ s → scan_number t ≡ scan_digits t 0
unfolding scan_number
scan_number-cons [] c s e = cc
scan_number-cons (d ∷ t) c s e = refl

scan_number-print_ℕ : (n : ℕ) → scan_number (print_ℕ n) ≡ some n
unfolding print_ℕ
scan_number-print_ℕ n =
    let (c, s, e, _) = digits_from-eq_cons (suc n) n [] (omega arith) in
    scan_number-cons (digits_from (suc n) n []) c s e
    ∙ scan-digits_from (suc n) n [] (omega arith)
    ∙ scan_end n
  where
    scan_end : (n : ℕ) → scan_digits [] n ≡ some n
    scan_end n = unfold scan_digits in refl

-- A text that starts with a digit has no sign.
atoi_unsigned :
    (t : Text) (c : ℕ) (s : Text) → t ≡ c ∷ s → b'0' ≤ c → atoi t ≡ in_range_pos (scan_number t)
unfolding atoi
atoi_unsigned [] c s e h = cc
atoi_unsigned (d ∷ t) c s e h = ground arith

atoi-print_ℕ : (n : ℕ) → atoi (print_ℕ n) ≡ in_range_pos (some n)
atoi-print_ℕ n =
    let (c, s, e, digit) = digits_from-eq_cons (suc n) n [] (omega arith) in
    atoi_unsigned (print_ℕ n) c s (unfold print_ℕ in e) digit
    ∙ ap in_range_pos (scan_number-print_ℕ n)

-- `Atoi` reads back what `Itoa` prints, at every int64.
pub atoi-itoa : (z : ℤ) → FitsInt64 z → atoi (itoa z) ≡ some z
unfolding atoi itoa
atoi-itoa (negsuc n) h = rw (scan_number-print_ℕ (suc n)) (ground arith)
atoi-itoa (pos n) h = atoi-print_ℕ n ∙ ground arith
