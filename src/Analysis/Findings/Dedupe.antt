-- ===== src/Analysis/Findings/Dedupe.antt =====
-- What `dedupeFindings` returns: of all findings with one key the one of highest severity, the first
-- of these, in the order in which the keys first occur.
use arcticworks_codepeer.Base.{
  ◌≤◌, ◌≡◌, ◌≢◌, refl, sym, ap, ◌∙◌, subst, inl, inr, List, [], ◌∷◌, map, arith, ltb, if◌then◌else◌,
  Bool-cases, All, All-members, Pairs, Memᴰ,
}
use arcticworks_codepeer.Base.Text.{Text, text_eq}
use arcticworks_codepeer.Base.Text.Order.{text_eq_iff, text_eq→eq, eq→text_eq}
use arcticworks_codepeer.Domain.{Finding}
use arcticworks_codepeer.Analysis.Findings.{dedupe_key, dedupe_findings}
use arcticworks_codepeer.Analysis.Findings.Reference.{
  rank, merge_finding, merge_all, dedupe_findings-eq-merge_all,
}

abbrev pub HasDistinctKeys : List Finding → Type 0
HasDistinctKeys = Pairs (λ a b. dedupe_key a ≢ dedupe_key b)

-- A finding of the list with the key of `f` that is at least as severe.
abbrev pub Represents : List Finding → Finding → Type 0
Represents out f = (g : Finding) × Memᴰ g out × (dedupe_key g ≡ dedupe_key f) × (rank f ≤ rank g)

avoids :
    (k : Text) (f : Finding) (out : List Finding)
    → k ≢ dedupe_key f
    → All (λ b. k ≢ dedupe_key b) out
    → All (λ b. k ≢ dedupe_key b) (merge_finding f out)
unfolding merge_finding
avoids k f [] n h = (n, tt)
avoids k f (g ∷ out) n h = elim (Bool-cases (text_eq (dedupe_key g) (dedupe_key f))) [
  | inl e ↦
      rw e (elim (Bool-cases (ltb (rank g) (rank f))) [ inl l ↦ rw l (n, h.1) | inr l ↦ rw l h ])
  | inr e ↦ rw e (h.0, avoids k f out n h.1)
]

transfer :
    (f g : Finding) (out : List Finding)
    → dedupe_key g ≡ dedupe_key f
    → All (λ b. dedupe_key g ≢ dedupe_key b) out
    → All (λ b. dedupe_key f ≢ dedupe_key b) out
transfer f g out e h = rw e at h

merge_finding-HasDistinctKeys :
    (f : Finding) (out : List Finding) → HasDistinctKeys out → HasDistinctKeys (merge_finding f out)
unfolding merge_finding
merge_finding-HasDistinctKeys f [] h = (tt, tt)
merge_finding-HasDistinctKeys f (g ∷ out) h =
    elim (Bool-cases (text_eq (dedupe_key g) (dedupe_key f))) [
      | inl e ↦ rw e (elim (Bool-cases (ltb (rank g) (rank f))) [
        | inl l ↦ rw l (transfer f g out (text_eq→eq _ _ e) h.0, h.1)
        | inr l ↦ rw l h
      ])
      | inr e ↦ rw e (
        avoids (dedupe_key g) f out (λ p. ground (arith, eq→text_eq _ _ p)) h.0,
        merge_finding-HasDistinctKeys f out h.1,
      )
    ]

merge_all-HasDistinctKeys :
    (out fs : List Finding) → HasDistinctKeys out → HasDistinctKeys (merge_all out fs)
unfolding merge_all
merge_all-HasDistinctKeys out [] h = h
merge_all-HasDistinctKeys out (f ∷ fs) h =
    merge_all-HasDistinctKeys (merge_finding f out) fs (merge_finding-HasDistinctKeys f out h)

-- What was represented stays represented when a finding is merged in.
Represents-step :
    (x f : Finding) (out : List Finding) → Represents out x → Represents (merge_finding f out) x
unfolding merge_finding
Represents-step x f [] (g, m, e, r) = elim m [ ]
Represents-step x f (h ∷ out) (g, Memᴰ.head p, e, r) =
    elim (Bool-cases (text_eq (dedupe_key h) (dedupe_key f))) [
      | inl t ↦ rw t (elim (Bool-cases (ltb (rank h) (rank f))) [
        | inl l ↦ rw l (
          f,
          Memᴰ.head refl,
          sym (text_eq→eq _ _ t) ∙ ap dedupe_key (sym p) ∙ e,
          ground (arith, ap rank p),
        )
        | inr l ↦ rw l (g, Memᴰ.head p, e, r)
      ])
      | inr t ↦ rw t (g, Memᴰ.head p, e, r)
    ]
Represents-step x f (h ∷ out) (g, Memᴰ.tail m, e, r) =
    elim (Bool-cases (text_eq (dedupe_key h) (dedupe_key f))) [
      | inl t ↦ rw t (elim (Bool-cases (ltb (rank h) (rank f))) [
        | inl l ↦ rw l (g, Memᴰ.tail m, e, r)
        | inr l ↦ rw l (g, Memᴰ.tail m, e, r)
      ])
      | inr t ↦ rw t (
          let (g', m', e', r') = Represents-step x f out (g, m, e, r) in (g', Memᴰ.tail m', e', r'))
    ]

-- A finding that is merged in is represented.
Represents-new : (f : Finding) (out : List Finding) → Represents (merge_finding f out) f
unfolding merge_finding
Represents-new f [] = (f, Memᴰ.head refl, refl, omega arith)
Represents-new f (h ∷ out) = elim (Bool-cases (text_eq (dedupe_key h) (dedupe_key f))) [
  | inl t ↦ rw t (elim (Bool-cases (ltb (rank h) (rank f))) [
    | inl l ↦ rw l (f, Memᴰ.head refl, refl, omega arith)
    | inr l ↦ rw l (h, Memᴰ.head refl, text_eq→eq _ _ t, ground arith)
  ])
  | inr t ↦ rw t (let (g, m, e, r) = Represents-new f out in (g, Memᴰ.tail m, e, r))
]

Represents-kept :
    (x : Finding) (out fs : List Finding) → Represents out x → Represents (merge_all out fs) x
unfolding merge_all
Represents-kept x out [] h = h
Represents-kept x out (f ∷ fs) h =
    Represents-kept x (merge_finding f out) fs (Represents-step x f out h)

merge_all-Represents :
    (x : Finding) (out fs : List Finding) → Memᴰ x fs → Represents (merge_all out fs) x
unfolding merge_all
merge_all-Represents x out [] m = elim m [ ]
merge_all-Represents x out (f ∷ fs) (Memᴰ.head e) =
    Represents-kept x (merge_finding f out) fs
      (subst (Represents (merge_finding f out)) (sym e) (Represents-new f out))
merge_all-Represents x out (f ∷ fs) (Memᴰ.tail m) =
    merge_all-Represents x (merge_finding f out) fs m

module _ {κ} (P : Finding → Type κ) where
  merge_finding-All :
      (f : Finding) (out : List Finding) → P f → All P out → All P (merge_finding f out)
  unfolding merge_finding
  merge_finding-All f [] p h = (p, tt)
  merge_finding-All f (g ∷ out) p h = elim (Bool-cases (text_eq (dedupe_key g) (dedupe_key f))) [
    | inl t ↦
        rw t (elim (Bool-cases (ltb (rank g) (rank f))) [ inl l ↦ rw l (p, h.1) | inr l ↦ rw l h ])
    | inr t ↦ rw t (h.0, merge_finding-All f out p h.1)
  ]

  merge_all-All : (out fs : List Finding) → All P out → All P fs → All P (merge_all out fs)
  unfolding merge_all
  merge_all-All out [] h k = h
  merge_all-All out (f ∷ fs) h k =
      merge_all-All (merge_finding f out) fs (merge_finding-All f out k.0 h) k.1

  -- What holds of every finding holds of every finding that is kept.
  pub dedupe_findings-All : (fs : List Finding) → All P fs → All P (dedupe_findings fs)
  dedupe_findings-All fs h = rw dedupe_findings-eq-merge_all (merge_all-All [] fs tt h)

-- A key that is not there yet goes to the end.
add_key : Text → List Text → List Text
add_key k [] = k ∷ []
add_key k (j ∷ ks) = let rest = add_key k ks in if text_eq j k then j ∷ ks else j ∷ rest

-- The keys of a list, each where it first occurs.
pub first_occurrences : List Text → List Text → List Text
unfolding add_key
first_occurrences seen [] = seen
first_occurrences seen (k ∷ ks) = first_occurrences (add_key k seen) ks

keys-merge_finding :
    (f : Finding) (out : List Finding)
    → map dedupe_key (merge_finding f out) ≡ add_key (dedupe_key f) (map dedupe_key out)
unfolding merge_finding add_key
keys-merge_finding f [] = refl
keys-merge_finding f (g ∷ out) =
    ground (arith, keys-merge_finding f out, text_eq_iff (dedupe_key g) (dedupe_key f))

keys-merge_all :
    (out fs : List Finding)
    → map dedupe_key (merge_all out fs) ≡ first_occurrences (map dedupe_key out) (map dedupe_key fs)
unfolding merge_all first_occurrences
keys-merge_all out [] = refl
keys-merge_all out (f ∷ fs) =
    keys-merge_all (merge_finding f out) fs
    ∙ ap (λ ks. first_occurrences ks (map dedupe_key fs)) (keys-merge_finding f out)

-- For every list of findings: no two of the kept findings have the same key; every finding of the
-- list is represented by a kept one with its key and at least its severity; every kept finding is one
-- of the list.
pub dedupe_findings_contract :
    (fs : List Finding)
    → HasDistinctKeys (dedupe_findings fs)
      × ((f : Finding) → Memᴰ f fs → Represents (dedupe_findings fs) f)
      × All (λ g. Memᴰ g fs) (dedupe_findings fs)
dedupe_findings_contract fs = (
  rw dedupe_findings-eq-merge_all (merge_all-HasDistinctKeys [] fs tt),
  λ f m. rw dedupe_findings-eq-merge_all (merge_all-Represents f [] fs m),
  dedupe_findings-All (λ g. Memᴰ g fs) fs (All-members fs),
)

-- For every list of findings: the keys of the kept findings are the keys of the list, each once, in
-- the order in which they first occur.
dedupe_findings-keys :
    (fs : List Finding)
    → map dedupe_key (dedupe_findings fs) ≡ first_occurrences [] (map dedupe_key fs)
dedupe_findings-keys fs = rw dedupe_findings-eq-merge_all (keys-merge_all [] fs)
