-- ===== src/Store/Migrate/Applied.antt =====
-- The database that `Migrate` leaves.
use arcticworks_codepeer.Base.{
  ◌≡◌, refl, sym, ap, subst, ◌∙◌, true, false, ◌||◌, Option, none, some, inl, inr, List, [], ◌∷◌,
  ◌++◌, Bool-cases, All, All-weaken, append_assoc, append-nil, arith,
}
use arcticworks_codepeer.Base.Text.{Text, text_lt}
use arcticworks_codepeer.Base.Text.Order.{text_eq_refl, text_lt_asymm, text_lt_total, text_lt_trans}
use arcticworks_codepeer.Base.Sort.{IsSorted, sort_stable, sort_stable-IsSorted}
use arcticworks_codepeer.Base.Result.{Result, ok, err}
use arcticworks_codepeer.Store.Migrate.{
  Database, is_recorded, applied, apply, stopped_or, migrate_each, migrate,
}

recorded-append :
    (n : Text) (vs ws : List Text)
    → is_recorded n (vs ++ ws) ≡ (is_recorded n vs || is_recorded n ws)
recorded-append n [] ws = refl
recorded-append n (v ∷ vs) ws = ground (arith, recorded-append n vs ws)

recorded_then :
    (n : Text) (vs ws : List Text) → is_recorded n vs ≡ true → is_recorded n (vs ++ ws) ≡ true
recorded_then n vs ws h = recorded-append n vs ws ∙ ground arith

recorded_last : (n : Text) (vs ws : List Text) → is_recorded n ((vs ++ n ∷ []) ++ ws) ≡ true
recorded_last n vs ws =
    recorded_then n (vs ++ n ∷ []) ws
      (recorded-append n vs (n ∷ []) ∙ ground (arith, text_eq_refl n))

not_recorded :
    (n : Text) (vs ws : List Text) → is_recorded n (vs ++ ws) ≡ false → is_recorded n vs ≡ false
not_recorded n vs ws h = ground (arith, recorded-append n vs ws)

text_lt_negtrans : (s t u : Text) → text_lt t s ≡ false → text_lt u t ≡ false → text_lt u s ≡ false
text_lt_negtrans s t u h k = elim (Bool-cases (text_lt u s)) [
  | inr e ↦ e
  | inl e ↦ elim (Bool-cases (text_lt s t)) [
    | inl f ↦ cc (text_lt_trans u s t e f)
    | inr f ↦ cc (text_lt_total s t f h)
  ]
]

module _ {S : Type 0} (run : Text → S → Option S) where
  -- Migrations one after the other.
  abbrev pub run_all : List Text → S → Option S
  run_all [] s = some s
  run_all (n ∷ ns) s = elim (run n s) [ none ↦ none | some s' ↦ run_all ns s' ]

  -- `done` are the migrations that were run.
  record IsMigrated (names : List Text) (db : Database S) (o : Result Text (Unit {0}) × Database S)
      (done : List Text) : Type 1 where
    versions : o.1.versions ≡ db.versions ++ done
    runs : run_all done db.schema ≡ some o.1.schema
    pending : All (λ n. is_recorded n db.versions ≡ false) done
    within : (P : Text → Type 0) → All P names → All P done
    ordered : IsSorted text_lt names → IsSorted text_lt done
    complete : o.0 ≡ ok tt → All (λ n. is_recorded n o.1.versions ≡ true) names
    refused : (n : Text) → o.0 ≡ err n → run n o.1.schema ≡ none

  nothing_done :
      (names : List Text) (db : Database S) (r : Result Text (Unit {0}))
      → (r ≡ ok tt → All (λ n. is_recorded n db.versions ≡ true) names)
      → ((n : Text) → r ≡ err n → run n db.schema ≡ none)
      → IsMigrated names db (r, db) []
  nothing_done names db r all stop = record {
    versions = sym (append-nil db.versions);
    runs = refl;
    pending = tt;
    within = λ P h. tt;
    ordered = λ h. tt;
    complete = all;
    refused = stop;
  }

  skip_recorded :
      (name : Text) (names : List Text) (db : Database S) (o : Result Text (Unit {0}) × Database S)
      (done : List Text)
      → is_recorded name db.versions ≡ true
      → IsMigrated names db o done
      → IsMigrated (name ∷ names) db o done
  skip_recorded name names db o done e m = record {
    versions = m.versions;
    runs = m.runs;
    pending = m.pending;
    within = λ P h. m.within P h.1;
    ordered = λ h. m.ordered h.1;
    complete = λ h. (
      subst (λ v. is_recorded name v ≡ true) (sym m.versions)
          (recorded_then name db.versions done e),
      m.complete h,
    );
    refused = m.refused;
  }

  after_run :
      (name : Text) (names : List Text) (db : Database S) (s : S)
      (o : Result Text (Unit {0}) × Database S) (done : List Text)
      → is_recorded name db.versions ≡ false
      → run name db.schema ≡ some s
      → IsMigrated names (record { versions = db.versions ++ name ∷ []; schema = s }) o done
      → IsMigrated (name ∷ names) db o (name ∷ done)
  after_run name names db s o done fresh e m = record {
    versions = m.versions ∙ append_assoc db.versions (name ∷ []) done;
    runs = rw (e, run_all) m.runs;
    pending =
        (fresh, All-weaken _ _ (λ n h. not_recorded n db.versions (name ∷ []) h) done m.pending);
    within = λ P h. (h.0, m.within P h.1);
    ordered = λ h. (m.within (λ b. text_lt b name ≡ false) h.0, m.ordered h.1);
    complete = λ h. (
      subst (λ v. is_recorded name v ≡ true) (sym m.versions) (recorded_last name db.versions done),
      m.complete h,
    );
    refused = m.refused;
  }

  stopped-IsMigrated :
      (name : Text) (names : List Text) (db : Database S) (next : Option S)
      → is_recorded name db.versions ≡ false
      → run name db.schema ≡ next
      → ((db' : Database S)
          → (done : List Text) × IsMigrated names db' (migrate_each run names db') done)
      → (done : List Text) × IsMigrated
          (name ∷ names)
          db
          (stopped_or run (migrate_each run names) name db (applied run name db next))
          done
  unfolding applied stopped_or
  stopped-IsMigrated name names db none fresh e rest = (
    [],
    nothing_done (name ∷ names) db (err name) (λ h. absurd cc)
        (λ n h. let q : name ≡ n = cc in ap (λ x. run x db.schema) (sym q) ∙ e),
  )
  stopped-IsMigrated name names db (some s) fresh e rest =
      let (done, m) = rest (record { versions = db.versions ++ name ∷ []; schema = s }) in
      (name ∷ done, after_run name names db s _ done fresh e m)

  migrated :
      (names : List Text) (db : Database S)
      → (done : List Text) × IsMigrated names db (migrate_each run names db) done
  unfolding migrate_each apply
  migrated [] db = ([], nothing_done [] db (ok tt) (λ h. tt) (λ n h. absurd cc))
  migrated (name ∷ names) db = elim (Bool-cases (is_recorded name db.versions)) [
    | inl e ↦
        let (done, m) = migrated names db in
        rw (e, migrate_each) (done, skip_recorded name names db _ done e m)
    | inr e ↦
        rw (e, migrate_each)
          (stopped-IsMigrated name names db (run name db.schema) e refl (migrated names))
  ]

  all_recorded :
      (names : List Text) (db : Database S)
      → All (λ n. is_recorded n db.versions ≡ true) names
      → migrate_each run names db ≡ (ok tt, db)
  unfolding migrate_each
  all_recorded [] db h = refl
  all_recorded (name ∷ names) db h = rw (h.0, migrate_each) (all_recorded names db h.1)

  -- For every set of embedded migrations and every database: some migrations were run, and their rows
  -- were added; the schema is what these give, one after the other in the order of their names, and none
  -- of them was recorded before. On success every embedded migration is recorded, and migrating again
  -- changes nothing. If the error names a migration, the schema that is left refuses it.
  pub migrate_contract :
      (entries : List Text) (db : Database S)
      → let (r, db') = migrate run entries db in
        ((done : List Text) × (db'.versions ≡ db.versions ++ done)
          × (run_all done db.schema ≡ some db'.schema)
          × IsSorted text_lt done
          × All (λ n. is_recorded n db.versions ≡ false) done)
        × (r ≡ ok tt
            → All (λ n. is_recorded n db'.versions ≡ true) (sort_stable text_lt entries)
              × (migrate run entries db' ≡ (ok tt, db')))
        × ((n : Text) → r ≡ err n → run n db'.schema ≡ none)
  unfolding migrate
  migrate_contract entries db =
      let names = sort_stable text_lt entries in
      let (done, m) = migrated names db in
      let in_order = sort_stable-IsSorted text_lt text_lt_asymm text_lt_negtrans entries in
      (
        (done, m.versions, m.runs, m.ordered in_order, m.pending),
        λ h. (m.complete h, all_recorded names (migrate_each run names db).1 (m.complete h)),
        m.refused,
      )
