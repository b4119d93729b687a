-- ===== src/Store/Migrate.antt =====
-- internal/store/migrations.go: `Migrate`. The migrations are the embedded files by name; what one does to the
-- schema is a parameter, which gives none for SQL that is refused. A migration and its row are one
-- transaction. Errors of the connection are not modelled.
pub mod Applied
use arcticworks_codepeer.Base.{
  ℕ, ◌≡◌, refl, sym, ap, ◌∙◌, Bool, true, false, ◌||◌, Option, none, some, inl, inr, List, [], ◌∷◌,
  ◌++◌, Bool-cases, any, if◌then◌else◌, All, All-weaken, append_assoc, append-nil, arith,
}
use arcticworks_codepeer.Base.Text.{Text, text_eq, text_lt}
use arcticworks_codepeer.Base.Text.Order.{text_eq_refl}
use arcticworks_codepeer.Base.Sort.{sort_stable, sort_stable-All}
use arcticworks_codepeer.Base.Result.{Result, ok, err}

-- The rows of schema_migrations, and the schema.
pub record Database (S : Type 0) : Type 0 where
  pub versions : List Text
  pub schema : S

abbrev pub is_recorded : Text → List Text → Bool
is_recorded name versions = any (λ v. text_eq v name) versions

module _ {S : Type 0} (run : Text → S → Option S) where
  -- The transaction of a migration.
  applied : Text → Database S → Option S → Option (Database S)
  applied name db none = none
  applied name db (some s) = some (record { versions = db.versions ++ name ∷ []; schema = s })

  apply : Text → Database S → Option (Database S)
  unfolding applied
  apply name db = applied name db (run name db.schema)

  -- The result, and the database, also after an error.
  stopped_or :
      (Database S → Result Text (Unit {0}) × Database S)
      → Text
      → Database S
      → Option (Database S)
      → Result Text (Unit {0}) × Database S
  stopped_or rest name db none = (err name, db)
  stopped_or rest name db (some db') = rest db'

  migrate_each : List Text → Database S → Result Text (Unit {0}) × Database S
  unfolding stopped_or apply
  migrate_each [] db = (ok tt, db)
  migrate_each (name ∷ names) db = elim (is_recorded name db.versions) [
    | true ↦ migrate_each names db
    | false ↦ stopped_or (migrate_each names) name db (apply name db)
  ]

  unfoldable pub migrate : List Text → Database S → Result Text (Unit {0}) × Database S
  unfolding migrate_each
  migrate entries db = migrate_each (sort_stable text_lt entries) db
