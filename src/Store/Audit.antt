-- ===== src/Store/Audit.antt =====
-- internal/store/store.go: `Audit`. The program sets no delivery identifier in an entry.
use arcticworks_codepeer.Base.{[], ◌∷◌, ◌++◌}
use arcticworks_codepeer.Domain.{AuditEntry}
use arcticworks_codepeer.Store.{Store}

unfoldable pub audit : AuditEntry → Store → Store
audit e s = record s { audit_log = s.audit_log ++ e ∷ [] }
