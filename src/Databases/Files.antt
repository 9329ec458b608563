-- ===== src/Databases/Files.antt =====
-- The backup files of databases, as backupFileName names them and orphanedBackups reads them back.
use kubebird.Prelude.{
  String, ◌<>◌, ◌≡◌, refl, ap, ◌∙◌, ◌=?◌, eq_iff, eq_refl, arith, Bool-cases, inl, inr,
}
use kubebird.Prelude.Text.{trim_suffix}
use Prim.Native.Char.{Char}
use Prim.Native.String
use text.Mathlib.TextLemmas.{nil-append, cons-append, length-cons, length-append}
use kubebird.Naming.{backup_file_name}
use kubebird.Databases.{database_of_backup}

longer : (c : Char) (s t : String) → String.◌∷◌ c (s <> t) ≡ t → ⊥
longer c s t e = omega (arith, ap String.count e, length-cons c (s <> t), length-append s t)

pub trim_suffix-append : (t s : String) → trim_suffix t (s <> t) ≡ s
unfolding trim_suffix
trim_suffix-append t String.[] = rw (nil-append t) (whole t)
  where
    whole : (t : String) → trim_suffix t t ≡ String.[]
    whole String.[] = refl
    whole (String.◌∷◌ c t) = rw (eq_refl (String.◌∷◌ c t)) refl
trim_suffix-append t (String.◌∷◌ c s) =
    ap (trim_suffix t) (cons-append c s t) ∙ elim (Bool-cases (String.◌∷◌ c (s <> t) =? t)) [
      | inl h ↦ absurd (longer c s t ((eq_iff _ _).0 h))
      | inr h ↦ rw (h, trim_suffix-append t s) refl
    ]

-- The name of the backup file of a database whose name ends in .fdb is read back as the name of this
-- very database.
pub database_of_backup-backup_file_name :
    (stem : String) → database_of_backup (backup_file_name (stem <> ".fdb")) ≡ stem <> ".fdb"
unfolding backup_file_name
database_of_backup-backup_file_name stem =
    rw (trim_suffix-append ".fdb" stem, trim_suffix-append ".fbk" stem) refl
