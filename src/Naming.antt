-- ===== src/Naming.antt =====
-- Names, labels and images of the objects that belong to an Instance, and what its spec asks for
-- (internal/controller/instance_resources.go and instance_provision.go).
pub mod Distinct
pub mod Selection
pub mod Destinations
use kubebird.Prelude.{
  ℕ, String, ◌<>◌, Bool, true, false, not, ◌&&◌, Option, none, some, List, [], ◌∷◌, ◌++◌, ◌=?◌,
  if◌then◌else◌,
}
use kubebird.Prelude.Text.{cut_before, trim_suffix, path_join}
use kubebird.Api.{
  Instance, BackupDestinationSpec, LocalBackupSpec, StorageVolumeSpec, UpgradeStatus,
}

abbrev pub firebird_port : ℕ
firebird_port = 3050

abbrev pub primary_data_mount_path : String
primary_data_mount_path = "/var/lib/firebird/data"

abbrev pub shadow_data_mount_path : String
shadow_data_mount_path = "/var/lib/firebird/shadow"

abbrev pub backup_data_mount_path : String
backup_data_mount_path = "/var/lib/firebird/backup"

abbrev pub sysdba_username : String
sysdba_username = "SYSDBA"

abbrev pub primary_volume_name : String
primary_volume_name = "primary"

abbrev pub shadow_volume_name : String
shadow_volume_name = "shadow"

abbrev pub backup_volume_name : String
backup_volume_name = "backup"

abbrev pub aliases_volume_name : String
aliases_volume_name = "aliases"

abbrev pub container_name : String
container_name = "firebird"

abbrev pub instance_label_key : String
instance_label_key = "kubebird.github.io/instance"

abbrev pub firebird_version_label_key : String
firebird_version_label_key = "kubebird.github.io/firebird-version"

abbrev pub finalizer_name : String
finalizer_name = "kubebird.github.io/finalizer"

-- A label map: the first entry of a key counts.
abbrev pub Labels : Type 0
Labels = List (String × String)

-- labels[key], which is "" where there is no such label
unfoldable pub label : String → Labels → String
label key [] = ""
label key ((k, v) ∷ labels) = if k =? key then v else label key labels

-- labels[key] = value
unfoldable pub set_label : String → String → Labels → Labels
set_label key value [] = (key, value) ∷ []
set_label key value ((k, v) ∷ labels) =
    if k =? key then (key, value) ∷ labels else (k, v) ∷ set_label key value labels

unfoldable pub labels_for_instance : String → Labels
labels_for_instance name =
    ("app.kubernetes.io/name", "firebird")
    ∷ ("app.kubernetes.io/instance", name)
    ∷ ("app.kubernetes.io/managed-by", "kubebird-controller")
    ∷ (instance_label_key, name)
    ∷ []

unfoldable pub firebird_pod_selector : String → Labels
unfolding labels_for_instance set_label
firebird_pod_selector name =
    set_label "app.kubernetes.io/component" "firebird" (labels_for_instance name)

unfoldable pub with_firebird_version_label : Instance → Labels → Labels
unfolding set_label
with_firebird_version_label i labels =
    if i.status.firebird_version =? ""
    then labels
    else set_label firebird_version_label_key i.status.firebird_version labels

unfoldable pub sysdba_secret_ref_name : Instance → String
sysdba_secret_ref_name i =
    if i.spec.sysdba.secret_ref =? "" then i.name <> "-sysdba" else i.spec.sysdba.secret_ref

unfoldable pub aliases_config_map_name : Instance → String
aliases_config_map_name i = i.name <> "-aliases"

unfoldable pub primary_pvc_name : Instance → String
primary_pvc_name i = i.name <> ("-" <> primary_volume_name)

unfoldable pub shadow_pvc_name : Instance → String
shadow_pvc_name i = i.name <> ("-" <> shadow_volume_name)

unfoldable pub backup_pvc_name : Instance → String
backup_pvc_name i = i.name <> ("-" <> backup_volume_name)

unfoldable pub firebird_pod_name : Instance → String
firebird_pod_name i = i.name <> "-0"

unfoldable pub database_backup_pod_name : Instance → String
database_backup_pod_name i = i.name <> "-database-backup"

-- The first destination that is local.
unfoldable pub first_local : List BackupDestinationSpec → Option StorageVolumeSpec
first_local [] = none
first_local (t ∷ ts) = elim t.local [ none ↦ first_local ts | some l ↦ some l.storage ]

unfoldable pub backup_volume_spec : Instance → Option StorageVolumeSpec
unfolding first_local
backup_volume_spec i =
    if i.spec.backup.enabled then first_local i.spec.backup.destinations else none

unfoldable pub backup_on_delete : Instance → Bool
backup_on_delete i = elim i.spec.backup.backup_on_delete [ none ↦ true | some b ↦ b ]

unfoldable pub backup_image : Instance → String
backup_image i =
    if i.spec.backup.image =? ""
    then i.spec.image <> (":" <> i.spec.version)
    else i.spec.backup.image

unfoldable pub database_backup_image : Instance → String → String
unfolding backup_image
database_backup_image i version =
    if version =? i.spec.version then backup_image i else i.spec.image <> (":" <> version)

unfoldable pub security_database_file_name_for_version : String → String
unfolding cut_before
security_database_file_name_for_version version =
    let major = cut_before b'.' version in
    "security" <> ((if major =? "" then "4" else major) <> ".fdb")

unfoldable pub security_database_path : Instance → String
unfolding security_database_file_name_for_version path_join
security_database_path i =
    path_join primary_data_mount_path (security_database_file_name_for_version i.spec.version)

-- path.Join(backupDataMountPath, "base")
abbrev pub instance_backup_dir : String
instance_backup_dir = "/var/lib/firebird/backup/base"

unfoldable pub backup_file_name : String → String
unfolding trim_suffix
backup_file_name db_name = trim_suffix ".fdb" db_name <> ".fbk"

unfoldable pub security_database_backup_path_for_version : String → String
unfolding backup_file_name security_database_file_name_for_version path_join
security_database_backup_path_for_version version =
    path_join instance_backup_dir
      (backup_file_name (security_database_file_name_for_version version))
