-- ===== src/Api.antt =====
-- The Instance resource (api/v1/instance_types.go): its spec, as a user writes it, and the status
-- that the controller reports. A pointer is an `Option`; a Go string with no value is "".
-- resource.Quantity is only passed on, so a size is a text. The int32 fields keep a number.
use kubebird.Prelude.{ℕ, ℤ, String, Bool, Option, List}

pub record StorageVolumeSpec : Type 0 where
  pub class : String
  pub size : String

pub record LocalBackupSpec : Type 0 where
  pub storage : StorageVolumeSpec

pub record BackupDestinationSpec : Type 0 where
  pub local : Option LocalBackupSpec

pub record RetentionSpec : Type 0 where
  pub hour : String
  pub day : String
  pub week : String
  pub month : String
  pub year : String

pub data BackupModeType : Type 0 where
  logical physical : BackupModeType

pub record BackupModeSpec : Type 0 where
  pub mode_type : BackupModeType
  pub incremental : Bool

pub record BackupSpec : Type 0 where
  pub enabled : Bool
  pub destinations : List BackupDestinationSpec
  pub image : String
  pub backup_on_delete : Option Bool
  pub compress : Bool
  pub mode : BackupModeSpec
  pub retention : RetentionSpec

pub record StorageSpec : Type 0 where
  pub primary : StorageVolumeSpec
  pub shadow : Option StorageVolumeSpec

pub record ServiceSpec : Type 0 where
  pub service_type : String
  pub port : ℕ

pub record DatabaseSpec : Type 0 where
  pub name : String
  pub alias : Option String
  pub shadow : Bool
  pub page_size : ℕ
  pub charset : String
  pub collation : String

pub record SysdbaAuthSpec : Type 0 where
  pub secret_ref : String

pub record InstanceSpec : Type 0 where
  pub image : String
  pub version : String
  pub databases : List DatabaseSpec
  pub service : ServiceSpec
  pub storage : StorageSpec
  pub sysdba : SysdbaAuthSpec
  pub backup : BackupSpec

pub data UpgradeStage : Type 0 where
  backing_up releasing restoring : UpgradeStage

pub record UpgradeStatus : Type 0 where
  pub from_version : String
  pub to_version : String
  pub stage : UpgradeStage

-- The one condition that the controller sets is Available; metav1.Condition less its time.
pub record Condition : Type 0 where
  pub status : Bool
  pub reason : String
  pub message : String
  pub observed_generation : ℕ

pub record InstanceStatus : Type 0 where
  pub available : Option Condition
  pub databases : List String
  pub database_count : ℤ
  pub phase : String
  pub error : String
  pub message : String
  pub warning : String
  pub firebird_version : String
  pub upgrade : Option UpgradeStatus

-- The metadata that the controller reads: `deleting` is a DeletionTimestamp that is set.
pub record Instance : Type 0 where
  pub name : String
  pub generation : ℕ
  pub deleting : Bool
  pub finalizers : List String
  pub spec : InstanceSpec
  pub status : InstanceStatus
