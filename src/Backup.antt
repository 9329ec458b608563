-- ===== src/Backup.antt =====
-- The final backup of an Instance's databases by a helper Pod, once its own pod has stopped
-- (backupDatabases of internal/controller/instance_controller.go; backupDatabasesOffline,
-- createDatabaseBackupPod, databaseBackupScript and podFailureReason of instance_provision.go).
pub mod Keeps
pub mod Evidence
use kubebird.Prelude.{
  ℕ, zero, suc, String, ◌<>◌, Bool, true, false, not, ◌||◌, Option, none, some, List, [], ◌∷◌, ◌++◌,
  ◌=?◌, ◌==◌, if◌then◌else◌, is_none,
}
use kubebird.Prelude.Text.{quote, show, path_join}
use kubebird.Api.{Instance}
use kubebird.Naming.{
  labels_for_instance, with_firebird_version_label, primary_pvc_name, shadow_pvc_name,
  backup_pvc_name, database_backup_pod_name, database_backup_image, primary_volume_name,
  shadow_volume_name, backup_volume_name, primary_data_mount_path, shadow_data_mount_path,
  backup_data_mount_path, container_name, instance_backup_dir, backup_file_name,
  security_database_file_name_for_version, security_database_backup_path_for_version,
}
use kubebird.Kube.Objects.{
  VolumeMount, Volume, claim, Container, StatefulSet, Pod, PodPhase, pending, succeeded, failed,
  Terminated,
}
use kubebird.Kube.Calls.{
  Reply, done, fault, not_found, get_stateful_set, get_pod, create_pod, delete_pod,
  update_stateful_set, set_controller_reference,
}
use kubebird.Kube.Action.{
  Action, external, wrapped, waiting, pure, raise, ◌>>=◌, ◌>>◌, wrap, ask, call, current,
}
use kubebird.Kube.Action
use kubebird.Status.{set_deletion_message}
use kubebird.Storage.{unless_missing}

-- A mount with neither a sub-path nor the read-only mark.
abbrev pub plain_mount : String → String → VolumeMount
plain_mount name path = record { name = name; mount_path = path; sub_path = ""; read_only = false }

abbrev pub claim_volume : String → String → Volume
claim_volume name pvc = record { name = name; source = claim pvc }

-- One gbak line for each database.
unfoldable pub backup_lines : List String → String
unfolding quote path_join backup_file_name
backup_lines [] = ""
backup_lines (name ∷ names) =
    ("gbak -backup -verify "
      <> (quote (path_join primary_data_mount_path name)
          <> (" " <> (quote (path_join instance_backup_dir (backup_file_name name)) <> "\n"))))
    <> backup_lines names

unfoldable pub database_backup_script : Instance → String → String
unfolding backup_lines
database_backup_script i version =
    "set -e\n"
    <> (("mkdir -p " <> (quote instance_backup_dir <> "\n"))
        <> (backup_lines i.status.databases
            <> ("gbak -backup -verify "
                <> (quote (
                      path_join primary_data_mount_path
                        (security_database_file_name_for_version version))
                    <> (" "
                        <> (quote (security_database_backup_path_for_version version) <> "\n"))))))

backup_pod_mounts : Instance → List VolumeMount
backup_pod_mounts i =
    plain_mount primary_volume_name primary_data_mount_path
    ∷ plain_mount backup_volume_name backup_data_mount_path
    ∷ (if is_none i.spec.storage.shadow
        then []
        else plain_mount shadow_volume_name shadow_data_mount_path ∷ [])

backup_pod_volumes : Instance → List Volume
backup_pod_volumes i =
    claim_volume primary_volume_name (primary_pvc_name i)
    ∷ claim_volume backup_volume_name (backup_pvc_name i)
    ∷ (if is_none i.spec.storage.shadow
        then []
        else claim_volume shadow_volume_name (shadow_pvc_name i) ∷ [])

-- The helper Pod, with its owner set.
unfoldable pub database_backup_pod : Instance → String → Pod
unfolding backup_pod_mounts backup_pod_volumes database_backup_script database_backup_image
    database_backup_pod_name with_firebird_version_label labels_for_instance
database_backup_pod i version = record {
  name = database_backup_pod_name i;
  labels = with_firebird_version_label i (labels_for_instance i.name);
  owner = some i.name;
  restart_policy = "Never";
  containers =
      record {
        name = container_name;
        image = database_backup_image i version;
        allow_privilege_escalation = false;
        seccomp_profile = "RuntimeDefault";
        command = "sh" ∷ "-c" ∷ database_backup_script i version ∷ [];
        ports = [];
        variables = [];
        mounts = backup_pod_mounts i;
      }
      ∷ [];
  volumes = backup_pod_volumes i;
  phase = pending;
  terminated = [];
  reason = "";
}

unfoldable pub create_database_backup_pod : String → Action (Unit {0})
unfolding database_backup_pod
create_database_backup_pod version = do
  i ← current
  let pod = database_backup_pod i version
  wrap "failed to set owner reference on database backup Pod: "
      (call (set_controller_reference pod.name))
  wrap "failed to create database backup Pod: " (call (create_pod pod))
  raise (waiting ("waiting for database backup Pod " <> (quote pod.name <> " to start")))

-- What a failed container says.
terminated_reason : Terminated → String
terminated_reason t =
    if t.message =? "" then t.reason <> (" (exit code " <> (show t.exit_code <> ")")) else t.message

unfoldable pub failure_reason : List (Option Terminated) → String → String
unfolding terminated_reason
failure_reason [] reason = if reason =? "" then "unknown reason" else reason
failure_reason (none ∷ ts) reason = failure_reason ts reason
failure_reason (some t ∷ ts) reason =
    if t.exit_code == 0 then failure_reason ts reason else terminated_reason t

unfoldable pub pod_failure_reason : Pod → String
unfolding failure_reason
pod_failure_reason pod = failure_reason pod.terminated pod.reason

-- The switch on pod.Status.Phase.
unfoldable pub by_phase : String → Pod → PodPhase → Action (Unit {0})
by_phase name pod succeeded = do
  r ← ask (delete_pod pod.name)
  unless_missing "failed to delete database backup Pod: " r
by_phase name pod failed = do
  r ← ask (delete_pod pod.name)
  unless_missing "failed to delete failed database backup Pod: " r
  raise (
      Action.failed
        ("database backup Pod " <> (quote name <> (" failed: " <> pod_failure_reason pod))))
by_phase name pod _ =
    raise (waiting ("waiting for database backup Pod " <> (quote name <> " to complete")))

unfoldable pub backup_pod_got : String → String → Reply Pod → Action (Unit {0})
unfolding by_phase create_database_backup_pod
backup_pod_got name version (fault (not_found m)) = create_database_backup_pod version
backup_pod_got name version (fault f) =
    raise (wrapped "failed to get database backup Pod: " (external f) "")
backup_pod_got name version (done pod) = by_phase name pod pod.phase

unfoldable pub backup_databases_offline : String → Action (Unit {0})
unfolding backup_pod_got
backup_databases_offline version = do
  i ← current
  let name = database_backup_pod_name i
  r ← ask (get_pod name)
  backup_pod_got name version r

-- sts.Spec.Replicas == nil || *sts.Spec.Replicas != 0
abbrev pub wants_replicas : Option ℕ → Bool
wants_replicas none = true
wants_replicas (some n) = not (n == 0)

unfoldable pub backup_set_got : String → Reply StatefulSet → Action (Unit {0})
backup_set_got version (fault (not_found m)) = pure tt
backup_set_got version (fault f) = raise (wrapped "failed to get StatefulSet: " (external f) "")
backup_set_got version (done sts) =
    if wants_replicas sts.replicas
    then (do
      set_deletion_message "Stopping the Firebird pod to back up its databases"
      wrap "failed to stop the Firebird pod: "
          (call (update_stateful_set (record sts { replicas = some 0 })))
      raise (waiting "stopping the Firebird pod before backing up its databases"))
    else if not (sts.status_replicas == 0)
    then (do
      set_deletion_message "Stopping the Firebird pod to back up its databases"
      raise (waiting "waiting for the Firebird pod to stop before backing up its databases"))
    else (do
      set_deletion_message "Backing up databases into the backup volume"
      backup_databases_offline version)

unfoldable pub backup_databases : String → Action (Unit {0})
unfolding backup_set_got
backup_databases version = do
  i ← current
  r ← ask (get_stateful_set i.name)
  backup_set_got version r
