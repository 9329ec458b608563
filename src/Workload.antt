-- ===== src/Workload.antt =====
-- The objects that run and expose the Firebird server, as the controller wants them
-- (mutateAliasesConfigMap, mutateService, mutateStatefulSet and volumeMounts of
-- internal/controller/instance_resources.go).
pub mod Keeps
pub mod Selection
pub mod Wiring
use kubebird.Prelude.{
  ℕ, String, ◌<>◌, Bool, true, false, not, ◌||◌, Option, none, some, List, [], ◌∷◌, ◌++◌, ◌=?◌,
  ◌==◌, if◌then◌else◌, is_none,
}
use kubebird.Prelude.Text.{path_join}
use kubebird.Api.{Instance, DatabaseSpec}
use kubebird.Naming.{
  Labels, firebird_port, labels_for_instance, firebird_pod_selector, with_firebird_version_label,
  sysdba_secret_ref_name, aliases_config_map_name, primary_pvc_name, shadow_pvc_name,
  backup_pvc_name, primary_volume_name, shadow_volume_name, backup_volume_name, aliases_volume_name,
  primary_data_mount_path, shadow_data_mount_path, backup_data_mount_path, container_name,
  backup_volume_spec, security_database_path,
}
use kubebird.Kube.Objects.{
  VolumeMount, Volume, config_map, EnvVar, literal, secret_key, Container, StatefulSet, ConfigMap,
  Service, ServicePort,
}
use kubebird.Kube.Calls.{
  read_config_map, write_config_map, read_service, write_service, read_stateful_set,
  write_stateful_set, set_controller_reference,
}
use kubebird.Kube.Action.{Action, pure, raise, ◌>>=◌, ◌>>◌, wrap, ask, call, current, asks}
use kubebird.Backup.{plain_mount, claim_volume}
use kubebird.Databases.{sysdba_password}
use kubebird.Security.{security_database_init_script}

abbrev alias_or : String → Option String → String
alias_or name none = name
alias_or name (some alias) = if alias =? "" then name else alias

-- A line for each database.
unfoldable pub alias_lines : List DatabaseSpec → String
unfolding path_join
alias_lines [] = ""
alias_lines (db ∷ dbs) =
    (alias_or db.name db.alias <> (" = " <> (path_join primary_data_mount_path db.name <> "\n")))
    <> alias_lines dbs

unfoldable pub databases_conf : Instance → String
unfolding alias_lines
databases_conf i =
    alias_lines i.spec.databases
    <> ("security.db = "
        <> (security_database_path i
            <> "\n{\n\tRemoteAccess = false\n\tDefaultDbCachePages = 50\n}\n"))

unfoldable pub wanted_config_map : Instance → ConfigMap → ConfigMap
unfolding databases_conf
wanted_config_map i cm = record cm {
  labels = with_firebird_version_label i (labels_for_instance i.name);
  entries = ("databases.conf", databases_conf i) ∷ [];
  owner = some i.name;
}

unfoldable pub reconcile_config_map : Action (Unit {0})
reconcile_config_map = do
  i ← current
  wrap "failed to reconcile aliases ConfigMap: " (do
    cm ← call (read_config_map (aliases_config_map_name i))
    call (set_controller_reference (aliases_config_map_name i))
    call (write_config_map (wanted_config_map i cm)))

unfoldable pub service_port : Instance → ℕ
service_port i = if i.spec.service.port == 0 then firebird_port else i.spec.service.port

unfoldable pub wanted_service : Instance → Service → Service
unfolding service_port
wanted_service i svc = record svc {
  labels = with_firebird_version_label i (labels_for_instance i.name);
  service_type =
      if i.spec.service.service_type =? "" then "ClusterIP" else i.spec.service.service_type;
  selector = firebird_pod_selector i.name;
  ports =
      record {
        name = container_name;
        protocol = "TCP";
        port = service_port i;
        target_port = firebird_port;
      }
      ∷ [];
  owner = some i.name;
}

unfoldable pub reconcile_service : Action (Unit {0})
reconcile_service = do
  i ← current
  wrap "failed to reconcile Service: " (do
    svc ← call (read_service i.name)
    call (set_controller_reference i.name)
    call (write_service (wanted_service i svc)))

-- What follows in `mutateStatefulSet`, where the spec has a backup volume or shadow storage.
abbrev with_backup {ℓ} : {A : Type ℓ} → Instance → A → List A
with_backup i x = if is_none (backup_volume_spec i) then [] else x ∷ []

abbrev with_shadow {ℓ} : {A : Type ℓ} → Instance → A → List A
with_shadow i x = if is_none i.spec.storage.shadow then [] else x ∷ []

unfoldable pub volume_mounts : Instance → List VolumeMount
volume_mounts i =
    plain_mount primary_volume_name primary_data_mount_path
    ∷ record {
      name = aliases_volume_name;
      mount_path = "/opt/firebird/databases.conf";
      sub_path = "databases.conf";
      read_only = true;
    }
    ∷ (with_backup i (plain_mount backup_volume_name backup_data_mount_path)
        ++ with_shadow i (plain_mount shadow_volume_name shadow_data_mount_path))

unfoldable pub set_volumes : Instance → List Volume
set_volumes i =
    claim_volume primary_volume_name (primary_pvc_name i)
    ∷ record { name = aliases_volume_name; source = config_map (aliases_config_map_name i) }
    ∷ (with_backup i (claim_volume backup_volume_name (backup_pvc_name i))
        ++ with_shadow i (claim_volume shadow_volume_name (shadow_pvc_name i)))

unfoldable pub firebird_container : Instance → Container
unfolding volume_mounts
firebird_container i = record {
  name = container_name;
  image = i.spec.image <> (":" <> i.spec.version);
  allow_privilege_escalation = false;
  seccomp_profile = "RuntimeDefault";
  command = [];
  ports = firebird_port ∷ [];
  variables =
      record {
        name = "FIREBIRD_ROOT_PASSWORD";
        source = secret_key (sysdba_secret_ref_name i) "password";
      }
      ∷ record {
        name = "FIREBIRD_CONF_SecurityDatabase";
        source = literal (security_database_path i);
      }
      ∷ [];
  mounts = volume_mounts i;
}

unfoldable pub security_init_container : Instance → Container
security_init_container i = record {
  name = "security-database-init";
  image = i.spec.image <> (":" <> i.spec.version);
  allow_privilege_escalation = false;
  seccomp_profile = "RuntimeDefault";
  command = "sh" ∷ "-c" ∷ security_database_init_script i ∷ [];
  ports = [];
  variables = [];
  mounts =
      plain_mount primary_volume_name primary_data_mount_path
      ∷ with_backup i (plain_mount backup_volume_name backup_data_mount_path);
}

-- The StatefulSet as wanted, from the one there is and the digest of the SYSDBA password.
unfoldable pub wanted_stateful_set : Instance → String → StatefulSet → StatefulSet
unfolding firebird_container security_init_container set_volumes
wanted_stateful_set i hash sts = record sts {
  selector = if sts.created then sts.selector else some (firebird_pod_selector i.name);
  labels = with_firebird_version_label i (firebird_pod_selector i.name);
  replicas = some 1;
  service_name = i.name;
  template_labels = firebird_pod_selector i.name;
  template_annotations = ("kubebird.github.io/sysdba-password-hash", hash) ∷ [];
  containers = firebird_container i ∷ [];
  init_containers = security_init_container i ∷ [];
  volumes = set_volumes i;
  owner = some i.name;
}

unfoldable pub reconcile_stateful_set : Action StatefulSet
unfolding wanted_stateful_set
reconcile_stateful_set = do
  i ← current
  wrap "failed to reconcile StatefulSet: " (do
    sts ← call (read_stateful_set i.name)
    password ← sysdba_password
    hash ← asks (λ env. env.sha256_hex)
    call (set_controller_reference i.name)
    call (write_stateful_set (wanted_stateful_set i (hash password) sts)))
