-- ===== src/Backup/Keeps.antt =====
-- Backing up keeps every stable invariant.
use kubebird.Prelude.{String, refl}
use kubebird.Kube.Objects.{Pod, PodPhase, StatefulSet, succeeded, failed}
use kubebird.Kube.Calls.{
  Env, Reply, done, fault, not_found, get_pod, create_pod, delete_pod, get_stateful_set,
  update_stateful_set, set_controller_reference,
}
use kubebird.Kube.Calls
use kubebird.Kube.Action.{State, call, ask}
use kubebird.Kube.Rules.{Keeps, keeps_rules}
use kubebird.Kube.Stable.{IsStable, ask-Keeps, call-Keeps}
use kubebird.Status.Keeps.{set_deletion_message-Keeps}
use kubebird.Storage.Keeps.{unless_missing-Keeps}
use kubebird.Backup.{
  create_database_backup_pod, by_phase, backup_pod_got, backup_databases_offline, backup_set_got,
  backup_databases,
}

module _ {env : Env} {J : State → Type 0} (st : IsStable env J) where
  pub own-Keeps : (name : String) → Keeps env J (call (set_controller_reference name))
  own-Keeps name = call-Keeps st (set_controller_reference name) refl

  pub create_pod-Keeps : (p : Pod) → Keeps env J (call (create_pod p))
  create_pod-Keeps p = call-Keeps st (create_pod p) refl

  pub delete_pod-Keeps : (name : String) → Keeps env J (ask (delete_pod name))
  delete_pod-Keeps name = ask-Keeps st (delete_pod name) refl

  pub create_database_backup_pod-Keeps :
      (version : String) → Keeps env J (create_database_backup_pod version)
  unfolding create_database_backup_pod
  create_database_backup_pod-Keeps version =
      search (keeps_rules, own-Keeps, create_pod-Keeps) depth 8

  pub by_phase-Keeps :
      (name : String) (pod : Pod) (phase : PodPhase) → Keeps env J (by_phase name pod phase)
  unfolding by_phase
  by_phase-Keeps name pod succeeded = search (keeps_rules, delete_pod-Keeps, unless_missing-Keeps)
  by_phase-Keeps name pod failed =
      search (keeps_rules, delete_pod-Keeps, unless_missing-Keeps) depth 8
  by_phase-Keeps name pod _ = search keeps_rules

  backup_pod_got-Keeps :
      (name version : String) (r : Reply Pod) → Keeps env J (backup_pod_got name version r)
  unfolding backup_pod_got
  backup_pod_got-Keeps name version (done pod) = by_phase-Keeps name pod pod.phase
  backup_pod_got-Keeps name version (fault (not_found m)) = create_database_backup_pod-Keeps version
  backup_pod_got-Keeps name version (fault (Calls.exit_code c m)) = search keeps_rules
  backup_pod_got-Keeps name version (fault (Calls.other m)) = search keeps_rules

  pub get_pod-Keeps : (name : String) → Keeps env J (ask (get_pod name))
  get_pod-Keeps name = ask-Keeps st (get_pod name) refl

  backup_databases_offline-Keeps :
      (version : String) → Keeps env J (backup_databases_offline version)
  unfolding backup_databases_offline
  backup_databases_offline-Keeps version =
      search (keeps_rules, get_pod-Keeps, backup_pod_got-Keeps) depth 8

  pub update_stateful_set-Keeps : (sts : StatefulSet) → Keeps env J (call (update_stateful_set sts))
  update_stateful_set-Keeps sts = call-Keeps st (update_stateful_set sts) refl

  pub backup_set_got-Keeps :
      (version : String) (r : Reply StatefulSet) → Keeps env J (backup_set_got version r)
  unfolding backup_set_got
  backup_set_got-Keeps version (done sts) =
      search
        (
          keeps_rules,
          update_stateful_set-Keeps,
          set_deletion_message-Keeps st,
          backup_databases_offline-Keeps,
        )
        depth 9
  backup_set_got-Keeps version (fault (not_found m)) = search keeps_rules
  backup_set_got-Keeps version (fault (Calls.exit_code c m)) = search keeps_rules
  backup_set_got-Keeps version (fault (Calls.other m)) = search keeps_rules

  pub get_stateful_set-Keeps : (name : String) → Keeps env J (ask (get_stateful_set name))
  get_stateful_set-Keeps name = ask-Keeps st (get_stateful_set name) refl

  pub backup_databases-Keeps : (version : String) → Keeps env J (backup_databases version)
  unfolding backup_databases
  backup_databases-Keeps version =
      search (keeps_rules, get_stateful_set-Keeps, backup_set_got-Keeps) depth 8
