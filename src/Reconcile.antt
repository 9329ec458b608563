-- ===== src/Reconcile.antt =====
-- The reconcile of an Instance (Reconcile and reconcileInstance of
-- internal/controller/instance_controller.go, reconcileFirebirdVersion of instance_version.go).
pub mod Keeps
pub mod BackupVolume
pub mod Concluded
pub mod Lasting
pub mod Reported
use kubebird.Prelude.{
  ℕ, String, ◌<>◌, Bool, true, false, not, ◌&&◌, ◌||◌, Option, none, some, List, [], ◌∷◌, ◌=?◌,
  ◌==◌, leb, ltb, if◌then◌else◌, is_none, length,
}
use kubebird.Prelude.Text.{quote}
use kubebird.Api.{Instance}
use kubebird.Naming.{
  label, set_label, firebird_version_label_key, firebird_pod_name, finalizer_name, sysdba_username,
}
use kubebird.Kube.Objects.{StatefulSet, Pod}
use kubebird.Kube.Calls.{Reply, done, fault, not_found, get_instance, get_pod, patch_pod}
use kubebird.Kube.Action.{
  Action, Error, Result, ok, err, external, failed, wrapped, as_waiting, pure, raise, ◌>>=◌, ◌>>◌,
  wrap, catch, accept, ask, call, current, become, asks, modify_status, write_status,
}
use kubebird.Status.{
  phase_provisioning, phase_ready, phase_upgrading, set_phase, set_available, set_error,
  set_progress,
}
use kubebird.Version.{parse_server_version}
use kubebird.Storage.{reconcile_pvcs}
use kubebird.Secret.{reconcile_sysdba_secret}
use kubebird.Workload.{reconcile_config_map, reconcile_service, reconcile_stateful_set}
use kubebird.Databases.{exec_in_pod, sysdba_password, reconcile_databases}
use kubebird.Schedule.Jobs.{reconcile_scheduled_backups}
use kubebird.Upgrade.{reconcile_major_upgrade, finish_major_upgrade}
use kubebird.Deletion.{reconcile_deletion, update_instance_with}

version_parsed : String → Option String → Action String
version_parsed output (some v) = pure v
version_parsed output none = raise (
    wrapped "failed to parse Firebird server version: "
      (failed ("no server version found in " <> quote output)) "")

-- Ask the server in the pod for its version, and label the pod with it.
unfoldable pub detect_version : Pod → Action String
unfolding version_parsed
detect_version pod = do
  password ← sysdba_password
  output ← wrap "failed to query Firebird server version: " (
      exec_in_pod pod.name
        ("fbsvcmgr" ∷ "localhost:service_mgr" ∷ "-user" ∷ sysdba_username ∷ "-password" ∷ password
          ∷ "-info_server_version" ∷ [])
        "")
  version ← version_parsed output (parse_server_version output)
  wrap "failed to label Firebird pod with its version: "
      (call (patch_pod pod.name (set_label firebird_version_label_key version pod.labels)))
  pure version

unfoldable pub reconcile_firebird_version : Action (Unit {0})
unfolding detect_version
reconcile_firebird_version = do
  i ← current
  pod ← wrap "failed to get Firebird pod: " (call (get_pod (firebird_pod_name i)))
  let known = label firebird_version_label_key pod.labels
  version ← (if known =? "" then detect_version pod else pure known)
  i' ← current
  if i'.status.firebird_version =? version
      then pure tt
      else do modify_status (λ st. record st { firebird_version = version }); write_status

-- sts.Status.ReadyReplicas > 0 && len(status.databases) >= len(spec.databases)
unfoldable pub is_ready : StatefulSet → Instance → Bool
is_ready sts i =
    ltb 0 sts.ready_replicas && leb (length i.spec.databases) (length i.status.databases)

unfoldable pub report_ready : Action (Unit {0})
report_ready = do
  finish_major_upgrade
  set_phase phase_ready
  set_available true "StatefulSetReady" "Firebird instance is ready"

unfoldable pub report_waiting : Action (Unit {0})
report_waiting = do
  i ← current
  set_phase (if is_none i.status.upgrade then phase_provisioning else phase_upgrading)
  set_available false "StatefulSetNotReady" "Waiting for the Firebird StatefulSet to become ready"

unfoldable pub reconcile_running : StatefulSet → Action (Unit {0})
reconcile_running sts =
    if ltb 0 sts.ready_replicas
    then (do reconcile_scheduled_backups; reconcile_firebird_version)
    else pure tt

-- What follows where no upgrade has taken over.
unfoldable pub reconcile_objects : Action (Unit {0})
unfolding is_ready report_ready report_waiting reconcile_running reconcile_firebird_version
reconcile_objects = do
  reconcile_config_map
  reconcile_service
  reconcile_pvcs
  sts ← reconcile_stateful_set
  reconcile_databases sts
  reconcile_running sts
  i ← current
  if is_ready sts i then report_ready else report_waiting

unfoldable pub reconcile_instance : Action (Unit {0})
unfolding reconcile_objects
reconcile_instance = do
  reconcile_sysdba_secret
  handled ← reconcile_major_upgrade
  if handled then pure tt else reconcile_objects

-- ctrl.Result: whether the request comes back after waitRequeueInterval.
pub data Outcome : Type 0 where
  settled requeue_after_wait : Outcome

abbrev pub error_of {ℓ} : {A : Type ℓ} → Result A → Option Error
error_of (ok a) = none
error_of (err e) = some e

abbrev pub wait_of : Option Error → Option String
wait_of none = none
wait_of (some e) = as_waiting e

-- What `Reconcile` makes of the error of reconcileInstance.
unfoldable pub conclude : Result (Unit {0}) → Action Outcome
conclude r = elim (wait_of (error_of r)) [
  | some message ↦ (do set_progress message; pure requeue_after_wait)
  | none ↦ (do set_error (error_of r); accept r; pure settled)
]

unfoldable pub ensure_finalizer : Action (Unit {0})
unfolding update_instance_with
ensure_finalizer = do
  i ← current
  contains ← asks (λ env. env.contains_finalizer)
  add ← asks (λ env. env.add_finalizer)
  if contains i finalizer_name
      then pure tt
      else update_instance_with (add i finalizer_name) "failed to add finalizer: "

unfoldable pub reconcile_live : Action Outcome
unfolding conclude ensure_finalizer
reconcile_live = do ensure_finalizer; r ← catch reconcile_instance; conclude r

instance_got : Reply Instance → Action Outcome
unfolding reconcile_live
instance_got (fault (not_found m)) = pure settled
instance_got (fault f) = raise (wrapped "failed to get Instance: " (external f) "")
instance_got (done i) = do
  become i
  if i.deleting then (do reconcile_deletion; pure settled) else reconcile_live

unfoldable pub reconcile : String → Action Outcome
unfolding instance_got
reconcile name = do r ← ask (get_instance name); instance_got r
