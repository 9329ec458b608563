-- ===== src/Reconcile/Keeps.antt =====
-- Reconciling a live Instance keeps every stable invariant that the steps of an upgrade keep.
use kubebird.Prelude.{String, Option, none, some, refl}
use kubebird.Naming.{Labels}
use kubebird.Kube.Objects.{StatefulSet, Pod}
use kubebird.Kube.Calls.{Env, get_pod, patch_pod}
use kubebird.Kube.Action.{
  State, Result, ok, err, pure, ◌>>◌, accept, call, modify_status, write_status,
}
use kubebird.Kube.Rules.{
  Keeps, Keeps-bind, Keeps-then, Keeps-pure, Keeps-raise, Keeps-wrap, Keeps-current, keeps_rules,
}
use kubebird.Kube.Stable.{
  stable-IsQuiet, IsQuiet, IsStable, call-quiet, modify_status-Keeps, write_status-Keeps,
}
use kubebird.Status.{set_progress, set_error}
use kubebird.Status.Keeps.{
  set_phase-Keeps, set_available-Keeps, set_progress-Keeps, set_error-Keeps,
}
use kubebird.Storage.Keeps.{reconcile_pvcs-Keeps}
use kubebird.Secret.Keeps.{reconcile_sysdba_secret-Keeps}
use kubebird.Workload.Keeps.{
  reconcile_config_map-Keeps, reconcile_service-Keeps, reconcile_stateful_set-Keeps,
}
use kubebird.Databases.Keeps.{
  reconcile_databases-Keeps, exec_in_pod-Keeps, sysdba_password-Keeps, quiet-IsUndropping,
}
use kubebird.Schedule.Jobs.Keeps.{reconcile_scheduled_backups-Keeps}
use kubebird.Upgrade.{reconcile_major_upgrade, finish_major_upgrade}
use kubebird.Reconcile.{
  version_parsed, detect_version, reconcile_firebird_version, report_ready, report_waiting,
  reconcile_running, reconcile_objects, reconcile_instance, settled, requeue_after_wait, error_of,
  wait_of, conclude,
}

module _ {env : Env} {J : State → Type 0} (q : IsQuiet env J) where
  version_parsed-Keeps :
      (output : String) (v : Option String) → Keeps env J (version_parsed output v)
  unfolding version_parsed
  version_parsed-Keeps output none = Keeps-raise _
  version_parsed-Keeps output (some v) = Keeps-pure v

  patch_pod-Keeps : (name : String) (labels : Labels) → Keeps env J (call (patch_pod name labels))
  patch_pod-Keeps name labels = call-quiet q (patch_pod name labels) refl

  pub detect_version-Keeps : (pod : Pod) → Keeps env J (detect_version pod)
  unfolding detect_version
  detect_version-Keeps pod =
      Keeps-bind _ _ (sysdba_password-Keeps (quiet-IsUndropping q)) λ password.
        Keeps-bind _ _ (Keeps-wrap _ _ (exec_in_pod-Keeps q _ _ _)) λ output.
          Keeps-bind _ _ (version_parsed-Keeps output _)
            λ version. Keeps-bind _ _ (Keeps-wrap _ _ (patch_pod-Keeps _ _)) λ _. Keeps-pure version

  pub get_pod-Keeps : (name : String) → Keeps env J (call (get_pod name))
  get_pod-Keeps name = call-quiet q (get_pod name) refl

module _ {env : Env} {J : State → Type 0} (st : IsStable env J)
    (finish-Keeps : Keeps env J finish_major_upgrade) where
  set_version-Keeps :
      (version : String)
      → Keeps env J
          (do modify_status (λ st. record st { firebird_version = version }); write_status)
  set_version-Keeps version =
      Keeps-bind _ _ (modify_status-Keeps st _ λ x. refl) λ _. write_status-Keeps st

  reconcile_firebird_version-Keeps : Keeps env J reconcile_firebird_version
  unfolding reconcile_firebird_version
  reconcile_firebird_version-Keeps =
      search
        (
          keeps_rules,
          get_pod-Keeps (stable-IsQuiet st),
          detect_version-Keeps (stable-IsQuiet st),
          set_version-Keeps,
        )
        depth 12

  report_ready-Keeps : Keeps env J report_ready
  unfolding report_ready
  report_ready-Keeps =
      Keeps-then _ _ finish-Keeps
        (Keeps-then _ _ (set_phase-Keeps st _) (set_available-Keeps st _ _ _))

  report_waiting-Keeps : Keeps env J report_waiting
  unfolding report_waiting
  report_waiting-Keeps = search (keeps_rules, set_phase-Keeps st, set_available-Keeps st) depth 8

  reconcile_running-Keeps : (sts : StatefulSet) → Keeps env J (reconcile_running sts)
  unfolding reconcile_running
  reconcile_running-Keeps sts =
      search
        (
          keeps_rules,
          reconcile_scheduled_backups-Keeps (stable-IsQuiet st),
          reconcile_firebird_version-Keeps,
        )
        depth 8

  reconcile_objects-Keeps : Keeps env J reconcile_objects
  unfolding reconcile_objects
  reconcile_objects-Keeps = Keeps-then _ _ (reconcile_config_map-Keeps st) (
      Keeps-then _ _ (reconcile_service-Keeps st) (
        Keeps-then _ _ (reconcile_pvcs-Keeps st) (
          Keeps-bind _ _ (reconcile_stateful_set-Keeps st) λ sts.
            Keeps-then _ _ (reconcile_databases-Keeps st sts) (
              Keeps-then _ _ (reconcile_running-Keeps sts) (
                Keeps-bind _ _ Keeps-current
                  λ i. search (keeps_rules, report_ready-Keeps, report_waiting-Keeps))))))

  pub reconcile_instance-Keeps :
      Keeps env J reconcile_major_upgrade → Keeps env J reconcile_instance
  unfolding reconcile_instance
  reconcile_instance-Keeps upgrade =
      Keeps-then _ _ (reconcile_sysdba_secret-Keeps st)
        (Keeps-bind _ _ upgrade λ handled. search (keeps_rules, reconcile_objects-Keeps))

module _ {env : Env} {J : State → Type 0} (st : IsStable env J) where
  accept-Keeps : (r : Result (Unit {0})) → Keeps env J (accept r)
  accept-Keeps (ok a) = Keeps-pure a
  accept-Keeps (err e) = Keeps-raise e

  pub conclude-Keeps : (r : Result (Unit {0})) → Keeps env J (conclude r)
  unfolding conclude
  conclude-Keeps r = by_wait (wait_of (error_of r))
    where
      by_wait :
          (w : Option String)
          → Keeps env J (elim w [
            | some message ↦ (do set_progress message; pure requeue_after_wait)
            | none ↦ (do set_error (error_of r); accept r; pure settled)
          ])
      by_wait (some message) = Keeps-then _ _ (set_progress-Keeps st _) (Keeps-pure _)
      by_wait none =
          Keeps-then _ _ (set_error-Keeps st _) (Keeps-then _ _ (accept-Keeps r) (Keeps-pure _))
