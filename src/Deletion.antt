-- ===== src/Deletion.antt =====
-- The deletion of an Instance (reconcileDeletion of internal/controller/instance_controller.go).
pub mod Needed
pub mod Ordered
use kubebird.Prelude.{
  String, ◌<>◌, Bool, true, false, not, ◌&&◌, ◌||◌, Option, none, some, List, [], ◌∷◌, ◌=?◌,
  if◌then◌else◌, is_none, keep_if,
}
use kubebird.Api.{Instance, UpgradeStatus, UpgradeStage, backing_up, releasing, restoring}
use kubebird.Naming.{finalizer_name, backup_volume_spec, backup_on_delete}
use kubebird.Kube.Calls.{update_instance}
use kubebird.Kube.Action.{Action, pure, ◌>>=◌, ◌>>◌, wrap, call, current, become, asks}
use kubebird.Status.{phase_deleting, set_phase, set_deletion_message}
use kubebird.Storage.{release_primary_and_shadow_storage}
use kubebird.Backup.{backup_databases}

-- The upgrade, if any, is past BackingUp.
unfoldable pub backed_up : Option UpgradeStatus → Bool
backed_up none = false
backed_up (some u) = elim u.stage [ backing_up ↦ false | _ ↦ true ]

-- The version that wrote the databases.
unfoldable pub databases_version : Instance → Option UpgradeStatus → String
databases_version i none = i.spec.version
databases_version i (some u) = u.from_version

unfoldable pub needs_final_backup : Instance → Bool
unfolding backed_up
needs_final_backup i =
    not (is_none (backup_volume_spec i)) && backup_on_delete i && not (backed_up i.status.upgrade)

-- r.Update(ctx, instance): the server's answer is decoded into the Instance.
unfoldable pub update_instance_with : Instance → String → Action (Unit {0})
update_instance_with i text = do become i; i' ← wrap text (call (update_instance i)); become i'

unfoldable pub back_up_if_needed : Action (Unit {0})
unfolding needs_final_backup databases_version
back_up_if_needed = do
  i ← current
  if needs_final_backup i then backup_databases (databases_version i i.status.upgrade) else pure tt

unfoldable pub remove_finalizer : Action (Unit {0})
unfolding update_instance_with
remove_finalizer = do
  set_deletion_message "Removing finalizer"
  i ← current
  remove ← asks (λ env. env.remove_finalizer)
  update_instance_with (remove i finalizer_name) "failed to remove finalizer: "

unfoldable pub reconcile_deletion : Action (Unit {0})
unfolding back_up_if_needed remove_finalizer
reconcile_deletion = do
  i ← current
  contains ← asks (λ env. env.contains_finalizer)
  if not (contains i finalizer_name) then pure tt else do
    wrap "failed to report Deleting phase: " (set_phase phase_deleting)
    set_deletion_message "Deleting Instance"
    back_up_if_needed
    release_primary_and_shadow_storage
    remove_finalizer
