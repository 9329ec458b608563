-- ===== src/Storage.antt =====
-- The volumes of an Instance (internal/controller/instance_resources.go, and
-- releasePrimaryAndShadowStorage of instance_controller.go) and the version label on them
-- (syncFirebirdVersionLabel of instance_version.go).
pub mod Keeps
pub mod Claimed
use kubebird.Prelude.{
  String, ◌<>◌, Bool, true, false, not, ◌||◌, Option, none, some, List, [], ◌∷◌, ◌=?◌,
  if◌then◌else◌, is_none,
}
use kubebird.Prelude.Text.{quote}
use kubebird.Api.{Instance, StorageVolumeSpec}
use kubebird.Naming.{
  Labels, label, set_label, labels_for_instance, with_firebird_version_label,
  firebird_version_label_key, primary_pvc_name, shadow_pvc_name, backup_pvc_name,
  backup_volume_spec,
}
use kubebird.Kube.Objects.{Pvc}
use kubebird.Kube.Calls.{
  Call, Reply, done, fault, not_found, get_pvc, create_pvc, delete_pvc, patch_pvc,
}
use kubebird.Kube.Action.{
  Action, external, wrapped, pure, raise, ◌>>=◌, ◌>>◌, wrap, ask, call, current,
}
use kubebird.Status.{set_deletion_message}

-- Patch the label, through `patch`, unless the version is unknown or the label has it already.
unfoldable pub sync_firebird_version_label :
    (Labels → Action (Unit {0})) → Labels → Action (Unit {0})
unfolding label set_label
sync_firebird_version_label patch labels = do
  i ← current
  let version = i.status.firebird_version
  if version =? "" || label firebird_version_label_key labels =? version
      then pure tt
      else patch (set_label firebird_version_label_key version labels)

-- The PVC that reconcilePVC creates.
unfoldable pub new_pvc : Instance → String → StorageVolumeSpec → Pvc
unfolding with_firebird_version_label labels_for_instance
new_pvc i name vol = record {
  name = name;
  labels = with_firebird_version_label i (labels_for_instance i.name);
  access_modes = "ReadWriteOnce" ∷ [];
  size = vol.size;
  storage_class = if vol.class =? "" then none else some vol.class;
}

pvc_got : String → StorageVolumeSpec → Reply Pvc → Action (Unit {0})
pvc_got name vol (done existing) =
    wrap ("failed to label PVC " <> (quote name <> " with the Firebird version: "))
      (sync_firebird_version_label (λ labels. call (patch_pvc name labels)) existing.labels)
pvc_got name vol (fault (not_found m)) = do
  i ← current
  wrap ("failed to create PVC " <> (quote name <> ": ")) (call (create_pvc (new_pvc i name vol)))
pvc_got name vol (fault f) =
    raise (wrapped ("failed to get PVC " <> (quote name <> ": ")) (external f) "")

unfoldable pub reconcile_pvc : String → StorageVolumeSpec → Action (Unit {0})
unfolding pvc_got
reconcile_pvc name vol = do r ← ask (get_pvc name); pvc_got name vol r

reconcile_backup_pvc : Instance → Option StorageVolumeSpec → Action (Unit {0})
reconcile_backup_pvc i none = pure tt
reconcile_backup_pvc i (some vol) =
    wrap "failed to reconcile backup PVC: " (reconcile_pvc (backup_pvc_name i) vol)

reconcile_shadow_pvc : Instance → Option StorageVolumeSpec → Action (Unit {0})
reconcile_shadow_pvc i none = pure tt
reconcile_shadow_pvc i (some vol) =
    wrap "failed to reconcile shadow PVC: " (reconcile_pvc (shadow_pvc_name i) vol)

unfoldable pub reconcile_pvcs : Action (Unit {0})
unfolding reconcile_backup_pvc reconcile_shadow_pvc
reconcile_pvcs = do
  i ← current
  wrap "failed to reconcile primary PVC: "
      (reconcile_pvc (primary_pvc_name i) i.spec.storage.primary)
  reconcile_backup_pvc i (backup_volume_spec i)
  reconcile_shadow_pvc i i.spec.storage.shadow

-- A deletion that takes a missing object for deleted.
unfoldable pub unless_missing : String → Reply (Unit {0}) → Action (Unit {0})
unless_missing text (done _) = pure tt
unless_missing text (fault (not_found m)) = pure tt
unless_missing text (fault f) = raise (wrapped text (external f) "")

unfoldable pub delete_volume : String → Action (Unit {0})
unfolding unless_missing
delete_volume name = do
  r ← ask (delete_pvc name)
  unless_missing ("failed to delete PVC " <> (quote name <> ": ")) r

unfoldable pub release_primary_and_shadow_storage : Action (Unit {0})
release_primary_and_shadow_storage = do
  set_deletion_message "Releasing primary and shadow storage"
  i ← current
  delete_volume (primary_pvc_name i)
  i' ← current
  if is_none i'.spec.storage.shadow then pure tt else delete_volume (shadow_pvc_name i')
