-- ===== src/Storage/Keeps.antt =====
-- Making the volumes, and labelling objects with the version, keeps every stable invariant.
use kubebird.Prelude.{String, Option, none, some, refl}
use kubebird.Api.{Instance, StorageVolumeSpec}
use kubebird.Naming.{Labels}
use kubebird.Kube.Objects.{Pvc}
use kubebird.Kube.Calls.{
  Env, Reply, done, fault, not_found, get_pvc, create_pvc, patch_pvc, delete_pvc,
}
use kubebird.Kube.Calls
use kubebird.Kube.Action.{Action, State, ask, current}
use kubebird.Kube.Rules.{Keeps, Keeps-bind, Keeps-then, Keeps-current, Keeps-wrap, keeps_rules}
use kubebird.Kube.Stable.{IsStable, ask-Keeps, call-Keeps}
use kubebird.Storage.{
  sync_firebird_version_label, pvc_got, reconcile_pvc, reconcile_backup_pvc, reconcile_shadow_pvc,
  reconcile_pvcs, unless_missing, delete_volume, release_primary_and_shadow_storage,
}
use kubebird.Status.Keeps.{set_deletion_message-Keeps}

module _ {env : Env} {J : State → Type 0} where
  pub sync_firebird_version_label-Keeps :
      (patch : Labels → Action (Unit {0})) (labels : Labels)
      → ((l : Labels) → Keeps env J (patch l))
      → Keeps env J (sync_firebird_version_label patch labels)
  unfolding sync_firebird_version_label
  sync_firebird_version_label-Keeps patch labels h = search keeps_rules

  pub unless_missing-Keeps :
      (text : String) (r : Reply (Unit {0})) → Keeps env J (unless_missing text r)
  unfolding unless_missing
  unless_missing-Keeps text (done x) = search keeps_rules
  unless_missing-Keeps text (fault (not_found m)) = search keeps_rules
  unless_missing-Keeps text (fault (Calls.exit_code c m)) = search keeps_rules
  unless_missing-Keeps text (fault (Calls.other m)) = search keeps_rules

module _ {env : Env} {J : State → Type 0} (st : IsStable env J) where
  pvc_got-Keeps :
      (name : String) (vol : StorageVolumeSpec) (r : Reply Pvc) → Keeps env J (pvc_got name vol r)
  unfolding pvc_got
  pvc_got-Keeps name vol (done p) =
      Keeps-wrap _ _
        (sync_firebird_version_label-Keeps _ p.labels λ l. call-Keeps st (patch_pvc name l) refl)
  pvc_got-Keeps name vol (fault (not_found m)) =
      search (keeps_rules, λ (p : Pvc). call-Keeps st (create_pvc p) refl)
  pvc_got-Keeps name vol (fault (Calls.exit_code c m)) = search keeps_rules
  pvc_got-Keeps name vol (fault (Calls.other m)) = search keeps_rules

  reconcile_pvc-Keeps :
      (name : String) (vol : StorageVolumeSpec) → Keeps env J (reconcile_pvc name vol)
  unfolding reconcile_pvc
  reconcile_pvc-Keeps name vol =
      search (keeps_rules, ask-Keeps st (get_pvc name) refl, pvc_got-Keeps name vol)

  reconcile_backup_pvc-Keeps :
      (i : Instance) (vol : Option StorageVolumeSpec) → Keeps env J (reconcile_backup_pvc i vol)
  unfolding reconcile_backup_pvc
  reconcile_backup_pvc-Keeps i none = search keeps_rules
  reconcile_backup_pvc-Keeps i (some vol) = search (keeps_rules, reconcile_pvc-Keeps)

  reconcile_shadow_pvc-Keeps :
      (i : Instance) (vol : Option StorageVolumeSpec) → Keeps env J (reconcile_shadow_pvc i vol)
  unfolding reconcile_shadow_pvc
  reconcile_shadow_pvc-Keeps i none = search keeps_rules
  reconcile_shadow_pvc-Keeps i (some vol) = search (keeps_rules, reconcile_pvc-Keeps)

  pub reconcile_pvcs-Keeps : Keeps env J reconcile_pvcs
  unfolding reconcile_pvcs
  reconcile_pvcs-Keeps =
      search
        (keeps_rules, reconcile_pvc-Keeps, reconcile_backup_pvc-Keeps, reconcile_shadow_pvc-Keeps)
        depth 8

module _ {env : Env} {J : State → Type 0} (st : IsStable env J)
    (deleted : (name : String) → Keeps env J (ask (delete_pvc name))) where
  delete_volume-Keeps : (name : String) → Keeps env J (delete_volume name)
  unfolding delete_volume
  delete_volume-Keeps name = Keeps-bind _ _ (deleted name) λ r. unless_missing-Keeps _ r

  pub release-Keeps : Keeps env J release_primary_and_shadow_storage
  unfolding release_primary_and_shadow_storage
  release-Keeps = Keeps-then _ _ (set_deletion_message-Keeps st _) (
      Keeps-bind current _ Keeps-current λ i.
        Keeps-then _ _ (delete_volume-Keeps _)
          (Keeps-bind current _ Keeps-current λ i'. search (keeps_rules, delete_volume-Keeps)))
