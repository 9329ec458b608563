-- ===== src/Deletion/Needed.antt =====
-- Which Instances get a final backup when they are deleted, as the fields of their spec and status say.
use kubebird.Prelude.{Bool, true, false, ◌≡◌, refl, Option, none, some}
use kubebird.Api.{Instance, UpgradeStatus, UpgradeStage, backing_up, releasing, restoring}
use kubebird.Naming.{backup_on_delete}
use kubebird.Naming.Destinations.{HasLocal, backup_volume_spec-HasLocal}
use kubebird.Deletion.{backed_up, needs_final_backup}

-- Backups are enabled with a local destination, backupOnDelete is not set to false, and an upgrade,
-- if there is one, is still at BackingUp.
pub record NeedsBackup (i : Instance) : Type 0 where
  pub enabled : i.spec.backup.enabled ≡ true
  pub has_local : HasLocal i.spec.backup.destinations
  pub undeclined : i.spec.backup.backup_on_delete ≡ some false → ⊥
  pub unsaved : (u : UpgradeStatus) → i.status.upgrade ≡ some u → u.stage ≡ backing_up

wanted : (b : Option Bool) → (b ≡ some false → ⊥) → elim b [ none ↦ true | some x ↦ x ] ≡ true
wanted none h = refl
wanted (some true) h = refl
wanted (some false) h = absurd (h refl)

staged :
    (stage : UpgradeStage)
    → stage ≡ backing_up
    → elim stage [ backing_up ↦ false | _ ↦ true ] ≡ false
staged backing_up e = refl
staged releasing e = cc
staged restoring e = cc

not_backed_up :
    (v : Option UpgradeStatus)
    → ((u : UpgradeStatus) → v ≡ some u → u.stage ≡ backing_up)
    → backed_up v ≡ false
unfolding backed_up
not_backed_up none h = refl
not_backed_up (some u) h = staged u.stage (h u refl)

-- Such an Instance gets a final backup.
pub needs_final_backup-NeedsBackup : (i : Instance) → NeedsBackup i → needs_final_backup i ≡ true
unfolding needs_final_backup backup_on_delete
needs_final_backup-NeedsBackup i needs =
    rw
      (
        backup_volume_spec-HasLocal i needs.enabled needs.has_local,
        wanted i.spec.backup.backup_on_delete needs.undeclined,
        not_backed_up i.status.upgrade needs.unsaved,
      )
      refl
