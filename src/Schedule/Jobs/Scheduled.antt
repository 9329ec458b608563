-- ===== src/Schedule/Jobs/Scheduled.antt =====
-- Which frequencies of an Instance are scheduled.
use kubebird.Prelude.{Bool, true, false, not, ◌||◌, ◌≡◌, refl, ◌<◌, arith, is_none}
use kubebird.Api.{Instance}
use kubebird.Naming.{backup_volume_spec}
use kubebird.Naming.Destinations.{
  HasLocal, backup_volume_spec-HasLocal, HasLocal-backup_volume_spec,
}
use kubebird.Schedule.{Frequency, is_enabled, frequency_retention}
use kubebird.Schedule.Jobs.{is_scheduled}

-- Backups are enabled with a local destination, and the frequency retains some of them.
pub record IsScheduled (i : Instance) (freq : Frequency) : Type 0 where
  pub enabled : i.spec.backup.enabled ≡ true
  pub has_local : HasLocal i.spec.backup.destinations
  pub retained : 0 < (frequency_retention i freq).amount

pub is_scheduled-IsScheduled :
    (i : Instance) (freq : Frequency) → IsScheduled i freq → is_scheduled i freq ≡ true
unfolding is_scheduled
is_scheduled-IsScheduled i freq h =
    rw (backup_volume_spec-HasLocal i h.enabled h.has_local) (ground (arith, h.retained))

pub IsScheduled-is_scheduled :
    (i : Instance) (freq : Frequency) → is_scheduled i freq ≡ true → IsScheduled i freq
unfolding is_scheduled
IsScheduled-is_scheduled i freq h =
    let (missing, kept) =
      both (is_none (backup_volume_spec i)) (is_enabled (frequency_retention i freq)) h in
    let (on, local) = HasLocal-backup_volume_spec i missing in
    record { enabled = on; has_local = local; retained = ground (arith, kept) }
  where
    both : (a b : Bool) → not (a || not b) ≡ true → (a ≡ false) × (b ≡ true)
    both true b h = cc
    both false true h = (refl, refl)
    both false false h = cc
