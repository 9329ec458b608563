-- ===== src/Workload/Wiring.antt =====
-- How the containers that the controller asks for mount their volumes.
use kubebird.Prelude.{
  String, Bool, true, not, ◌&&◌, ◌≡◌, List, [], ◌∷◌, All, map, is_none, Bool-cases, arith, inl, inr,
}
use kubebird.Prelude.Text.{contains}
use kubebird.Api.{Instance}
use kubebird.Naming.{backup_volume_spec}
use kubebird.Kube.Objects.{VolumeMount, Volume, Container, StatefulSet, CronJob}
use kubebird.Backup.{database_backup_pod}
use kubebird.Workload.{
  wanted_stateful_set, firebird_container, security_init_container, volume_mounts, set_volumes,
}
use kubebird.Schedule.{Frequency}
use kubebird.Schedule.Jobs.{wanted_cron_job}

abbrev pub volume_names : List Volume → List String
volume_names = map (λ v. v.name)

-- No name stands twice.
abbrev pub distinct : List String → Bool
distinct [] = true
distinct (x ∷ xs) = not (contains xs x) && distinct xs

-- The mount is of one of the volumes.
abbrev pub IsMountOf : List Volume → VolumeMount → Type 0
IsMountOf volumes m = contains (volume_names volumes) m.name ≡ true

-- The volumes have different names, and the containers mount no others, each at a path of its own.
abbrev pub AreWired : List Volume → List Container → Type 0
AreWired volumes containers =
    (distinct (volume_names volumes) ≡ true)
    × All
        (λ (c : Container).
          All (IsMountOf volumes) c.mounts
          × (distinct (map (λ (m : VolumeMount). m.mount_path) c.mounts) ≡ true))
        containers

-- In the StatefulSet (its Firebird container and its init container), in the Pod of the offline
-- backup and in the CronJobs, as they are written, the volumes have different names, each mount of a
-- container is of one of them, and no two mounts of a container have the same path.
pub wanted-AreWired :
    (i : Instance) (hash version : String) (freq : Frequency) (sts : StatefulSet) (job : CronJob)
    → AreWired (wanted_stateful_set i hash sts).volumes (wanted_stateful_set i hash sts).containers
      × AreWired
          (wanted_stateful_set i hash sts).volumes
          (wanted_stateful_set i hash sts).init_containers
      × AreWired (database_backup_pod i version).volumes (database_backup_pod i version).containers
      × AreWired (wanted_cron_job i freq job).volumes (wanted_cron_job i freq job).containers
unfolding wanted_stateful_set database_backup_pod wanted_cron_job firebird_container
    security_init_container volume_mounts set_volumes contains
wanted-AreWired i hash version freq sts job = elim (Bool-cases (is_none (backup_volume_spec i))) [
  | inl b ↦ elim (Bool-cases (is_none i.spec.storage.shadow)) [
    | inl s ↦ rw (b, s) (ground arith)
    | inr s ↦ rw (b, s) (ground arith)
  ]
  | inr b ↦ elim (Bool-cases (is_none i.spec.storage.shadow)) [
    | inl s ↦ rw (b, s) (ground arith)
    | inr s ↦ rw (b, s) (ground arith)
  ]
]
