-- ===== src/Schedule/Jobs.antt =====
-- The CronJobs of the scheduled backups (reconcileScheduledBackups,
-- reconcileScheduledBackupCronJob and mutateScheduledBackupCronJob).
pub mod Keeps
pub mod Scheduled
pub mod Settled
use kubebird.Prelude.{
  ℕ, String, ◌<>◌, Bool, true, false, not, ◌||◌, none, some, List, [], ◌∷◌, if◌then◌else◌, is_none,
}
use kubebird.Prelude.Text.{quote}
use kubebird.Api.{Instance}
use kubebird.Naming.{
  labels_for_instance, with_firebird_version_label, firebird_pod_selector, firebird_pod_name,
  backup_pvc_name, backup_image, backup_volume_spec, backup_volume_name, backup_data_mount_path,
  container_name, sysdba_secret_ref_name,
}
use kubebird.Kube.Objects.{CronJob, secret_key}
use kubebird.Kube.Calls.{
  Reply, done, fault, not_found, get_cron_job, delete_cron_job, read_cron_job, write_cron_job,
  set_controller_reference,
}
use kubebird.Kube.Action.{
  Action, external, wrapped, pure, raise, ◌>>=◌, ◌>>◌, wrap, ask, call, current,
}
use kubebird.Backup.{plain_mount, claim_volume}
use kubebird.Storage.{unless_missing}
use kubebird.Databases.{exec_in_pod}
use kubebird.Schedule.{
  Frequency, frequency_name, frequency_schedule, frequency_retention, is_enabled,
  backup_frequencies,
}
use kubebird.Schedule.Script.{scheduled_backup_script, scheduled_backup_dir}

unfoldable pub scheduled_backup_cron_job_name : Instance → String → String
scheduled_backup_cron_job_name i frequency = i.name <> ("-backup-" <> frequency)

unfoldable pub wanted_cron_job : Instance → Frequency → CronJob → CronJob
unfolding with_firebird_version_label labels_for_instance
wanted_cron_job i freq job = record job {
  labels = with_firebird_version_label i (labels_for_instance i.name);
  schedule = frequency_schedule freq;
  concurrency_policy = "Forbid";
  successful_history = 1;
  failed_history = 3;
  job_labels = with_firebird_version_label i (labels_for_instance i.name);
  pod_labels = with_firebird_version_label i (labels_for_instance i.name);
  backoff_limit = 0;
  active_deadline_seconds = 21600;
  restart_policy = "Never";
  affinity_labels = firebird_pod_selector i.name;
  topology_key = "kubernetes.io/hostname";
  volumes = claim_volume backup_volume_name (backup_pvc_name i) ∷ [];
  containers =
      record {
        name = container_name;
        image = backup_image i;
        allow_privilege_escalation = false;
        seccomp_profile = "RuntimeDefault";
        command = "sh" ∷ "-c" ∷ scheduled_backup_script i freq ∷ [];
        ports = [];
        variables =
            record {
              name = "SYSDBA_PASSWORD";
              source = secret_key (sysdba_secret_ref_name i) "password";
            }
            ∷ [];
        mounts = plain_mount backup_volume_name backup_data_mount_path ∷ [];
      }
      ∷ [];
  owner = some i.name;
}

-- Whether the CronJob is there.
cron_job_got : String → Reply CronJob → Action Bool
cron_job_got name (done job) = pure true
cron_job_got name (fault (not_found m)) = pure false
cron_job_got name (fault f) =
    raise (wrapped ("failed to get backup CronJob " <> (quote name <> ": ")) (external f) "")

-- mkdir of the frequency's directory in the pod, before the CronJob is first made.
prepare_directory : Instance → Frequency → Action (Unit {0})
prepare_directory i freq = do
  let dir = scheduled_backup_dir (frequency_name freq)
  wrap ("failed to create backup directory " <> (quote dir <> ": "))
      (exec_in_pod (firebird_pod_name i) ("mkdir" ∷ "-p" ∷ dir ∷ []) "")
  pure tt

unfoldable pub reconcile_scheduled_backup_cron_job : Frequency → Action (Unit {0})
unfolding cron_job_got prepare_directory
reconcile_scheduled_backup_cron_job freq = do
  i ← current
  let name = scheduled_backup_cron_job_name i (frequency_name freq)
  r ← ask (get_cron_job name)
  exists ← cron_job_got name r
  if exists then pure tt else prepare_directory i freq
  wrap ("failed to reconcile backup CronJob " <> (quote name <> ": ")) (do
    job ← call (read_cron_job name)
    call (set_controller_reference name)
    call (write_cron_job (wanted_cron_job i freq job)))

unfoldable pub is_scheduled : Instance → Frequency → Bool
is_scheduled i freq =
    not (is_none (backup_volume_spec i) || not (is_enabled (frequency_retention i freq)))

unfoldable pub remove_cron_job : Instance → Frequency → Action (Unit {0})
remove_cron_job i freq = do
  let name = scheduled_backup_cron_job_name i (frequency_name freq)
  r ← ask (delete_cron_job name)
  unless_missing ("failed to delete backup CronJob " <> (quote name <> ": ")) r

unfoldable pub reconcile_frequency : Frequency → Action (Unit {0})
unfolding is_scheduled
reconcile_frequency freq = do
  i ← current
  if is_scheduled i freq
      then wrap ("failed to reconcile " <> (frequency_name freq <> " backup CronJob: "))
          (reconcile_scheduled_backup_cron_job freq)
      else remove_cron_job i freq

unfoldable pub reconcile_frequencies : List Frequency → Action (Unit {0})
reconcile_frequencies [] = pure tt
reconcile_frequencies (freq ∷ freqs) = reconcile_frequency freq >> reconcile_frequencies freqs

unfoldable pub reconcile_scheduled_backups : Action (Unit {0})
unfolding reconcile_frequencies reconcile_frequency remove_cron_job
reconcile_scheduled_backups = reconcile_frequencies backup_frequencies
