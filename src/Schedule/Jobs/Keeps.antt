-- ===== src/Schedule/Jobs/Keeps.antt =====
-- Reconciling the CronJobs keeps every stable invariant.
use kubebird.Prelude.{String, List, [], ◌∷◌, refl}
use kubebird.Api.{Instance}
use kubebird.Kube.Objects.{CronJob}
use kubebird.Kube.Calls.{
  Env, Reply, done, fault, not_found, get_cron_job, delete_cron_job, read_cron_job, write_cron_job,
  set_controller_reference,
}
use kubebird.Kube.Calls
use kubebird.Kube.Action.{State, call, ask}
use kubebird.Kube.Rules.{Keeps, Keeps-bind, Keeps-pure, keeps_rules}
use kubebird.Kube.Stable.{IsQuiet, ask-quiet, call-quiet}
use kubebird.Storage.Keeps.{unless_missing-Keeps}
use kubebird.Databases.Keeps.{exec_in_pod-Keeps}
use kubebird.Schedule.{Frequency, backup_frequencies}
use kubebird.Schedule.Jobs.{
  cron_job_got, prepare_directory, reconcile_scheduled_backup_cron_job, remove_cron_job,
  reconcile_frequency, reconcile_frequencies, reconcile_scheduled_backups,
}

module _ {env : Env} {J : State → Type 0} (q : IsQuiet env J) where
  cron_job_got-Keeps : (name : String) (r : Reply CronJob) → Keeps env J (cron_job_got name r)
  unfolding cron_job_got
  cron_job_got-Keeps name (done x) = search keeps_rules
  cron_job_got-Keeps name (fault (not_found m)) = search keeps_rules
  cron_job_got-Keeps name (fault (Calls.exit_code c m)) = search keeps_rules
  cron_job_got-Keeps name (fault (Calls.other m)) = search keeps_rules

  prepare_directory-Keeps :
      (i : Instance) (freq : Frequency) → Keeps env J (prepare_directory i freq)
  unfolding prepare_directory
  prepare_directory-Keeps i freq = search (keeps_rules, exec_in_pod-Keeps q)

  own-Keeps : (name : String) → Keeps env J (call (set_controller_reference name))
  own-Keeps name = call-quiet q (set_controller_reference name) refl

  get_cron_job-Keeps : (name : String) → Keeps env J (ask (get_cron_job name))
  get_cron_job-Keeps name = ask-quiet q (get_cron_job name) refl

  read_cron_job-Keeps : (name : String) → Keeps env J (call (read_cron_job name))
  read_cron_job-Keeps name = call-quiet q (read_cron_job name) refl

  write_cron_job-Keeps : (x : CronJob) → Keeps env J (call (write_cron_job x))
  write_cron_job-Keeps x = call-quiet q (write_cron_job x) refl

  delete_cron_job-Keeps : (name : String) → Keeps env J (ask (delete_cron_job name))
  delete_cron_job-Keeps name = ask-quiet q (delete_cron_job name) refl

  reconcile_scheduled_backup_cron_job-Keeps :
      (freq : Frequency) → Keeps env J (reconcile_scheduled_backup_cron_job freq)
  unfolding reconcile_scheduled_backup_cron_job
  reconcile_scheduled_backup_cron_job-Keeps freq =
      search
        (
          keeps_rules, own-Keeps, get_cron_job-Keeps, read_cron_job-Keeps, write_cron_job-Keeps,
          cron_job_got-Keeps, prepare_directory-Keeps,
        )
        depth 12

  remove_cron_job-Keeps : (i : Instance) (freq : Frequency) → Keeps env J (remove_cron_job i freq)
  unfolding remove_cron_job
  remove_cron_job-Keeps i freq = search (keeps_rules, delete_cron_job-Keeps, unless_missing-Keeps)

  reconcile_frequency-Keeps : (freq : Frequency) → Keeps env J (reconcile_frequency freq)
  unfolding reconcile_frequency
  reconcile_frequency-Keeps freq =
      search (keeps_rules, reconcile_scheduled_backup_cron_job-Keeps, remove_cron_job-Keeps) depth 8

  reconcile_frequencies-Keeps : (freqs : List Frequency) → Keeps env J (reconcile_frequencies freqs)
  unfolding reconcile_frequencies
  reconcile_frequencies-Keeps [] = Keeps-pure tt
  reconcile_frequencies-Keeps (f ∷ fs) =
      Keeps-bind (reconcile_frequency f) (λ _. reconcile_frequencies fs)
        (reconcile_frequency-Keeps f) (λ _. reconcile_frequencies-Keeps fs)

  pub reconcile_scheduled_backups-Keeps : Keeps env J reconcile_scheduled_backups
  unfolding reconcile_scheduled_backups
  reconcile_scheduled_backups-Keeps = reconcile_frequencies-Keeps backup_frequencies
