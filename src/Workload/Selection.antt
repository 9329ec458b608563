-- ===== src/Workload/Selection.antt =====
-- Which pods the Service of an Instance sends its clients to.
use kubebird.Prelude.{String, true, false, ◌≡◌}
use kubebird.Api.{Instance}
use kubebird.Naming.Selection.{selects, firebird_pod_selector-selects, labels_for_instance-selects}
use kubebird.Kube.Objects.{Service, StatefulSet, CronJob}
use kubebird.Backup.{database_backup_pod}
use kubebird.Workload.{wanted_service, wanted_stateful_set}
use kubebird.Schedule.{Frequency}
use kubebird.Schedule.Jobs.{wanted_cron_job}

-- The Service that is written selects the pod template of the StatefulSet that is written, and
-- neither the pod of the offline backup nor the pods of a scheduled backup, whatever the objects
-- were before.
pub wanted_service-selects :
    (i : Instance) (hash version : String) (freq : Frequency) (svc : Service) (sts : StatefulSet)
    (job : CronJob)
    → (selects (wanted_service i svc).selector (wanted_stateful_set i hash sts).template_labels
        ≡ true)
      × (selects (wanted_service i svc).selector (database_backup_pod i version).labels ≡ false)
      × (selects (wanted_service i svc).selector (wanted_cron_job i freq job).pod_labels ≡ false)
unfolding wanted_service wanted_stateful_set database_backup_pod wanted_cron_job
wanted_service-selects i hash version freq svc sts job = (
  firebird_pod_selector-selects i.name,
  labels_for_instance-selects i,
  labels_for_instance-selects i,
)
