-- ===== src/Tests.antt =====
-- The properties at work: the reconciler of an Instance `shop` against the server of Tests/Server.antt.
mod Server
mod Upgrading
mod Stopped
mod Listing
mod Volumes
mod Secrets
use kubebird.Prelude.{
  ℕ, String, Bool, true, false, ◌≡◌, refl, sym, ap, arith, ◌<>◌, Option, none, some, List, [], ◌∷◌,
  pos, ◌==◌,
}
use kubebird.Workload.{reconcile_config_map, reconcile_service, reconcile_stateful_set}
use kubebird.Storage.{reconcile_pvcs, reconcile_pvc, unless_missing}
use kubebird.Kube.Action.{asks, set_condition}
use kubebird.Databases.{drop_database}
use kubebird.Schedule.Jobs.{reconcile_scheduled_backups, reconcile_scheduled_backup_cron_job}
use kubebird.Schedule.{frequency_retention}
use kubebird.Upgrade.{finish_major_upgrade}
use kubebird.Status.{set_phase, set_available}
use kubebird.Naming.{backup_file_name, label}
use kubebird.Naming.{backup_volume_spec}
use kubebird.Kube.Objects.{StatefulSet, Service, CronJob}
use kubebird.Kube.Action.{
  State, Result, ok, err, waiting, Action, ◌>>=◌, current, ask, pure, wrap, catch, modify_status,
  write_status, as_waiting, call,
}
use kubebird.Prelude.Text.{contains, show}
use kubebird.Status.{set_progress}
use kubebird.Version.{firebird_major_version, stateful_set_firebird_version}
use kubebird.Deletion.{needs_final_backup, reconcile_deletion}
use kubebird.Deletion.Needed.{NeedsBackup}
use kubebird.Deletion.Ordered.{InOrder, reconcile_deletion-InOrder}
use kubebird.Upgrade.{reconcile_major_upgrade, start_major_upgrade}
use kubebird.Upgrade.Guard.{IsGuarded}
use kubebird.Upgrade.Ordered.{reconcile_major_upgrade-IsGuarded}
use kubebird.Upgrade.Started.{MayStart, first_stage, start_major_upgrade-MayStart}
use kubebird.Databases.{
  database_of_backup, database_names, reconcile_databases, sysdba_password, orphaned_backups,
  exec_in_pod, drop_database, provision_database, database_file_exists,
}
use kubebird.Databases.Files.{database_of_backup-backup_file_name}
use kubebird.Databases.Dropped.{SparesWanted, reconcile_databases-SparesWanted}
use kubebird.Databases.Recorded.{Matches, reconcile_databases-Matches}
use kubebird.Kube.Calls.{event, done, random_base64}
use kubebird.Secret.{begins_with_dash, generate_random_password}
use kubebird.Secret.Password.{
  generate_random_password-Draws, last, generate_random_password-begins_with_dash,
}
use kubebird.Reconcile.{
  reconcile_objects, reconcile_instance, reconcile, requeue_after_wait, error_of, wait_of, conclude,
}
use kubebird.Reconcile.BackupVolume.{SparesBackup, reconcile-SparesBackup}
use kubebird.Reconcile.Reported.{Reported, reconcile_objects-Reported}
use kubebird.Reconcile.Concluded.{Concluded, conclude-Concluded}
use kubebird.Naming.Selection.{selects}
use kubebird.Backup.{database_backup_pod}
use kubebird.Workload.{wanted_service, wanted_stateful_set}
use kubebird.Workload.Selection.{wanted_service-selects}
use kubebird.Schedule.{hour, hours, parse_retention}
use kubebird.Schedule.Retention.{letter, in_hours, parse_retention-show}
use kubebird.Schedule.Jobs.{wanted_cron_job}
use Upgrading.{
  upgrading_server, upgrading_server-IsHonest, upgrading_server-IsFaithful,
  upgrading_server-Persists,
}
use kubebird.Reconcile.Lasting.{reconciled, reconciled-IsGuarded}
use kubebird.Upgrade.Machine.{Follows, here}
use kubebird.Upgrade.Refines.{reconcile_instance-Follows}
use kubebird.Databases.Changed.{Settles, reconcile_databases-Settles}
use kubebird.Schedule.{backup_frequencies}
use kubebird.Schedule.Jobs.Settled.{HandledAll, reconcile_scheduled_backups-HandledAll}
use kubebird.Version.{after_last_colon, contains_slash}
use kubebird.Version.Tags.{firebird_major_version-show, start_major_upgrade-wanted}
use kubebird.Workload.Wiring.{AreWired, wanted-AreWired}
use kubebird.Prelude.{keep_if, ◌=?◌, ◌&&◌}
use kubebird.Prelude.Text.Words.{is_word}
use kubebird.Kube.Calls.{Reply}
use kubebird.Manager.{
  Step, main, default_flags, returned, exited, steps, manager_options, setup_cache_namespaces,
}
use kubebird.Manager.Started.{all_taken, NoneFailed, LastFailed, IsSecured, main-Starts}
use kubebird.Manager.Namespaces.{joined, setup_cache_namespaces-joined}
use kubebird.Watches.{Item, Request, request, secret_ref_index, find_instances_for_secret}
use kubebird.Watches.Requested.{IsIn, Reads, find_instances_for_secret-Reads}
use kubebird.Upgrade.Passed.Evidence.{Outcome}
use kubebird.Upgrade.Passed.{reconcile_major_upgrade-Passes}
use Stopped.{stopped_server, upgrade, upgrading_instance, stopped_server-Cooperates}
use kubebird.Api.{restoring}
use kubebird.Upgrade.Completes.{reconcile_major_upgrade-Completes}
use Server.{
  old_service, old_job, server, server-IsHonest, server-IsFaithful, start, server_set, instance_of,
}

reconcile-SparesBackup_example : SparesBackup "shop" (reconcile "shop" server start).1.log
reconcile-SparesBackup_example = reconcile-SparesBackup server-IsFaithful "shop" start tt

reconcile_deletion-InOrder_example :
    InOrder (NeedsBackup start.instance) "shop" (reconcile_deletion server start).1.log
reconcile_deletion-InOrder_example = reconcile_deletion-InOrder server-IsHonest start tt

reconcile_major_upgrade-IsGuarded_example :
    IsGuarded "shop" (reconcile_major_upgrade server start).1.log
reconcile_major_upgrade-IsGuarded_example =
    reconcile_major_upgrade-IsGuarded server-IsHonest start refl tt

abbrev recorded : State
recorded = (reconcile_databases (server_set "5.0.1") server start).1

databases_run : reconcile_databases (server_set "5.0.1") server start ≡ (ok tt, recorded)
unfolding reconcile_databases ◌>>=◌ current contains sysdba_password ask pure backup_volume_spec
    wrap orphaned_backups exec_in_pod drop_database provision_database database_file_exists catch
    modify_status write_status
databases_run = refl

reconcile_databases-Matches_example : Matches recorded.instance
reconcile_databases-Matches_example =
    reconcile_databases-Matches server-IsHonest (server_set "5.0.1") start recorded refl refl
      databases_run

abbrev upgrading : State
upgrading = (start_major_upgrade (server_set "4.0.2") server start).1

upgrade_run : start_major_upgrade (server_set "4.0.2") server start ≡ (ok true, upgrading)
unfolding start_major_upgrade ◌>>=◌ current firebird_major_version stateful_set_firebird_version
    backup_volume_spec modify_status wrap write_status pure
upgrade_run = refl

start_major_upgrade-MayStart_example :
    MayStart start.instance
      (firebird_major_version (stateful_set_firebird_version (server_set "4.0.2")))
      (firebird_major_version start.instance.spec.version)
    × (upgrading.instance.status.upgrade
        ≡ some (first_stage start.instance (stateful_set_firebird_version (server_set "4.0.2"))))
start_major_upgrade-MayStart_example =
    start_major_upgrade-MayStart server-IsHonest (server_set "4.0.2") start upgrading upgrade_run

abbrev stopping : Result (Unit {0})
stopping = err (waiting "stopping")

abbrev waited : State
waited = (conclude stopping server start).1

wait_run : conclude stopping server start ≡ (ok requeue_after_wait, waited)
unfolding conclude as_waiting ◌>>=◌ set_progress current modify_status wrap write_status pure
wait_run = refl

conclude-Concluded_example :
    Concluded (error_of stopping) (wait_of (error_of stopping)) requeue_after_wait waited
conclude-Concluded_example =
    conclude-Concluded server-IsHonest stopping requeue_after_wait start waited wait_run

password_run :
    generate_random_password 64 server start
    ≡ (ok "Zm9v", (generate_random_password 64 server start).1)
unfolding generate_random_password ◌>>=◌ call
password_run = refl

generate_random_password-begins_with_dash_example : begins_with_dash "Zm9v" ≡ false
generate_random_password-begins_with_dash_example =
    generate_random_password-begins_with_dash server 64 "Zm9v" start
      (generate_random_password 64 server start).1 password_run

wanted_service-selects_example :
    (selects
        (wanted_service start.instance old_service).selector
        (wanted_stateful_set start.instance "0" (server_set "5.0.1")).template_labels
      ≡ true)
    × (selects
          (wanted_service start.instance old_service).selector
          (database_backup_pod start.instance "5.0.1").labels
        ≡ false)
    × (selects
          (wanted_service start.instance old_service).selector
          (wanted_cron_job start.instance hour old_job).pod_labels
        ≡ false)
wanted_service-selects_example =
    wanted_service-selects start.instance "0" "5.0.1" hour old_service (server_set "5.0.1") old_job

reconcile_databases-SparesWanted_example :
    SparesWanted
      (database_names start.instance.spec.databases)
      (reconcile_databases (server_set "5.0.1") server start).1.log
reconcile_databases-SparesWanted_example =
    reconcile_databases-SparesWanted server (server_set "5.0.1") start tt

parse_retention-show_example :
    parse_retention (show 24 <> letter in_hours) ≡ some (record { amount = 24; unit = hours })
parse_retention-show_example = parse_retention-show 24 in_hours (omega arith)

abbrev settled_state : State
settled_state = (reconcile_objects server start).1

objects_run : reconcile_objects server start ≡ (ok tt, settled_state)
unfolding reconcile_objects ◌>>=◌ reconcile_config_map current wrap call reconcile_service
    reconcile_pvcs reconcile_pvc backup_volume_spec reconcile_stateful_set sysdba_password asks
    reconcile_databases contains orphaned_backups exec_in_pod drop_database provision_database
    database_file_exists catch modify_status write_status reconcile_scheduled_backups
    frequency_retention reconcile_scheduled_backup_cron_job unless_missing label
    finish_major_upgrade set_phase set_available set_condition
objects_run = refl

reconcile_objects-Reported_example : Reported settled_state.instance
reconcile_objects-Reported_example =
    reconcile_objects-Reported server-IsHonest start settled_state objects_run

generate_random_password-Draws_example :
    generate_random_password 64 server start
    ≡ (ok "Zm9v", record start { log = event (random_base64 24) (done "Zm9v") ∷ [] })
unfolding begins_with_dash
generate_random_password-Draws_example =
    generate_random_password-Draws server start.instance []
      (event (random_base64 24) (done "Zm9v") ∷ []) 1 64 "Zm9v" (last refl refl) (omega arith)

database_of_backup-backup_file_name_example :
    database_of_backup (backup_file_name ("shop" <> ".fdb")) ≡ "shop" <> ".fdb"
database_of_backup-backup_file_name_example = database_of_backup-backup_file_name "shop"

reconciled-IsGuarded_example : IsGuarded "shop" (reconciled upgrading_server "shop" 3 start).log
reconciled-IsGuarded_example =
    reconciled-IsGuarded upgrading_server-IsFaithful upgrading_server-Persists refl 3 start.instance

reconcile_instance-Follows_example :
    let t = (reconcile_instance upgrading_server start).1 in
    Follows none t.log t.instance.status.upgrade
reconcile_instance-Follows_example =
    reconcile_instance-Follows upgrading_server-IsHonest none start here

reconcile_databases-Settles_example : Settles (server_set "5.0.1") start.instance [] recorded
reconcile_databases-Settles_example =
    reconcile_databases-Settles server (server_set "5.0.1") start recorded databases_run

abbrev scheduled : State
scheduled = (reconcile_scheduled_backups server start).1

schedule_run : reconcile_scheduled_backups server start ≡ (ok tt, scheduled)
unfolding reconcile_scheduled_backups ◌>>=◌ current backup_volume_spec frequency_retention
    reconcile_scheduled_backup_cron_job wrap call ask pure unless_missing
schedule_run = refl

reconcile_scheduled_backups-HandledAll_example :
    (scheduled.instance ≡ start.instance)
    × HandledAll start.instance backup_frequencies [] scheduled.log
reconcile_scheduled_backups-HandledAll_example =
    reconcile_scheduled_backups-HandledAll server start scheduled schedule_run

wanted-AreWired_example :
    AreWired
      (wanted_stateful_set start.instance "0" (server_set "5.0.1")).volumes
      (wanted_stateful_set start.instance "0" (server_set "5.0.1")).containers
    × AreWired
        (wanted_stateful_set start.instance "0" (server_set "5.0.1")).volumes
        (wanted_stateful_set start.instance "0" (server_set "5.0.1")).init_containers
    × AreWired
        (database_backup_pod start.instance "5.0.1").volumes
        (database_backup_pod start.instance "5.0.1").containers
    × AreWired
        (wanted_cron_job start.instance hour old_job).volumes
        (wanted_cron_job start.instance hour old_job).containers
wanted-AreWired_example =
    wanted-AreWired start.instance "0" "5.0.1" hour (server_set "5.0.1") old_job

firebird_major_version-show_example :
    (firebird_major_version (show 5) ≡ some 5)
    × (firebird_major_version (show 5 <> ("." <> "0.1")) ≡ some 5)
    × (firebird_major_version (show 5 <> ("-" <> "0.1")) ≡ some 5)
firebird_major_version-show_example =
    firebird_major_version-show 5 "0.1" (omega arith) (omega arith)

start_major_upgrade-wanted_example :
    (stateful_set_firebird_version (wanted_stateful_set start.instance "0" (server_set "4.0.2"))
      ≡ "5.0.1")
    × (start_major_upgrade
          (wanted_stateful_set start.instance "0" (server_set "4.0.2"))
          server
          start
        ≡ (ok false, start))
unfolding after_last_colon contains_slash
start_major_upgrade-wanted_example =
    start_major_upgrade-wanted server start "0" (server_set "4.0.2") refl refl

main-Starts_example :
    ((ns : String) (log : List Step)
      → (main (λ taken step. none) default_flags (some ns) ≡ (returned, log)
          → (log ≡ all_taken (manager_options default_flags ns))
            × NoneFailed (λ taken step. none) log)
        × ((k : ℕ)
            → main (λ taken step. none) default_flags (some ns) ≡ (exited k, log)
            → (k ≡ 1) × LastFailed (λ taken step. none) log)
        × IsSecured default_flags (manager_options default_flags ns))
    × (main (λ taken step. none) default_flags none ≡ (exited 1, []))
main-Starts_example = main-Starts (λ taken step. none) default_flags

setup_cache_namespaces-joined_example :
    contains (setup_cache_namespaces (joined "a" ("b" ∷ []))) "b" ≡ contains ("a" ∷ "b" ∷ []) "b"
unfolding is_word
setup_cache_namespaces-joined_example =
    setup_cache_namespaces-joined "a" ("b" ∷ []) refl (refl, tt) "b"

abbrev stored : List Item
stored = record { namespace = "shops"; instance = start.instance } ∷ []

abbrev listing : String → String → Reply (List Item)
listing namespace value = done (
    keep_if
      (λ (x : Item).
        (x.namespace =? namespace) && contains (secret_ref_index (some x.instance)) value)
      stored)

find_instances_for_secret-Reads_example :
    ((x : Item)
      → IsIn x stored
      → Reads x "shops" "shop-sysdba"
      → IsIn (request x) (find_instances_for_secret listing "shops" "shop-sysdba"))
    × ((q : Request)
        → IsIn q (find_instances_for_secret listing "shops" "shop-sysdba")
        → (x : Item) × (IsIn x stored × (Reads x "shops" "shop-sysdba" × (request x ≡ q))))
find_instances_for_secret-Reads_example =
    find_instances_for_secret-Reads listing stored "shops" "shop-sysdba" (λ namespace value. refl)

abbrev let_on : State
let_on = (reconcile_major_upgrade server start).1

let_on_run : reconcile_major_upgrade server start ≡ (ok false, let_on)
unfolding reconcile_major_upgrade ◌>>=◌ current ask pure
let_on_run = refl

reconcile_major_upgrade-Passes_example :
    Outcome start.instance.name start.instance.spec start.instance.status.upgrade false let_on
reconcile_major_upgrade-Passes_example =
    reconcile_major_upgrade-Passes server-IsHonest start.instance false let_on let_on_run

reconcile_major_upgrade-Completes_example :
    (t : State) × ((reconcile_major_upgrade stopped_server
          (record { instance = upgrading_instance; log = [] })
        ≡ (ok false, t))
      × (t.instance.status.upgrade ≡ some (record upgrade { stage = restoring })))
reconcile_major_upgrade-Completes_example =
    reconcile_major_upgrade-Completes upgrading_instance upgrade [] stopped_server-Cooperates refl
      refl λ h. tt
