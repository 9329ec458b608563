-- ===== src/Schedule/Script.antt =====
-- The shell script of a scheduled backup run, text for text (scheduledBackupScript,
-- incrementalBackupScript and the snippets that they are put together from).
use kubebird.Prelude.{ℕ, String, ◌<>◌, Bool, true, false, ◌&&◌, List, [], ◌∷◌, if◌then◌else◌}
use kubebird.Prelude.Text.{quote, show, path_join, trim_suffix}
use kubebird.Api.{Instance, BackupModeType, logical, physical}
use kubebird.Naming.{primary_data_mount_path, backup_data_mount_path, sysdba_username}
use kubebird.Version.{can_clean_backup_history}
use kubebird.Security.{concat}
use kubebird.Workload.{service_port}
use kubebird.Schedule.{Frequency, RetentionDuration, date_ago, frequency_name, frequency_retention}

unfoldable pub backup_service_connection : Instance → String
unfolding service_port show
backup_service_connection i = i.name <> ("/" <> (show (service_port i) <> ":service_mgr"))

unfoldable pub scheduled_backup_dir : String → String
unfolding path_join
scheduled_backup_dir frequency = path_join backup_data_mount_path frequency

abbrev timestamp_date : String
timestamp_date = "+%Y%m%dT%H%M%SZ"

-- "fbsvcmgr <connection> -user SYSDBA -password "$SYSDBA_PASSWORD""
service_login : String → String
service_login conn =
    concat
      ("fbsvcmgr " ∷ conn ∷ " -user " ∷ sysdba_username ∷ " -password \"$SYSDBA_PASSWORD\"" ∷ [])

unfoldable pub nbackup_command : String → String → ℕ → String → String → String
unfolding service_login concat
nbackup_command conn db_path level dst extra = concat (
    service_login conn
    ∷ " -action_nbak -nbk_level "
    ∷ show level
    ∷ " -dbname "
    ∷ quote db_path
    ∷ " -nbk_file "
    ∷ dst
    ∷ extra
    ∷ "\n"
    ∷ [])

unfoldable pub gzip_line : Instance → String → String → String
gzip_line i indent dst =
    if i.spec.backup.compress then indent <> ("gzip -f " <> (dst <> "\n")) else ""

unfoldable pub unique_timestamp_script : String → String
unfolding concat
unique_timestamp_script dir =
    let claim = quote dir <> "/.claim-\"$TS\"" in
    concat (
      "while :; do\n  TS=$(date -u "
      ∷ timestamp_date
      ∷ ")\n  if mkdir "
      ∷ claim
      ∷ " 2>/dev/null; then\n    USED=\n    for f in "
      ∷ quote dir
      ∷ "/*-\"$TS\".[fn]bk* "
      ∷ quote dir
      ∷ "/pool-\"$TS\" "
      ∷ quote dir
      ∷ "/pool-*/*-\"$TS\".nbk*; do\n"
      ∷ "      if [ -e \"$f\" ]; then USED=1; fi\n    done\n    [ -n \"$USED\" ] || break\n    rmdir "
      ∷ claim
      ∷ "\n  fi\n  sleep 1\ndone\ntrap 'rmdir "
      ∷ claim
      ∷ "' EXIT\n"
      ∷ [])

unfoldable pub prune_scheduled_backups_script : String → RetentionDuration → String
unfolding concat date_ago
prune_scheduled_backups_script dir retention = concat (
    "CUTOFF=$(date -u -d "
    ∷ quote (date_ago retention)
    ∷ " "
    ∷ timestamp_date
    ∷ ")\nfor f in "
    ∷ quote dir
    ∷ "/*.fbk "
    ∷ quote dir
    ∷ "/*.fbk.gz "
    ∷ quote dir
    ∷ "/*.nbk "
    ∷ quote dir
    ∷ "/*.nbk.gz; do\n  [ -e \"$f\" ] || continue\n"
    ∷ "  FTS=$(basename \"$f\" | sed -n '"
    ∷ "s/.*-\\([0-9]\\{8\\}T[0-9]\\{6\\}Z\\)\\.[fn]bk\\(\\.gz\\)\\{0,1\\}$/\\1/p"
    ∷ "')\n  [ -n \"$FTS\" ] || continue\n  if expr \"$FTS\" \\< \"$CUTOFF\" >/dev/null; then\n"
    ∷ "    rm -f \"$f\"\n    echo \"Deleted expired backup $f\"\n  fi\ndone\nfor d in "
    ∷ quote dir
    ∷ "/.claim-*; do\n  [ -d \"$d\" ] || continue\n"
    ∷ "  FTS=$(basename \"$d\" | sed -n 's/^\\.claim-\\([0-9]\\{8\\}T[0-9]\\{6\\}Z\\)$/\\1/p')\n"
    ∷ "  [ -n \"$FTS\" ] || continue\n  if expr \"$FTS\" \\< \"$CUTOFF\" >/dev/null; then\n"
    ∷ "    rmdir \"$d\"\n  fi\ndone\n"
    ∷ [])

unfoldable pub prune_expired_pools_script : String → String
unfolding concat
prune_expired_pools_script dir = concat (
    "for p in "
    ∷ quote dir
    ∷ "/pool-*; do\n  [ -d \"$p\" ] || continue\n"
    ∷ "  PTS=$(basename \"$p\" | sed -n 's/^pool-\\([0-9]\\{8\\}T[0-9]\\{6\\}Z\\)$/\\1/p')\n"
    ∷ "  [ -n \"$PTS\" ] || continue\n  if expr \"$PTS\" \\< \"$CUTOFF\" >/dev/null; then\n"
    ∷ "    rm -rf \"$p\"\n    echo \"Deleted expired backup pool $p\"\n  fi\ndone\n"
    ∷ [])

-- The level 0 backup of a database in the current pool.
level0_of : String → String
level0_of name = "\"$POOL\"/" <> quote (trim_suffix ".fdb" name <> "-level0.nbk")

level1_of : String → String
level1_of name = "\"$POOL\"/" <> (quote (trim_suffix ".fdb" name <> "-level1-") <> "\"$TS\".nbk")

-- Whether the pool's level 0 is still the database's latest.
pool_checks : Instance → List String → String
unfolding concat level0_of service_port show path_join
pool_checks i [] = ""
pool_checks i (name ∷ names) =
    concat (
      "if [ -z \"$NEW\" ] && { [ -e "
      ∷ level0_of name
      ∷ " ] || [ -e "
      ∷ level0_of name
      ∷ ".gz ]; }; then\n  LAST=$(printf '%s\\n' 'SET HEADING OFF;' "
      ∷ "'SELECT FIRST 1 RDB$FILE_NAME FROM RDB$BACKUP_HISTORY WHERE RDB$BACKUP_LEVEL = 0 "
      ∷ "ORDER BY RDB$BACKUP_ID DESC;' | isql -q -user "
      ∷ sysdba_username
      ∷ " -password \"$SYSDBA_PASSWORD\" "
      ∷ quote (
          i.name
          <> ("/" <> (show (service_port i) <> (":" <> path_join primary_data_mount_path name))))
      ∷ " | awk 'NF { print $1; exit }')\n  [ \"$LAST\" = "
      ∷ level0_of name
      ∷ " ] || NEW=1\nfi\n"
      ∷ [])
    <> pool_checks i names

-- A level 1 backup where the pool has a level 0, and a level 0 otherwise.
pool_backups : Instance → String → List String → String
unfolding concat level0_of level1_of nbackup_command gzip_line path_join
pool_backups i extra [] = ""
pool_backups i extra (name ∷ names) =
    concat (
      "if [ -e "
      ∷ level0_of name
      ∷ " ] || [ -e "
      ∷ level0_of name
      ∷ ".gz ]; then\n  "
      ∷ nbackup_command (backup_service_connection i) (path_join primary_data_mount_path name) 1
          (level1_of name) ""
      ∷ gzip_line i "  " (level1_of name)
      ∷ "else\n  "
      ∷ nbackup_command (backup_service_connection i) (path_join primary_data_mount_path name) 0
          (level0_of name) extra
      ∷ gzip_line i "  " (level0_of name)
      ∷ "fi\n"
      ∷ [])
    <> pool_backups i extra names

abbrev clean_history_args : String
clean_history_args = " -nbk_clean_history -nbk_keep_rows 1"

unfoldable pub incremental_backup_script : Instance → String → RetentionDuration → String
unfolding pool_checks pool_backups date_ago concat
incremental_backup_script i dir retention = concat (
    "POOL_CUTOFF=$(date -u -d "
    ∷ quote (date_ago retention)
    ∷ " "
    ∷ timestamp_date
    ∷ ")\nPOOL=\nPOOL_TS=\nfor p in "
    ∷ quote dir
    ∷ "/pool-*; do\n  [ -d \"$p\" ] || continue\n"
    ∷ "  PTS=$(basename \"$p\" | sed -n 's/^pool-\\([0-9]\\{8\\}T[0-9]\\{6\\}Z\\)$/\\1/p')\n"
    ∷ "  [ -n \"$PTS\" ] || continue\n  POOL=$p\n  POOL_TS=$PTS\ndone\nNEW=\n"
    ∷ "if [ -z \"$POOL\" ] || expr \"$POOL_TS\" \\< \"$POOL_CUTOFF\" >/dev/null; then\n"
    ∷ "  NEW=1\nfi\n"
    ∷ pool_checks i i.status.databases
    ∷ "if [ -n \"$NEW\" ]; then\n  POOL="
    ∷ quote dir
    ∷ "/pool-\"$TS\"\n  mkdir \"$POOL\"\n  echo \"Started backup pool $POOL\"\nfi\n"
    ∷ pool_backups i (if can_clean_backup_history i then clean_history_args else "")
        i.status.databases
    ∷ "for p in "
    ∷ quote dir
    ∷ "/pool-*; do\n  [ -d \"$p\" ] && [ \"$p\" != \"$POOL\" ] || continue\n"
    ∷ "  rm -rf \"$p\"\n  echo \"Deleted backup pool $p\"\ndone\n"
    ∷ [])

physical_dst : String → String → String
physical_dst dir name = quote (dir <> ("/" <> (trim_suffix ".fdb" name <> "-$TS.nbk")))

logical_dst : String → String → String
logical_dst dir name = quote (dir <> ("/" <> (trim_suffix ".fdb" name <> "-$TS.fbk")))

-- The backup of one database in a run that keeps no pool.
unfoldable pub database_backup : Instance → String → BackupModeType → String → String
unfolding physical_dst logical_dst nbackup_command gzip_line service_login concat path_join
database_backup i dir physical name =
    nbackup_command (backup_service_connection i) (path_join primary_data_mount_path name) 0
      (physical_dst dir name) ""
    <> gzip_line i "" (physical_dst dir name)
database_backup i dir logical name =
    concat (
      service_login (backup_service_connection i)
      ∷ " -action_backup -dbname "
      ∷ quote (path_join primary_data_mount_path name)
      ∷ " -bkp_file "
      ∷ logical_dst dir name
      ∷ "\n"
      ∷ [])
    <> gzip_line i "" (logical_dst dir name)

unfoldable pub database_backups : Instance → String → BackupModeType → List String → String
unfolding database_backup
database_backups i dir mode [] = ""
database_backups i dir mode (name ∷ names) =
    database_backup i dir mode name <> database_backups i dir mode names

abbrev pub is_physical : BackupModeType → Bool
is_physical logical = false
is_physical physical = true

-- The lock that physical runs hold: path.Join(backupDataMountPath, ".scheduled-backup.lock").
lock_lines : BackupModeType → String
lock_lines logical = ""
lock_lines physical = "exec 9>\"/var/lib/firebird/backup/.scheduled-backup.lock\"\nflock 9\n"

unfoldable pub scheduled_backup_script : Instance → Frequency → String
unfolding database_backups lock_lines frequency_retention concat
scheduled_backup_script i freq =
    let dir = scheduled_backup_dir (frequency_name freq) in
    let retention = frequency_retention i freq in
    let mode = i.spec.backup.mode in
    concat (
      "set -e\n"
      ∷ lock_lines mode.mode_type
      ∷ unique_timestamp_script dir
      ∷ (if is_physical mode.mode_type && mode.incremental
          then incremental_backup_script i dir retention
            ∷ prune_scheduled_backups_script dir retention
            ∷ []
          else database_backups i dir mode.mode_type i.status.databases
            ∷ prune_scheduled_backups_script dir retention
            ∷ prune_expired_pools_script dir
            ∷ []))
