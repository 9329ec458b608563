-- ===== src/Databases.antt =====
-- Creating, restoring and dropping the databases of an Instance in its pod
-- (internal/controller/instance_provision.go).
pub mod Keeps
pub mod Traced
pub mod Provisioned
pub mod Changed
pub mod Names
pub mod Files
pub mod Recorded
pub mod Dropped
pub mod SecurityBackups
pub mod Orphaned
use kubebird.Prelude.{
  ℕ, ℤ, pos, neg, String, ◌<>◌, Bool, true, false, not, ◌&&◌, ◌||◌, Option, none, some, List, [],
  ◌∷◌, ◌++◌, map, ◌=?◌, ◌==◌, ltb, ◌-◌, ◌%◌, ◌^◌, if◌then◌else◌, is_none, is_some, length, keep_if,
}
use kubebird.Prelude.Text.{
  quote, show, path_join, trim_suffix, has_suffix, strip_prefix, fields, sort, contains, join_comma,
}
use kubebird.Api.{Instance, InstanceStatus, DatabaseSpec}
use kubebird.Naming.{
  label, primary_data_mount_path, shadow_data_mount_path, instance_backup_dir, backup_file_name,
  backup_volume_spec, sysdba_username, sysdba_secret_ref_name, firebird_pod_name,
}
use kubebird.Version.{span_digits}
use kubebird.Kube.Objects.{StatefulSet, Secret}
use kubebird.Kube.Calls.{Reply, done, fault, Fault, not_found, Output, get_secret, exec}
use kubebird.Kube.Action.{
  Action, Error, Result, ok, err, external, failed, wrapped, pure, raise, ◌>>=◌, ◌>>◌, wrap, catch,
  ask, current, modify_status, write_status, is_exit_error,
}

stream_ended : Output → Option Fault → Action String
stream_ended o none = pure o.stdout
stream_ended o (some f) =
    raise (wrapped "exec failed: " (external f) (" (stderr: " <> (o.stderr <> ")")))

exec_ended : Reply Output → Action String
unfolding stream_ended
exec_ended (fault f) = raise (wrapped "failed to create exec executor: " (external f) "")
exec_ended (done o) = stream_ended o o.error

-- execInPod and execInPodOutput
unfoldable pub exec_in_pod : String → List String → String → Action String
unfolding exec_ended
exec_in_pod pod command stdin = do r ← ask (exec pod command stdin); exec_ended r

secret_got : String → Reply Secret → Action String
secret_got ref (done secret) = pure (label "password" secret.entries)
secret_got ref (fault (not_found m)) =
    raise (failed ("SYSDBA Secret " <> (quote ref <> " not found")))
secret_got ref (fault f) =
    raise (wrapped ("failed to get SYSDBA Secret " <> (quote ref <> ": ")) (external f) "")

unfoldable pub sysdba_password : Action String
unfolding secret_got
sysdba_password = do
  i ← current
  r ← ask (get_secret (sysdba_secret_ref_name i))
  secret_got (sysdba_secret_ref_name i) r

abbrev pub database_drop_script : String
database_drop_script = "DROP DATABASE;\nQUIT;\n"

shadow_line : String → String
shadow_line name = "CREATE SHADOW 1 '" <> (path_join shadow_data_mount_path name <> "';\n")

unfoldable pub database_create_script : DatabaseSpec → String
unfolding shadow_line path_join
database_create_script db =
    ("CREATE DATABASE '"
      <> (path_join primary_data_mount_path db.name
          <> ("' PAGE_SIZE "
              <> (show db.page_size
                  <> (" DEFAULT CHARACTER SET "
                      <> (db.charset <> (" COLLATION " <> (db.collation <> ";\n"))))))))
    <> ((if db.shadow then shadow_line db.name else "") <> "QUIT;\n")

file_test : Result String → Action Bool
file_test (ok out) = pure true
file_test (err e) = if is_exit_error e then pure false else raise e

unfoldable pub database_file_exists : String → String → Action Bool
unfolding file_test
database_file_exists pod path = do
  r ← catch (exec_in_pod pod ("test" ∷ "-f" ∷ path ∷ []) "")
  file_test r

-- ^security[0-9]+\.fbk$
unfoldable pub digits_then_fbk : String × String → Bool
digits_then_fbk (digits, rest) = not (digits =? "") && rest =? ".fbk"

unfoldable pub is_security_backup : String → Bool
unfolding span_digits digits_then_fbk strip_prefix
is_security_backup name = elim (strip_prefix "security" name) [
  | none ↦ false
  | some rest ↦ digits_then_fbk (span_digits rest)
]

-- The database that a backup file belongs to.
abbrev pub database_of_backup : String → String
database_of_backup name = trim_suffix ".fbk" name <> ".fdb"

-- The loop of orphanedBackups over the file names.
unfoldable pub collect_orphaned : List String → List String → List String
unfolding is_security_backup
collect_orphaned desired [] = []
collect_orphaned desired (name ∷ names) =
    let rest = collect_orphaned desired names in
    if not (has_suffix ".fbk" name) || is_security_backup name
    then rest
    else if contains desired (database_of_backup name)
    then rest
    else database_of_backup name ∷ rest

abbrev pub database_names : List DatabaseSpec → List String
database_names = map (λ db. db.name)

unfoldable pub orphaned_backups : String → Action (List String)
unfolding collect_orphaned
orphaned_backups pod = do
  i ← current
  output ← wrap ("failed to list backup directory " <> (quote instance_backup_dir <> ": ")) (
      exec_in_pod pod
        ("sh" ∷ "-c" ∷ ("ls -1 " <> (instance_backup_dir <> " 2>/dev/null || true")) ∷ []) "")
  pure (sort (collect_orphaned (database_names i.spec.databases) (fields output)))

-- The shadow of a database that was just restored.
restore_shadow : String → String → DatabaseSpec → Action Bool
restore_shadow pod password db =
    if db.shadow
    then (do
      wrap "failed to recreate shadow file after restore: " (
          exec_in_pod pod
            ("isql"
              ∷ "-user"
              ∷ sysdba_username
              ∷ "-password"
              ∷ password
              ∷ path_join primary_data_mount_path db.name
              ∷ [])
            (shadow_line db.name <> "QUIT;\n"))
      pure true)
    else pure true

unfoldable pub restore_database_if_backed_up : String → String → DatabaseSpec → Action Bool
unfolding restore_shadow shadow_line path_join backup_file_name
restore_database_if_backed_up pod password db = do
  let backup_path = path_join instance_backup_dir (backup_file_name db.name)
  exists ←
      wrap ("failed to check for a backup at " <> (quote backup_path <> ": "))
        (database_file_exists pod backup_path)
  if not exists then pure false else do
    wrap "gbak restore failed: " (
        exec_in_pod pod
          ("gbak"
            ∷ "-create"
            ∷ "-verify"
            ∷ "-user"
            ∷ sysdba_username
            ∷ "-password"
            ∷ password
            ∷ backup_path
            ∷ path_join primary_data_mount_path db.name
            ∷ [])
          "")
    restore_shadow pod password db

abbrev pub sysdba_command : String → List String
sysdba_command password = "isql" ∷ "-user" ∷ sysdba_username ∷ "-password" ∷ password ∷ []

unfoldable pub drop_database : String → String → String → Action String
unfolding path_join
drop_database pod password name = wrap ("failed to drop database " <> (quote name <> ": ")) (
    exec_in_pod pod (sysdba_command password ++ path_join primary_data_mount_path name ∷ [])
      database_drop_script)

unfoldable pub drop_all : String → String → List String → Action (Unit {0})
drop_all pod password [] = pure tt
drop_all pod password (name ∷ names) =
    drop_database pod password name >> drop_all pod password names

unfoldable pub create_database : String → String → DatabaseSpec → Action (Unit {0})
create_database pod password db = do
  wrap ("failed to create database " <> (quote db.name <> ": "))
      (exec_in_pod pod (sysdba_command password) (database_create_script db))
  pure tt

unfoldable pub restore_or_create : String → String → DatabaseSpec → Action (Unit {0})
restore_or_create pod password db = do
  i ← current
  if is_none (backup_volume_spec i) then create_database pod password db else do
    restored ←
        wrap ("failed to restore database " <> (quote db.name <> " from backup: "))
          (restore_database_if_backed_up pod password db)
    if restored then pure tt else create_database pod password db

unfoldable pub provision_database : String → String → DatabaseSpec → Action (Unit {0})
unfolding path_join
provision_database pod password db = do
  exists ←
      wrap ("failed to check whether database " <> (quote db.name <> " already exists: "))
        (database_file_exists pod (path_join primary_data_mount_path db.name))
  if exists then pure tt else restore_or_create pod password db

unfoldable pub provision_all : String → String → List DatabaseSpec → Action (Unit {0})
provision_all pod password [] = pure tt
provision_all pod password (db ∷ dbs) =
    provision_database pod password db >> provision_all pod password dbs

-- int32(n)
abbrev pub int32 : ℕ → ℤ
int32 n = if ltb (n % 2 ^ 32) (2 ^ 31) then pos (n % 2 ^ 32) else neg (2 ^ 32 - n % 2 ^ 32)

-- The databases of the spec that the status lacks, and the other way round.
unfoldable pub pending_databases : InstanceStatus → List DatabaseSpec → List DatabaseSpec
pending_databases st = keep_if (λ db. not (contains st.databases db.name))

unfoldable pub removed_databases : List DatabaseSpec → List String → List String
removed_databases dbs = keep_if (λ name. not (contains (database_names dbs) name))

-- status.databases afterwards.
unfoldable pub databases_after : List String → List String → List DatabaseSpec → List String
databases_after old removed pending =
    keep_if (λ name. not (contains removed name)) old ++ database_names pending

abbrev orphan_warning : List String → String
orphan_warning [] = ""
orphan_warning (name ∷ names) =
    "the backup volume has a backup for "
    <> (join_comma (name ∷ names)
        <> ", but it's no longer in spec.databases, so it wasn't restored")

unfoldable pub find_warning : String → List DatabaseSpec → Action String
find_warning pod pending = do
  i ← current
  if length pending == 0 || is_none (backup_volume_spec i) then pure "" else do
    orphaned ← wrap "failed to check for orphaned backups: " (orphaned_backups pod)
    pure (orphan_warning orphaned)

unfoldable pub record_databases : List String → List DatabaseSpec → String → Action (Unit {0})
unfolding databases_after
record_databases removed pending warning = do
  i ← current
  let databases = databases_after i.status.databases removed pending
  modify_status (λ st. record st {
    databases = databases;
    database_count = int32 (length databases);
    warning = warning;
  })
  write_status

unfoldable pub change_databases : List String → List DatabaseSpec → Action (Unit {0})
unfolding drop_all provision_all find_warning record_databases
change_databases removed pending = do
  password ← sysdba_password
  i ← current
  let pod = firebird_pod_name i
  warning ← find_warning pod pending
  drop_all pod password removed
  provision_all pod password pending
  record_databases removed pending warning

unfoldable pub reconcile_databases : StatefulSet → Action (Unit {0})
unfolding change_databases pending_databases removed_databases
reconcile_databases sts = do
  i ← current
  if sts.ready_replicas == 0 then pure tt else do
    let pending = pending_databases i.status i.spec.databases
    let removed = removed_databases i.spec.databases i.status.databases
    if length pending == 0 && length removed == 0 then pure tt else change_databases removed pending
