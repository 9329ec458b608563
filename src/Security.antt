-- ===== src/Security.antt =====
-- The shell script that seeds the security database before the server starts
-- (securityDatabaseInitScript and securityMigrationScript of
-- internal/controller/instance_provision.go), text for text.
use kubebird.Prelude.{String, ◌<>◌, none, some, List, [], ◌∷◌, Option, is_none, if◌then◌else◌}
use kubebird.Prelude.Text.{cut_before, strip_prefix, quote, path_join}
use kubebird.Api.{Instance}
use kubebird.Naming.{
  backup_volume_spec, instance_backup_dir, primary_data_mount_path, security_database_path,
  security_database_file_name_for_version, sysdba_username,
}

-- The pieces of a text, one after the other.
unfoldable pub concat : List String → String
concat [] = ""
concat (s ∷ ss) = s <> concat ss

-- securityMigrationScript, with the database that it reads from.
unfoldable pub migration_script : String → String
unfolding concat
migration_script source = concat (
    "set term ^;\n" ∷ "EXECUTE BLOCK\n" ∷ "AS\n" ∷ "  DECLARE SRC_SEC_DB     VARCHAR(255) = '"
    ∷ source ∷ "';\n" ∷ "  DECLARE SRC_SEC_USER   VARCHAR(63) = 'SYSDBA';\n"
    ∷ "  DECLARE PLG$USER_NAME  SEC$USER_NAME;\n"
    ∷ "  DECLARE PLG$VERIFIER   VARCHAR(128) CHARACTER SET OCTETS;\n"
    ∷ "  DECLARE PLG$SALT       VARCHAR(32) CHARACTER SET OCTETS;\n"
    ∷ "  DECLARE PLG$COMMENT    BLOB SUB_TYPE TEXT CHARACTER SET UTF8;\n"
    ∷ "  DECLARE PLG$FIRST      SEC$NAME_PART;\n" ∷ "  DECLARE PLG$MIDDLE     SEC$NAME_PART;\n"
    ∷ "  DECLARE PLG$LAST       SEC$NAME_PART;\n"
    ∷ "  DECLARE PLG$ATTRIBUTES BLOB SUB_TYPE TEXT CHARACTER SET UTF8;\n"
    ∷ "  DECLARE PLG$ACTIVE     BOOLEAN;\n" ∷ "  DECLARE PLG$GROUP_NAME SEC$USER_NAME;\n"
    ∷ "  DECLARE PLG$UID        PLG$ID;\n" ∷ "  DECLARE PLG$GID        PLG$ID;\n"
    ∷ "  DECLARE PLG$PASSWD     PLG$PASSWD;\n" ∷ "BEGIN\n" ∷ "  FOR EXECUTE STATEMENT Q'!\n"
    ∷ "      SELECT PLG$USER_NAME, PLG$VERIFIER, PLG$SALT, PLG$COMMENT, PLG$FIRST,\n"
    ∷ "             PLG$MIDDLE, PLG$LAST, PLG$ATTRIBUTES, PLG$ACTIVE\n" ∷ "      FROM PLG$SRP\n"
    ∷ "      WHERE PLG$USER_NAME <> 'SYSDBA'\n" ∷ "!'\n" ∷ "      ON EXTERNAL :SRC_SEC_DB\n"
    ∷ "      AS USER :SRC_SEC_USER\n"
    ∷ "      INTO :PLG$USER_NAME, :PLG$VERIFIER, :PLG$SALT, :PLG$COMMENT, :PLG$FIRST,\n"
    ∷ "           :PLG$MIDDLE, :PLG$LAST, :PLG$ATTRIBUTES, :PLG$ACTIVE\n" ∷ "  DO\n"
    ∷ "    INSERT INTO PLG$SRP (PLG$USER_NAME, PLG$VERIFIER, PLG$SALT, PLG$COMMENT, PLG$FIRST,\n"
    ∷ "                         PLG$MIDDLE, PLG$LAST, PLG$ATTRIBUTES, PLG$ACTIVE)\n"
    ∷ "    VALUES (:PLG$USER_NAME, :PLG$VERIFIER, :PLG$SALT, :PLG$COMMENT, :PLG$FIRST,\n"
    ∷ "            :PLG$MIDDLE, :PLG$LAST, :PLG$ATTRIBUTES, :PLG$ACTIVE);\n"
    ∷ "  FOR EXECUTE STATEMENT Q'!\n"
    ∷ "      SELECT PLG$USER_NAME, PLG$GROUP_NAME, PLG$UID, PLG$GID, PLG$PASSWD,\n"
    ∷ "             PLG$COMMENT, PLG$FIRST_NAME, PLG$MIDDLE_NAME, PLG$LAST_NAME\n"
    ∷ "      FROM PLG$USERS\n" ∷ "      WHERE PLG$USER_NAME <> 'SYSDBA'\n" ∷ "!'\n"
    ∷ "      ON EXTERNAL :SRC_SEC_DB\n" ∷ "      AS USER :SRC_SEC_USER\n"
    ∷ "      INTO :PLG$USER_NAME, :PLG$GROUP_NAME, :PLG$UID, :PLG$GID, :PLG$PASSWD,\n"
    ∷ "           :PLG$COMMENT, :PLG$FIRST, :PLG$MIDDLE, :PLG$LAST\n" ∷ "  DO\n"
    ∷ "    INSERT INTO PLG$USERS (PLG$USER_NAME, PLG$GROUP_NAME, PLG$UID, PLG$GID, PLG$PASSWD,\n"
    ∷ "                           PLG$COMMENT, PLG$FIRST_NAME, PLG$MIDDLE_NAME, PLG$LAST_NAME)\n"
    ∷ "    VALUES (:PLG$USER_NAME, :PLG$GROUP_NAME, :PLG$UID, :PLG$GID, :PLG$PASSWD,\n"
    ∷ "            :PLG$COMMENT, :PLG$FIRST, :PLG$MIDDLE, :PLG$LAST);\n" ∷ "END^\n"
    ∷ "set term ;^\n" ∷ "commit;\n" ∷ "exit;\n" ∷ [])

unfoldable pub security_database_image_default_path : Instance → String
unfolding path_join security_database_file_name_for_version
security_database_image_default_path i =
    path_join "/opt/firebird" (security_database_file_name_for_version i.spec.version)

abbrev or_all : String → Option String → String
or_all s none = s
or_all s (some rest) = rest

-- The major version in the name of the security database.
unfoldable pub security_major : Instance → String
unfolding cut_before strip_prefix security_database_file_name_for_version
security_major i =
    let stem = cut_before b'.' (security_database_file_name_for_version i.spec.version) in
    or_all stem (strip_prefix "security" stem)

-- Without a backup volume: a copy of the image's own.
seed_script : Instance → String
seed_script i = concat (
    "set -e\nif [ ! -f "
    ∷ quote (security_database_path i)
    ∷ " ]; then\n\tcp "
    ∷ quote (security_database_image_default_path i)
    ∷ " "
    ∷ quote (security_database_path i)
    ∷ "\nfi\n"
    ∷ [])

-- With one: the newest security database backup that is no newer than the version.
restore_script : Instance → String → String → String → String → String
restore_script i major dst migrated source = concat (
    "set -e\n"
    ∷ "if [ ! -f "
    ∷ quote dst
    ∷ " ]; then\n"
    ∷ "\tSRC=\n"
    ∷ "\tSRC_MAJOR=\n"
    ∷ "\tfor f in $(ls -t "
    ∷ quote instance_backup_dir
    ∷ "/security*.fbk 2>/dev/null); do\n"
    ∷ "\t\tm=$(basename \"$f\" .fbk)\n"
    ∷ "\t\tm=${m#security}\n"
    ∷ "\t\tcase \"$m\" in ''|*[!0-9]*) continue ;; esac\n"
    ∷ "\t\tif [ \"$m\" -le "
    ∷ major
    ∷ " ]; then\n"
    ∷ "\t\t\tSRC=$f\n"
    ∷ "\t\t\tSRC_MAJOR=$m\n"
    ∷ "\t\t\tbreak\n"
    ∷ "\t\tfi\n"
    ∷ "\tdone\n"
    ∷ "\tif [ -z \"$SRC\" ]; then\n"
    ∷ "\t\tcp "
    ∷ quote (security_database_image_default_path i)
    ∷ " "
    ∷ quote dst
    ∷ "\n"
    ∷ "\telif [ \"$SRC_MAJOR\" -eq 3 ] && [ "
    ∷ major
    ∷ " -gt 3 ]; then\n"
    ∷ "\t\techo \"Migrating the users of $SRC into Firebird "
    ∷ major
    ∷ "'s security database\"\n"
    ∷ "\t\trm -f "
    ∷ quote migrated
    ∷ " "
    ∷ quote source
    ∷ "\n"
    ∷ "\t\tcp "
    ∷ quote (security_database_image_default_path i)
    ∷ " "
    ∷ quote migrated
    ∷ "\n"
    ∷ "\t\t"
    ∷ "gbak"
    ∷ " -create \"$SRC\" "
    ∷ quote source
    ∷ "\n"
    ∷ "\t\t"
    ∷ "isql"
    ∷ " -q -b "
    ∷ "-user"
    ∷ " "
    ∷ sysdba_username
    ∷ " "
    ∷ quote migrated
    ∷ " <<'SQLEOF'\n"
    ∷ migration_script source
    ∷ "SQLEOF\n"
    ∷ "\t\trm -f "
    ∷ quote source
    ∷ "\n"
    ∷ "\t\tmv "
    ∷ quote migrated
    ∷ " "
    ∷ quote dst
    ∷ "\n"
    ∷ "\telse\n"
    ∷ "\t\techo \"Restoring the security database from $SRC\"\n"
    ∷ "\t\t"
    ∷ "gbak"
    ∷ " -create -verify \"$SRC\" "
    ∷ quote dst
    ∷ "\n"
    ∷ "\tfi\n"
    ∷ "fi\n"
    ∷ [])

unfoldable pub security_database_init_script : Instance → String
unfolding seed_script restore_script migration_script security_major path_join quote
security_database_init_script i =
    if is_none (backup_volume_spec i)
    then seed_script i
    else restore_script i (security_major i) (security_database_path i)
        (path_join primary_data_mount_path ".security-migrated.fdb")
        (path_join primary_data_mount_path ".security-migration-source.fdb")
