-- ===== src/Databases/Keeps.antt =====
-- Creating, restoring and dropping databases keeps every stable invariant.
use kubebird.Prelude.{
  String, ◌<>◌, Option, none, some, List, [], ◌∷◌, refl, sym, ap, ◌∙◌, ◌≡◌, ◌≢◌, ◌==◌, ◌=?◌,
  eq_refl, Bool, true, false, ◌||◌, arith,
}
use kubebird.Prelude.Text.{contains}
use Prim.Native.Char.{Char, code}
use text.Mathlib.TextLemmas.{cons-append, head-eq_of_cons-eq}
use kubebird.Api.{DatabaseSpec}
use kubebird.Kube.Objects.{Secret, StatefulSet}
use kubebird.Kube.Calls.{Env, Reply, done, fault, Fault, not_found, Output, get_secret, exec}
use kubebird.Kube.Calls
use kubebird.Kube.Action.{State, Result, ok, err, ask, current}
use kubebird.Kube.Rules.{
  Keeps, Keeps-pure, Keeps-raise, Keeps-bind, Keeps-wrap, Keeps-current, keeps_rules,
}
use kubebird.Kube.Stable.{
  IsStable, IsQuiet, stable-IsQuiet, ask-quiet, modify_status-Keeps, write_status-Keeps,
}
use kubebird.Databases.{
  stream_ended, exec_ended, exec_in_pod, secret_got, sysdba_password, file_test,
  database_file_exists, orphaned_backups, restore_shadow, restore_database_if_backed_up,
  drop_database, drop_all, create_database, restore_or_create, provision_database, provision_all,
  database_drop_script, database_create_script, shadow_line, sysdba_command, find_warning,
  record_databases, change_databases, reconcile_databases,
}

stream_ended-Keeps :
    {env : Env} {J : State → Type 0} (o : Output) (e : Option Fault)
    → Keeps env J (stream_ended o e)
unfolding stream_ended
stream_ended-Keeps o none = Keeps-pure _
stream_ended-Keeps o (some f) = Keeps-raise _

heads_differ :
    (c d : Char) (s t x y : String)
    → (code c == code d) ≡ false
    → ((String.◌∷◌ c s) <> x) <> y ≢ String.◌∷◌ d t
heads_differ c d s t x y h e =
    let whole = sym (ap (λ z. z <> y) (cons-append c s x) ∙ cons-append c (s <> x) y) ∙ e in
    let same = ap (λ z. code z == code d) (head-eq_of_cons-eq whole) in ground (arith, h, same)

empty-ne-drop : "" ≢ database_drop_script
empty-ne-drop e = cc

create-ne-drop : (db : DatabaseSpec) → database_create_script db ≢ database_drop_script
unfolding database_create_script
create-ne-drop db = heads_differ _ _ _ _ _ _ refl

shadow-ne-drop : (name : String) → shadow_line name <> "QUIT;\n" ≢ database_drop_script
unfolding shadow_line
shadow-ne-drop name = heads_differ _ _ _ _ _ _ refl

or_true : (b : Bool) → (b || true) ≡ true
or_true true = refl
or_true false = refl

-- The invariant is kept by reading a Secret and by every command but dropping a database.
pub record IsUndropping (env : Env) (J : State → Type 0) : Type 0 where
  pub secret : (name : String) → Keeps env J (ask (get_secret name))
  pub run :
      (pod : String) (command : List String) (stdin : String)
      → stdin ≢ database_drop_script
      → Keeps env J (ask (exec pod command stdin))

module _ {env : Env} {J : State → Type 0} where
  exec_ended-Keeps : (r : Reply Output) → Keeps env J (exec_ended r)
  unfolding exec_ended
  exec_ended-Keeps (fault f) = search keeps_rules
  exec_ended-Keeps (done o) = stream_ended-Keeps o o.error

  pub exec_in_pod-Keeps_from :
      (pod : String) (command : List String) (stdin : String)
      → Keeps env J (ask (exec pod command stdin))
      → Keeps env J (exec_in_pod pod command stdin)
  unfolding exec_in_pod
  exec_in_pod-Keeps_from pod command stdin k = search (keeps_rules, k, exec_ended-Keeps)

  pub quiet-IsUndropping : IsQuiet env J → IsUndropping env J
  quiet-IsUndropping q = record {
    secret = λ name. ask-quiet q (get_secret name) refl;
    run = λ pod command stdin h. ask-quiet q (exec pod command stdin) refl;
  }

  pub exec_in_pod-Keeps :
      IsQuiet env J
      → (pod : String) (command : List String) (stdin : String)
      → Keeps env J (exec_in_pod pod command stdin)
  exec_in_pod-Keeps q pod command stdin =
      exec_in_pod-Keeps_from pod command stdin (ask-quiet q (exec pod command stdin) refl)

module _ {env : Env} {J : State → Type 0} (quiet : IsQuiet env J) where
  pub drop_database-Keeps :
      (pod password name : String) → Keeps env J (drop_database pod password name)
  unfolding drop_database
  drop_database-Keeps pod password name = search (keeps_rules, exec_in_pod-Keeps quiet)

module _ {env : Env} {J : State → Type 0} (q : IsUndropping env J) where
  exec-Keeps :
      (pod : String) (command : List String) (stdin : String)
      → stdin ≢ database_drop_script
      → Keeps env J (exec_in_pod pod command stdin)
  exec-Keeps pod command stdin h =
      exec_in_pod-Keeps_from pod command stdin (q.run pod command stdin h)

  -- A command without standard input.
  plain_exec-Keeps :
      (pod : String) (command : List String) → Keeps env J (exec_in_pod pod command "")
  plain_exec-Keeps pod command = exec-Keeps pod command "" empty-ne-drop

  get_secret-Keeps : (name : String) → Keeps env J (ask (get_secret name))
  get_secret-Keeps name = q.secret name

  secret_got-Keeps : (ref : String) (r : Reply Secret) → Keeps env J (secret_got ref r)
  unfolding secret_got
  secret_got-Keeps ref (done secret) = search keeps_rules
  secret_got-Keeps ref (fault (not_found m)) = search keeps_rules
  secret_got-Keeps ref (fault (Calls.exit_code c m)) = search keeps_rules
  secret_got-Keeps ref (fault (Calls.other m)) = search keeps_rules

  pub sysdba_password-Keeps : Keeps env J sysdba_password
  unfolding sysdba_password
  sysdba_password-Keeps = search (keeps_rules, get_secret-Keeps, secret_got-Keeps)

  file_test-Keeps : (r : Result String) → Keeps env J (file_test r)
  unfolding file_test
  file_test-Keeps (ok out) = search keeps_rules
  file_test-Keeps (err e) = search keeps_rules

  database_file_exists-Keeps : (pod path : String) → Keeps env J (database_file_exists pod path)
  unfolding database_file_exists
  database_file_exists-Keeps pod path = search (keeps_rules, plain_exec-Keeps, file_test-Keeps)

  orphaned_backups-Keeps : (pod : String) → Keeps env J (orphaned_backups pod)
  unfolding orphaned_backups
  orphaned_backups-Keeps pod = search (keeps_rules, plain_exec-Keeps)

  restore_shadow-Keeps :
      (pod password : String) (db : DatabaseSpec) → Keeps env J (restore_shadow pod password db)
  unfolding restore_shadow
  restore_shadow-Keeps pod password db =
      search (keeps_rules, exec-Keeps pod _ _ (shadow-ne-drop db.name))

  restore-Keeps :
      (pod password : String) (db : DatabaseSpec)
      → Keeps env J (restore_database_if_backed_up pod password db)
  unfolding restore_database_if_backed_up
  restore-Keeps pod password db =
      search (keeps_rules, plain_exec-Keeps, database_file_exists-Keeps, restore_shadow-Keeps) depth
        8

  pub drop_all-Keeps :
      (pod password : String) (names : List String)
      → ((name : String)
          → contains names name ≡ true
          → Keeps env J (drop_database pod password name))
      → Keeps env J (drop_all pod password names)
  unfolding drop_all contains
  drop_all-Keeps pod password [] h = Keeps-pure tt
  drop_all-Keeps pod password (name ∷ names) h =
      Keeps-bind (drop_database pod password name) (λ _. drop_all pod password names)
        (h name (rw (eq_refl name) refl))
        (λ _. drop_all-Keeps pod password names λ m e. h m (rw e (or_true (name =? m))))

  create_database-Keeps :
      (pod password : String) (db : DatabaseSpec) → Keeps env J (create_database pod password db)
  unfolding create_database
  create_database-Keeps pod password db =
      Keeps-bind _ _
        (Keeps-wrap _ _ (exec-Keeps pod (sysdba_command password) _ (create-ne-drop db)))
        λ _. Keeps-pure tt

  restore_or_create-Keeps :
      (pod password : String) (db : DatabaseSpec) → Keeps env J (restore_or_create pod password db)
  unfolding restore_or_create
  restore_or_create-Keeps pod password db =
      search (keeps_rules, restore-Keeps, create_database-Keeps) depth 8

  provision_database-Keeps :
      (pod password : String) (db : DatabaseSpec) → Keeps env J (provision_database pod password db)
  unfolding provision_database
  provision_database-Keeps pod password db =
      search (keeps_rules, database_file_exists-Keeps, restore_or_create-Keeps) depth 8

  pub provision_all-Keeps :
      (pod password : String) (dbs : List DatabaseSpec)
      → Keeps env J (provision_all pod password dbs)
  unfolding provision_all
  provision_all-Keeps pod password [] = search keeps_rules
  provision_all-Keeps pod password (db ∷ dbs) =
      Keeps-bind (provision_database pod password db) (λ _. provision_all pod password dbs)
        (provision_database-Keeps pod password db) (λ _. provision_all-Keeps pod password dbs)

  pub find_warning-Keeps :
      (pod : String) (pending : List DatabaseSpec) → Keeps env J (find_warning pod pending)
  unfolding find_warning
  find_warning-Keeps pod pending = search (keeps_rules, orphaned_backups-Keeps) depth 8

module _ {env : Env} {J : State → Type 0} (st : IsStable env J) where
  record_databases-Keeps :
      (removed : List String) (pending : List DatabaseSpec) (warning : String)
      → Keeps env J (record_databases removed pending warning)
  unfolding record_databases
  record_databases-Keeps removed pending warning =
      Keeps-bind _ _ Keeps-current
        λ i. Keeps-bind _ _ (modify_status-Keeps st _ (λ x. refl)) λ _. write_status-Keeps st

  change_databases-Keeps :
      (removed : List String) (pending : List DatabaseSpec)
      → Keeps env J (change_databases removed pending)
  unfolding change_databases
  change_databases-Keeps removed pending =
      Keeps-bind _ _ (sysdba_password-Keeps (quiet-IsUndropping (stable-IsQuiet st))) λ password.
        Keeps-bind current _ Keeps-current λ i.
          Keeps-bind _ _ (find_warning-Keeps (quiet-IsUndropping (stable-IsQuiet st)) _ pending)
            λ warning.
              Keeps-bind _ _
                (drop_all-Keeps (quiet-IsUndropping (stable-IsQuiet st)) _ password removed
                  λ name e. drop_database-Keeps (stable-IsQuiet st) _ password name)
                λ _.
                  Keeps-bind _ _
                    (provision_all-Keeps (quiet-IsUndropping (stable-IsQuiet st)) _ password
                      pending)
                    λ _. record_databases-Keeps removed pending warning

  pub reconcile_databases-Keeps : (sts : StatefulSet) → Keeps env J (reconcile_databases sts)
  unfolding reconcile_databases
  reconcile_databases-Keeps sts = search (keeps_rules, change_databases-Keeps) depth 8
