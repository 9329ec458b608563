-- ===== src/Databases/Changed.antt =====
-- The calls of a change of the databases that gets through.
use kubebird.Prelude.{
  String, ◌<>◌, ◌&&◌, ◌||◌, ◌≡◌, refl, ap, subst, List, [], ◌∷◌, ◌++◌, ◌==◌, if◌then◌else◌, is_none,
  length,
}
use kubebird.Prelude.Text.{path_join}
use kubebird.Api.{Instance, DatabaseSpec}
use kubebird.Naming.{
  label, primary_data_mount_path, instance_backup_dir, backup_volume_spec, firebird_pod_name,
  sysdba_secret_ref_name,
}
use kubebird.Kube.Objects.{StatefulSet, Secret}
use kubebird.Kube.Calls.{
  Reply, done, fault, not_found, Event, event, Env, get_secret, update_status,
}
use kubebird.Kube.Calls
use kubebird.Kube.Action.{State, ok, modify_status}
use kubebird.Kube.Rules.{
  Does, Does-bind, Does-pure, Does-raise, Does-weaken, Does-when, Does-wrap, Does-run,
}
use kubebird.Kube.Traced.{Since, Anything, read, ask_then, written, Does-some, Does-given}
use kubebird.Databases.{
  secret_got, sysdba_password, int32, database_drop_script, sysdba_command, drop_database, drop_all,
  provision_all, orphaned_backups, find_warning, databases_after, pending_databases,
  removed_databases, record_databases, change_databases, reconcile_databases,
}
use kubebird.Databases.Traced.{exec_then}
use kubebird.Databases.Provisioned.{Ran, ProvisionedAll, provision_all-Does}

-- The backup directory was listed, where that is of use.
abbrev pub Listed : Instance → List DatabaseSpec → List Event → List Event → Type 0
Listed i pending l l' =
    if length pending == 0 || is_none (backup_volume_spec i)
    then l' ≡ l
    else Ran (firebird_pod_name i)
        ("sh" ∷ "-c" ∷ ("ls -1 " <> (instance_backup_dir <> " 2>/dev/null || true")) ∷ []) "" l l'

-- DROP DATABASE was run on the file of each name, one after the other.
abbrev pub DroppedAll : String → String → List String → List Event → List Event → Type 0
DroppedAll pod password [] l l' = l' ≡ l
DroppedAll pod password (name ∷ names) l l' =
    (l1 : List Event) × (Ran pod
        (sysdba_command password ++ path_join primary_data_mount_path name ∷ [])
        database_drop_script l l1
      × DroppedAll pod password names l1 l')

-- The Instance with its databases recorded.
abbrev pub recorded : Instance → List String → List DatabaseSpec → String → Instance
recorded i removed pending warning =
    let databases = databases_after i.status.databases removed pending in
    record i {
      status = record i.status {
        databases = databases;
        database_count = int32 (length databases);
        warning = warning;
      };
    }

-- The calls of a change of the databases from the history `l`, to the state `t`: the Secret is got
-- for the password, the backups are listed, the removed databases dropped, the pending ones
-- provisioned, and the status is written with what there is then.
pub record Changed (i : Instance) (removed : List String) (pending : List DatabaseSpec)
    (l : List Event) (t : State) : Type 0 where
  pub secret : Secret
  pub warning : String
  pub listed : List Event
  pub dropped : List Event
  pub provisioned : List Event
  pub was_listed :
      Listed i pending (event (get_secret (sysdba_secret_ref_name i)) (done secret) ∷ l) listed
  pub was_dropped :
      DroppedAll (firebird_pod_name i) (label "password" secret.entries) removed listed dropped
  pub was_provisioned :
      ProvisionedAll i
        (firebird_pod_name i)
        (label "password" secret.entries)
        pending
        dropped
        provisioned
  pub was_recorded :
      t.log
      ≡ event (update_status (recorded i removed pending warning)) (done t.instance) ∷ provisioned

-- The Secret was got, and holds the password.
abbrev Got : Instance → List Event → String → State → Type 0
Got i l password s =
    (secret : Secret) × ((password ≡ label "password" secret.entries)
      × Since i (event (get_secret (sysdba_secret_ref_name i)) (done secret) ∷ l) s)

module _ {env : Env} (i : Instance) where
  secret_got-Does :
      (l : List Event) (r : Reply Secret)
      → Does env
          (Since i (event (get_secret (sysdba_secret_ref_name i)) r ∷ l))
          (secret_got (sysdba_secret_ref_name i) r)
          (Got i l)
          Anything
  unfolding secret_got
  secret_got-Does l (done secret) = Does-pure _ λ s j. (secret, (refl, j))
  secret_got-Does l (fault (not_found m)) = Does-raise _ λ s j. tt
  secret_got-Does l (fault (Calls.exit_code c m)) = Does-raise _ λ s j. tt
  secret_got-Does l (fault (Calls.other m)) = Does-raise _ λ s j. tt

  sysdba_password-Does : (l : List Event) → Does env (Since i l) sysdba_password (Got i l) Anything
  unfolding sysdba_password
  sysdba_password-Does l = read _ (ask_then _ _ λ r. secret_got-Does l r)

  find_warning-Does :
      (pending : List DatabaseSpec) (l : List Event)
      → Does env
          (Since i l)
          (find_warning (firebird_pod_name i) pending)
          (λ _ s. (l' : List Event) × (Listed i pending l l' × Since i l' s))
          Anything
  unfolding find_warning orphaned_backups
  find_warning-Does pending l = read _ (
      Does-when (length pending == 0 || is_none (backup_volume_spec i)) _ _
        (λ h. Does-pure "" λ s j. (l, (rw h refl, j)))
        λ h.
          Does-bind _ _
            (Does-wrap _ _ (
              read _ (
                exec_then _ _ _ _ _
                  λ o fine. Does-pure _ λ s j. (s.log, (rw h (o, (fine, j.1)), (j.0, refl))))))
            λ orphaned. Does-pure _ λ s j. j)

  drop_all-Does :
      (pod password : String) (names : List String) (l : List Event)
      → Does env
          (Since i l)
          (drop_all pod password names)
          (λ _ s. (l' : List Event) × (DroppedAll pod password names l l' × Since i l' s))
          Anything
  unfolding drop_all drop_database
  drop_all-Does pod password [] l = Does-pure tt λ s j. (l, (refl, j))
  drop_all-Does pod password (name ∷ names) l = exec_then _ _ _ _ _ λ o fine.
      Does-weaken (λ s j. j) (λ a s j. (j.0, ((_, ((o, (fine, refl)), j.1.0)), j.1.1)))
        (drop_all-Does pod password names _)

  record_databases-Does :
      (removed : List String) (pending : List DatabaseSpec) (warning : String) (l : List Event)
      → Does env
          (Since i l)
          (record_databases removed pending warning)
          (λ _ t.
            t.log
            ≡ event (update_status (recorded i removed pending warning)) (done t.instance) ∷ l)
          Anything
  unfolding record_databases modify_status
  record_databases-Does removed pending warning l = read _ (
      Does-bind {Q = λ _. Since (recorded i removed pending warning) l} _ _
        (record {
          at = λ s j. (
            ap
                (λ (k : Instance). record k {
                  status = record k.status {
                    databases = databases_after i.status.databases removed pending;
                    database_count =
                        int32 (length (databases_after i.status.databases removed pending));
                    warning = warning;
                  };
                })
                j.0,
            j.1,
          );
        })
        λ _. written (recorded i removed pending warning) l)

  change_databases-Does :
      (removed : List String) (pending : List DatabaseSpec) (l : List Event)
      → Does env
          (Since i l)
          (change_databases removed pending)
          (λ _ t. Changed i removed pending l t)
          Anything
  unfolding change_databases
  change_databases-Does removed pending l =
      Does-bind sysdba_password _ (sysdba_password-Does l) λ password. Does-some λ secret.
        Does-given λ same. read _ (
          Does-bind (find_warning (firebird_pod_name i) pending) _ (find_warning-Does pending _)
            λ warning. Does-some λ listed. Does-given λ was_listed.
              Does-bind (drop_all (firebird_pod_name i) password removed) _
                (drop_all-Does _ password removed listed)
                λ _. Does-some λ dropped. Does-given λ was_dropped.
                  Does-bind (provision_all (firebird_pod_name i) password pending) _
                    (Does-weaken
                      {Q' = λ _ s.
                        (l' : List Event) × (ProvisionedAll i (firebird_pod_name i) password pending
                            dropped l'
                          × Since i l' s)}
                      (λ s j. j) (λ a s j. (s.log, (j.1, (j.0, refl))))
                      (provision_all-Does i _ password pending dropped))
                    λ _. Does-some λ provisioned. Does-given λ was_provisioned.
                      Does-weaken (λ s j. j)
                        (λ a t j. record {
                          secret = secret;
                          warning = warning;
                          listed = listed;
                          dropped = dropped;
                          provisioned = provisioned;
                          was_listed = was_listed;
                          was_dropped =
                              subst (λ p. DroppedAll (firebird_pod_name i) p removed listed dropped)
                                same was_dropped;
                          was_provisioned =
                              subst
                                (λ p.
                                  ProvisionedAll i (firebird_pod_name i) p pending dropped
                                    provisioned)
                                same was_provisioned;
                          was_recorded = j;
                        })
                        (record_databases-Does removed pending warning provisioned))

-- What a reconcile of the databases comes to: nothing, where the server is not ready or the status
-- lists just what the spec wants; else a change.
abbrev pub Settles : StatefulSet → Instance → List Event → State → Type 0
Settles sts i l t =
    if sts.ready_replicas == 0
      || (length (pending_databases i.status i.spec.databases) == 0
          && length (removed_databases i.spec.databases i.status.databases) == 0)
    then Since i l t
    else Changed i (removed_databases i.spec.databases i.status.databases)
        (pending_databases i.status i.spec.databases) l t

reconcile_databases-Does :
    {env : Env} (sts : StatefulSet) (i : Instance) (l : List Event)
    → Does env (Since i l) (reconcile_databases sts) (λ _. Settles sts i l) Anything
unfolding reconcile_databases
reconcile_databases-Does sts i l = read _ (
    Does-when (sts.ready_replicas == 0) _ _ (λ h. Does-pure tt λ s j. rw h j)
      λ h.
        Does-when
          (length (pending_databases i.status i.spec.databases) == 0
            && length (removed_databases i.spec.databases i.status.databases) == 0)
          _ _ (λ k. Does-pure tt λ s j. rw (h, k) j)
          λ k. Does-weaken (λ s j. j) (λ a s j. rw (h, k) j) (change_databases-Does i _ _ l))

-- In whatever environment, where reconcileDatabases returns without an error, it has done nothing, if
-- no replica is ready or no database is pending or removed; else its calls are just these, in this
-- order: the Secret is got for the password, the backup directory is listed if the spec has a backup
-- volume and a database is pending, each removed database is dropped, each pending one is left as it
-- is if its file is there, created if there is no backup volume or no backup of it, and restored from
-- that backup otherwise, with its shadow if it wants one, and the status is written with the
-- databases that are there then. Its commands, but the tests for files, ended without an error.
pub reconcile_databases-Settles :
    (env : Env) (sts : StatefulSet) (s t : State)
    → reconcile_databases sts env s ≡ (ok tt, t)
    → Settles sts s.instance s.log t
reconcile_databases-Settles env sts s t run =
    Does-run (reconcile_databases-Does sts s.instance s.log) s t tt (refl, refl) run
