-- ===== src/Databases/Dropped.antt =====
-- What reconcileDatabases drops.
use kubebird.Prelude.{
  String, Bool, true, false, not, ◌≡◌, refl, List, [], ◌∷◌, ◌++◌, All, and-both, ◌==◌, ◌∙◌, sym,
}
use kubebird.Prelude.Text.{contains, path_join}
use kubebird.Naming.{primary_data_mount_path}
use kubebird.Api.{Instance, DatabaseSpec}
use kubebird.Kube.Objects.{StatefulSet}
use kubebird.Kube.Calls.{Reply, done, fault, Event, event, Env, exec, update_status}
use kubebird.Kube.Action.{State, ask, current, write_status, modify_status, adopt}
use kubebird.Kube.Rules.{
  Keeps, Keeps-bind, Keeps-current, Keeps-wrap, Does, Does-bind, Does-pure, Does-fail, Does-when,
  Does-weaken, Does-still, ended, Ends,
}
use kubebird.Databases.{
  database_drop_script, database_names, sysdba_command, drop_database, removed_databases,
  pending_databases, record_databases, change_databases, reconcile_databases,
}
use kubebird.Databases.Keeps.{
  IsUndropping, exec_in_pod-Keeps_from, sysdba_password-Keeps, drop_all-Keeps, provision_all-Keeps,
  find_warning-Keeps,
}
use kubebird.Databases.Names.{contains-keep_if}

-- A command that drops a database, with that script as its input, connects to one that is not wanted.
abbrev pub DropsUnwanted : List String → Event → Type 0
DropsUnwanted wanted (event (exec pod command stdin) r) =
    stdin ≡ database_drop_script
    → (password : String) × (name : String) × (contains wanted name ≡ false)
      × (command ≡ sysdba_command password ++ path_join primary_data_mount_path name ∷ [])
DropsUnwanted wanted _ = Unit

abbrev pub SparesWanted : List String → List Event → Type 0
SparesWanted wanted log = All (DropsUnwanted wanted) log

module _ (env : Env) (i : Instance) where
  abbrev wanted : List String
  wanted = database_names i.spec.databases

  abbrev Spared : State → Type 0
  Spared s = SparesWanted wanted s.log

  abbrev Still : State → Type 0
  Still s = (s.instance ≡ i) × Spared s

  Still-IsUndropping : IsUndropping env Still
  unfolding ask
  Still-IsUndropping = record {
    secret = λ name. record { at = λ s j. (j.0, (tt, j.1)) };
    run = λ pod command stdin h. record { at = λ s j. (j.0, ((λ e. absurd (h e)), j.1)) };
  }

  drop_exec-Keeps :
      (pod password name : String)
      → contains wanted name ≡ false
      → Keeps env Still (
          ask (
            exec pod
              (sysdba_command password ++ path_join primary_data_mount_path name ∷ [])
              database_drop_script))
  unfolding ask
  drop_exec-Keeps pod password name h = record {
    at = λ s j. (j.0, ((λ e. (password, name, h, refl)), j.1));
  }

  drop_database-Keeps :
      (pod password name : String)
      → contains wanted name ≡ false
      → Keeps env Still (drop_database pod password name)
  unfolding drop_database
  drop_database-Keeps pod password name h =
      Keeps-wrap _ _ (exec_in_pod-Keeps_from pod _ _ (drop_exec-Keeps pod password name h))

  removed-unwanted :
      (name : String)
      → contains (removed_databases i.spec.databases i.status.databases) name ≡ true
      → contains wanted name ≡ false
  unfolding removed_databases
  removed-unwanted name h =
      negated (contains wanted name)
        (and-both (contains i.status.databases name) (not (contains wanted name)) (
          sym (contains-keep_if (λ name. not (contains wanted name)) i.status.databases name)
          ∙ h)).1
    where
      negated : (b : Bool) → not b ≡ true → b ≡ false
      negated true h = cc
      negated false h = refl

  write_status-Keeps : Keeps env Spared write_status
  unfolding write_status
  write_status-Keeps = record {
    at = λ s j. answered s (env.reply s.log (update_status s.instance)) j;
  }
    where
      answered :
          (s : State) (r : Reply Instance)
          → Spared s
          → Ends (λ (_ : Unit {0}). Spared) Spared (adopt r s)
      answered s (done k) j = (tt, j)
      answered s (fault f) j = (tt, j)

  record_databases-Keeps :
      (removed : List String) (pending : List DatabaseSpec) (warning : String)
      → Keeps env Spared (record_databases removed pending warning)
  unfolding record_databases modify_status
  record_databases-Keeps removed pending warning =
      Keeps-bind current _ Keeps-current
        λ k. Keeps-bind _ _ (record { at = λ s j. j }) λ _. write_status-Keeps

  change_databases-Does :
      Does env Still
        (change_databases
          (removed_databases i.spec.databases i.status.databases)
          (pending_databases i.status i.spec.databases))
        (λ _. Spared)
        Spared
  unfolding change_databases
  change_databases-Does =
      Does-bind _ _ (Does-fail _ (λ s j. j.1) (sysdba_password-Keeps Still-IsUndropping))
        λ password. Does-bind current _ (Does-fail current (λ s j. j.1) Keeps-current) λ k.
          Does-bind _ _ (Does-fail _ (λ s j. j.1) (find_warning-Keeps Still-IsUndropping _ _))
            λ warning.
              Does-bind _ _
                (Does-fail _ (λ s j. j.1)
                  (drop_all-Keeps Still-IsUndropping _ password _
                    λ name h. drop_database-Keeps _ password name (removed-unwanted name h)))
                λ _.
                  Does-bind _ _
                    (Does-fail _ (λ s j. j.1) (provision_all-Keeps Still-IsUndropping _ password _))
                    λ _. Does-weaken (λ s j. j.1) (λ a s j. j) (record_databases-Keeps _ _ warning)

  reconcile_databases-Does :
      (sts : StatefulSet) → Does env Still (reconcile_databases sts) (λ _. Spared) Spared
  unfolding reconcile_databases
  reconcile_databases-Does sts =
      Does-still i _ (λ s j. j.0)
        (Does-when (sts.ready_replicas == 0) _ _ (λ h. Does-pure tt λ s j. j.1)
          λ _. Does-when _ _ _ (λ h. Does-pure tt λ s j. j.1) λ _. change_databases-Does)

-- In whatever environment, a command that reconcileDatabases runs with the script that drops a
-- database connects to the path of a name that the spec lacks, if the commands before do.
pub reconcile_databases-SparesWanted :
    (env : Env) (sts : StatefulSet) (s : State)
    → SparesWanted (database_names s.instance.spec.databases) s.log
    → SparesWanted (database_names s.instance.spec.databases) (reconcile_databases sts env s).1.log
reconcile_databases-SparesWanted env sts s h =
    let (r, t) = reconcile_databases sts env s in
    ended (Spared env s.instance) r t ((reconcile_databases-Does env s.instance sts).at s (refl, h))
