-- ===== src/Databases/Provisioned.antt =====
-- The commands of a database that was provisioned.
use kubebird.Prelude.{
  String, ◌<>◌, Bool, true, false, not, ◌≡◌, refl, sym, subst, none, some, List, [], ◌∷◌,
  if◌then◌else◌, is_none,
}
use kubebird.Prelude.Text.{path_join}
use kubebird.Api.{Instance, DatabaseSpec}
use kubebird.Naming.{
  primary_data_mount_path, instance_backup_dir, backup_file_name, backup_volume_spec,
  sysdba_username,
}
use kubebird.Kube.Calls.{Reply, done, Event, event, Env, Output, exec}
use kubebird.Kube.Action.{State, pure, ◌>>◌, wrap}
use kubebird.Kube.Rules.{Does, Does-bind, Does-pure, Does-weaken, Does-when, Does-wrap}
use kubebird.Kube.Traced.{Since, Anything, read, Does-some, Does-given}
use kubebird.Databases.{
  exec_in_pod, shadow_line, restore_shadow, restore_database_if_backed_up, sysdba_command,
  database_create_script, create_database, restore_or_create, provision_database, provision_all,
}
use kubebird.Databases.Traced.{ending, exec_then, test_then}

abbrev database_path : DatabaseSpec → String
database_path db = path_join primary_data_mount_path db.name

abbrev backup_path : DatabaseSpec → String
backup_path db = path_join instance_backup_dir (backup_file_name db.name)

abbrev restore_command : String → DatabaseSpec → List String
restore_command password db =
    "gbak"
    ∷ "-create"
    ∷ "-verify"
    ∷ "-user"
    ∷ sysdba_username
    ∷ "-password"
    ∷ password
    ∷ backup_path db
    ∷ database_path db
    ∷ []

-- isql on the database.
abbrev connect_command : String → DatabaseSpec → List String
connect_command password db =
    "isql" ∷ "-user" ∷ sysdba_username ∷ "-password" ∷ password ∷ database_path db ∷ []

unfoldable pub shadow_script : DatabaseSpec → String
unfolding shadow_line
shadow_script db = shadow_line db.name <> "QUIT;\n"

-- A command of the pod that ended without an error, after `l`.
abbrev pub Ran : String → List String → String → List Event → List Event → Type 0
Ran pod command stdin l l' =
    (o : Output) × ((o.error ≡ none) × (l' ≡ event (exec pod command stdin) (done o) ∷ l))

-- A test for a file that told whether it is there.
abbrev pub Told : Bool → String → String → List Event → List Event → Type 0
Told found pod path l l' =
    (r : Reply Output) × ((ending r ≡ some found)
      × (l' ≡ event (exec pod ("test" ∷ "-f" ∷ path ∷ []) "") r ∷ l))

-- The commands for a database, from the history `l` to its end. Its file is looked for, and left as
-- it is where it is there. Else the database is created, where the spec has no backup volume or the
-- volume no backup of it, or restored from that backup, with its shadow where the spec wants one.
pub data Provisioned (i : Instance) (pod password : String) (db : DatabaseSpec) (l : List Event)
    : List Event → Type 0 where
  present :
      (l1 : List Event) → Told true pod (database_path db) l l1 → Provisioned i pod password db l l1
  created :
      (l1 l2 : List Event)
      → Told false pod (database_path db) l l1
      → is_none (backup_volume_spec i) ≡ true
      → Ran pod (sysdba_command password) (database_create_script db) l1 l2
      → Provisioned i pod password db l l2
  without_backup :
      (l1 l2 l3 : List Event)
      → Told false pod (database_path db) l l1
      → is_none (backup_volume_spec i) ≡ false
      → Told false pod (backup_path db) l1 l2
      → Ran pod (sysdba_command password) (database_create_script db) l2 l3
      → Provisioned i pod password db l l3
  restored :
      (l1 l2 l3 : List Event)
      → Told false pod (database_path db) l l1
      → is_none (backup_volume_spec i) ≡ false
      → Told true pod (backup_path db) l1 l2
      → db.shadow ≡ false
      → Ran pod (restore_command password db) "" l2 l3
      → Provisioned i pod password db l l3
  mirrored :
      (l1 l2 l3 l4 : List Event)
      → Told false pod (database_path db) l l1
      → is_none (backup_volume_spec i) ≡ false
      → Told true pod (backup_path db) l1 l2
      → db.shadow ≡ true
      → Ran pod (restore_command password db) "" l2 l3
      → Ran pod (connect_command password db) (shadow_script db) l3 l4
      → Provisioned i pod password db l l4

pub data ProvisionedAll (i : Instance) (pod password : String)
    : List DatabaseSpec → List Event → List Event → Type 0 where
  finish : (l : List Event) → ProvisionedAll i pod password [] l l
  provision :
      {db : DatabaseSpec} {dbs : List DatabaseSpec} {l l' l'' : List Event}
      → Provisioned i pod password db l l'
      → ProvisionedAll i pod password dbs l' l''
      → ProvisionedAll i pod password (db ∷ dbs) l l''

abbrev Filled : Instance → String → String → DatabaseSpec → List Event → State → Type 0
Filled i pod password db l s = (s.instance ≡ i) × Provisioned i pod password db l s.log

-- Whether the database was restored.
abbrev Restored :
    Instance → String → String → DatabaseSpec → List Event → List Event → Bool → State → Type 0
Restored i pod password db l l1 true s = Filled i pod password db l s
Restored i pod password db l l1 false s =
    (l2 : List Event) × (Told false pod (backup_path db) l1 l2 × Since i l2 s)

module _ {env : Env} (i : Instance) (pod password : String) (db : DatabaseSpec)
    (l : List Event) where
  create_database-Does :
      (l' : List Event)
      → ((l'' : List Event)
          → Ran pod (sysdba_command password) (database_create_script db) l' l''
          → Provisioned i pod password db l l'')
      → Does env
          (Since i l')
          (create_database pod password db)
          (λ _. Filled i pod password db l)
          Anything
  unfolding create_database
  create_database-Does l' h =
      exec_then _ _ _ _ _ λ o fine. Does-pure tt λ s j. (j.0, h s.log (o, (fine, j.1)))

  restore_shadow-Does :
      (l' : List Event)
      → (db.shadow ≡ false → Provisioned i pod password db l l')
      → ((l'' : List Event)
          → db.shadow ≡ true
          → Ran pod (connect_command password db) (shadow_script db) l' l''
          → Provisioned i pod password db l l'')
      → Does env
          (Since i l')
          (restore_shadow pod password db)
          (λ b s. (b ≡ true) × Filled i pod password db l s)
          Anything
  unfolding restore_shadow shadow_script
  restore_shadow-Does l' plain mirror =
      Does-when db.shadow _ _
        (λ h.
          exec_then _ _ _ _ _
            λ o fine. Does-pure true λ s j. (refl, (j.0, mirror s.log h (o, (fine, j.1)))))
        λ h.
          Does-pure true
            λ s j. (refl, (j.0, subst (Provisioned i pod password db l) (sym j.1) (plain h)))

  restore-Does :
      (l1 : List Event)
      → Told false pod (database_path db) l l1
      → is_none (backup_volume_spec i) ≡ false
      → Does env
          (Since i l1)
          (restore_database_if_backed_up pod password db)
          (Restored i pod password db l l1)
          Anything
  unfolding restore_database_if_backed_up
  restore-Does l1 missing volume = test_then _ _ _ _ λ found r told. looked found r told
    where
      looked :
          (found : Bool) (r : Reply Output)
          → ending r ≡ some found
          → Does env
              (Since i (event (exec pod ("test" ∷ "-f" ∷ backup_path db ∷ []) "") r ∷ l1))
              (if not found then pure false else (do
                wrap "gbak restore failed: " (exec_in_pod pod (restore_command password db) "")
                restore_shadow pod password db))
              (Restored i pod password db l l1)
              Anything
      looked false r told = Does-pure false λ s j. (s.log, ((r, (told, j.1)), (j.0, refl)))
      looked true r told = exec_then _ _ _ _ _ λ o fine.
          Does-weaken (λ s j. j)
            (λ b s j. subst (λ x. Restored i pod password db l l1 x s) (sym j.0) j.1)
            (restore_shadow-Does _
              (λ h. restored _ _ _ missing volume (r, (told, refl)) h (o, (fine, refl)))
              λ l4 h ran.
                mirrored _ _ _ l4 missing volume (r, (told, refl)) h (o, (fine, refl)) ran)

  restore_or_create-Does :
      (l1 : List Event)
      → Told false pod (database_path db) l l1
      → Does env
          (Since i l1)
          (restore_or_create pod password db)
          (λ _. Filled i pod password db l)
          Anything
  unfolding restore_or_create
  restore_or_create-Does l1 missing = read _ (
      Does-when (is_none (backup_volume_spec i)) _ _
        (λ none. create_database-Does l1 λ l2 ran. created l1 l2 missing none ran)
        λ volume.
          Does-bind _ (λ restored. if restored then pure tt else create_database pod password db)
            (Does-wrap _ _ (restore-Does l1 missing volume)) (otherwise volume))
    where
      otherwise :
          is_none (backup_volume_spec i) ≡ false
          → (restored : Bool)
          → Does env
              (Restored i pod password db l l1 restored)
              (if restored then pure tt else create_database pod password db)
              (λ _. Filled i pod password db l)
              Anything
      otherwise volume true = Does-pure tt λ s j. j
      otherwise volume false = Does-some λ l2. Does-given λ absent.
          create_database-Does l2 λ l3 ran. without_backup l1 l2 l3 missing volume absent ran

  provision_database-Does :
      Does env
        (Since i l)
        (provision_database pod password db)
        (λ _. Filled i pod password db l)
        Anything
  unfolding provision_database
  provision_database-Does = test_then _ _ _ _ λ found r told. looked found r told
    where
      looked :
          (found : Bool) (r : Reply Output)
          → ending r ≡ some found
          → Does env
              (Since i (event (exec pod ("test" ∷ "-f" ∷ database_path db ∷ []) "") r ∷ l))
              (if found then pure tt else restore_or_create pod password db)
              (λ _. Filled i pod password db l)
              Anything
      looked true r told = Does-pure tt λ s j. (j.0, present s.log (r, (told, j.1)))
      looked false r told = restore_or_create-Does _ (r, (told, refl))

pub provision_all-Does :
    {env : Env} (i : Instance) (pod password : String) (dbs : List DatabaseSpec) (l : List Event)
    → Does env
        (Since i l)
        (provision_all pod password dbs)
        (λ _ s. (s.instance ≡ i) × ProvisionedAll i pod password dbs l s.log)
        Anything
unfolding provision_all
provision_all-Does i pod password [] l =
    Does-pure tt λ s j. (j.0, subst (ProvisionedAll i pod password [] l) (sym j.1) (finish l))
provision_all-Does i pod password (db ∷ dbs) l =
    Does-bind (provision_database pod password db) _
      (Does-weaken
        {Q' = λ _ s. (l' : List Event) × (Provisioned i pod password db l l' × Since i l' s)}
        (λ s j. j) (λ a s j. (s.log, (j.1, (j.0, refl))))
        (provision_database-Does i pod password db l))
      λ _. Does-some λ l'. Does-given λ h.
        Does-weaken (λ s j. j) (λ a s j. (j.0, provision h j.1))
          (provision_all-Does i pod password dbs l')
