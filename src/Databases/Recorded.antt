-- ===== src/Databases/Recorded.antt =====
-- What reconcileDatabases records: status.databases is the spec's databases afterwards.
use kubebird.Prelude.{
  String, true, false, ◌&&◌, ◌≡◌, refl, sym, ap, ◌∙◌, ◌==◌, if◌then◌else◌, length, and-both,
}
use kubebird.Prelude.Text.{contains}
use kubebird.Api.{Instance}
use kubebird.Kube.Objects.{StatefulSet}
use kubebird.Kube.Calls.{Env}
use kubebird.Kube.Action.{Action, State, ok, pure, current, modify_status}
use kubebird.Kube.Rules.{
  Does, Does-bind, Does-weaken, Does-when, Does-pure, Does-fail, current-Does, Does-still, Does-run,
  Keeps-current,
}
use kubebird.Kube.Stable.{IsQuiet}
use kubebird.Kube.Honest.{IsHonest}
use kubebird.Status.Settled.{written_instance-Does}
use kubebird.Databases.{
  int32, database_names, pending_databases, removed_databases, databases_after, record_databases,
  change_databases, reconcile_databases,
}
use kubebird.Databases.Names.{after-contains, empty, settled-listed}
use kubebird.Databases.Keeps.{
  quiet-IsUndropping, drop_database-Keeps, sysdba_password-Keeps, find_warning-Keeps,
  drop_all-Keeps, provision_all-Keeps,
}

-- The status lists just the databases of the spec.
abbrev pub Lists : Instance → Type 0
Lists i =
    (x : String) → contains i.status.databases x ≡ contains (database_names i.spec.databases) x

-- The status lists just the databases of the spec, and counts them.
pub record Matches (i : Instance) : Type 0 where
  pub listed : Lists i
  pub counted : i.status.database_count ≡ int32 (length i.status.databases)

Matches-cong : (i i' : Instance) → i'.spec ≡ i.spec → i'.status ≡ i.status → Matches i → Matches i'
Matches-cong i i' hs ht m = record {
  listed = λ x. rw (hs, ht) (m.listed x);
  counted = rw ht m.counted;
}

module _ {env : Env} (honest : IsHonest env) (i : Instance) where
  abbrev Still : State → Type 0
  Still s = s.instance ≡ i

  Still-IsQuiet : IsQuiet env Still
  Still-IsQuiet = record { quiet = λ s c r h j. j }

  abbrev Anything : State → Type 0
  Anything s = Unit

  record_databases-Does :
      (warning : String)
      → Does env Still
          (record_databases
            (removed_databases i.spec.databases i.status.databases)
            (pending_databases i.status i.spec.databases)
            warning)
          (λ _ s. Matches s.instance)
          Anything
  unfolding record_databases modify_status
  record_databases-Does warning =
      Does-bind current _ (Does-fail current (λ s j. tt) current-Does) λ i'.
        Does-bind _ _
          (record {
            at = λ s j. record {
              listed = λ x.
                  ap
                    (λ (k : Instance).
                      contains
                        (databases_after k.status.databases
                          (removed_databases i.spec.databases i.status.databases)
                          (pending_databases i.status i.spec.databases))
                        x)
                    (j.1 ∙ j.0)
                  ∙ after-contains i.status i.spec.databases x
                  ∙ ap (λ (k : Instance). contains (database_names k.spec.databases) x) (sym j.0);
              counted = refl;
            };
          })
          λ _. written_instance-Does honest Matches Matches-cong

  change_databases-Does :
      Does env Still
        (change_databases
          (removed_databases i.spec.databases i.status.databases)
          (pending_databases i.status i.spec.databases))
        (λ _ s. Matches s.instance)
        Anything
  unfolding change_databases
  change_databases-Does =
      Does-bind _ _
        (Does-fail _ (λ s j. tt) (sysdba_password-Keeps (quiet-IsUndropping Still-IsQuiet)))
        λ password. Does-bind current _ (Does-fail current (λ s j. tt) Keeps-current) λ i'.
          Does-bind _ _
            (Does-fail _ (λ s j. tt) (find_warning-Keeps (quiet-IsUndropping Still-IsQuiet) _ _))
            λ warning.
              Does-bind _ _
                (Does-fail _ (λ s j. tt)
                  (drop_all-Keeps (quiet-IsUndropping Still-IsQuiet) _ password _
                    λ name e. drop_database-Keeps Still-IsQuiet _ password name))
                λ _.
                  Does-bind _ _
                    (Does-fail _ (λ s j. tt)
                      (provision_all-Keeps (quiet-IsUndropping Still-IsQuiet) _ password _))
                    λ _. record_databases-Does warning

  -- What reconcileDatabases does of the Instance that it reads.
  abbrev choose : StatefulSet → Instance → Action (Unit {0})
  choose sts k =
      if sts.ready_replicas == 0
      then pure tt
      else (if length (pending_databases k.status k.spec.databases) == 0
            && length (removed_databases k.spec.databases k.status.databases) == 0
          then pure tt
          else change_databases (removed_databases k.spec.databases k.status.databases)
              (pending_databases k.status k.spec.databases))

  -- What holds of the Instance once its databases are recorded, and where nothing is to change.
  pub reconcile_databases-Does :
      (Q : Instance → Type 0) (sts : StatefulSet)
      → (sts.ready_replicas == 0) ≡ false
      → ((k : Instance) → Matches k → Q k)
      → (Lists i → Q i)
      → Does env Still (reconcile_databases sts) (λ _ s. Q s.instance) Anything
  unfolding reconcile_databases
  reconcile_databases-Does Q sts ready recorded settled =
      Does-still i (choose sts) (λ s j. j)
        (Does-when (sts.ready_replicas == 0) _ _ (λ h. not_ready h)
          λ _.
            Does-when _ _ _
              (λ h. Does-pure tt λ s j.
                let (hp, hr) = and-both _ _ h in
                rw j (
                  settled
                    λ x. settled-listed i.status i.spec.databases x (empty _ hp) (empty _ hr)))
              λ _. Does-weaken (λ s j. j) (λ a s m. recorded s.instance m) change_databases-Does)
    where
      not_ready : {P : Type 0} → (sts.ready_replicas == 0) ≡ true → P
      not_ready h = cc

-- Where the server is ready, the status counts its databases, and the API server answers a status
-- write with the object written: if reconcileDatabases returns without an error, status.databases
-- lists a name just when the spec has a database of that name, and status.databaseCount is the int32
-- of its length.
pub reconcile_databases-Matches :
    {env : Env}
    → IsHonest env
    → (sts : StatefulSet) (s t : State) → (sts.ready_replicas == 0) ≡ false
    → s.instance.status.database_count ≡ int32 (length s.instance.status.databases)
    → reconcile_databases sts env s ≡ (ok tt, t)
    → Matches t.instance
reconcile_databases-Matches honest sts s t ready counted run =
    Does-run
      (reconcile_databases-Does honest s.instance Matches sts ready (λ k m. m)
        λ listed. record { listed = listed; counted = counted })
      s t tt refl run
