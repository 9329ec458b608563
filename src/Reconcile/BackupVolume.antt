-- ===== src/Reconcile/BackupVolume.antt =====
-- What a reconcile does to the backup volume.
use kubebird.Prelude.{
  String, ◌<>◌, true, not, ◌≡◌, ◌≢◌, refl, ap, ◌∙◌, List, ◌∷◌, inl, inr, All, arith,
}
use kubebird.Api.{Instance}
use kubebird.Naming.{primary_pvc_name, shadow_pvc_name, finalizer_name, backup_volume_name}
use kubebird.Naming.Distinct.{suffixes_differ}
use kubebird.Kube.Calls.{
  Call, Answer, Reply, done, fault, not_found, Event, event, Env, delete_pvc, update_instance,
  update_status, get_instance,
}
use kubebird.Kube.Calls
use kubebird.Kube.Action.{
  Action, State, pure, raise, ◌>>=◌, wrap, catch, ask, call, current, become, asks,
}
use kubebird.Kube.Rules.{
  Does, Does-bind, current-Does, asks-Does, Reply-cases, ended, Does-after, Keeps, Keeps-bind,
  Keeps-then, Keeps-pure, Keeps-raise, Keeps-wrap, Keeps-catch, Keeps-current, Keeps-asks, Keeps-if,
  keeps_rules,
}
use kubebird.Kube.Stable.{IsStable, IsDetached, is_plain}
use kubebird.Kube.Honest.{IsFaithful}
use kubebird.Status.Keeps.{set_phase-Keeps, set_deletion_message-Keeps}
use kubebird.Storage.{delete_volume, release_primary_and_shadow_storage}
use kubebird.Storage.Keeps.{unless_missing-Keeps}
use kubebird.Backup.Keeps.{backup_databases-Keeps}
use kubebird.Deletion.{
  back_up_if_needed, remove_finalizer, update_instance_with, reconcile_deletion,
}
use kubebird.Reconcile.{
  settled, ensure_finalizer, reconcile_live, instance_got, reconcile, reconcile_instance,
}
use kubebird.Upgrade.Keeps.{finish_major_upgrade-Keeps, reconcile_major_upgrade-Keeps}
use kubebird.Reconcile.Keeps.{reconcile_instance-Keeps, conclude-Keeps}

-- The call deletes no volume, or another than the backup volume of the Instance of that name.
abbrev pub Spares : String → Call → Type 0
Spares n (delete_pvc m) = m ≢ n <> ("-" <> backup_volume_name)
Spares n _ = Unit

abbrev pub SparesEvent : String → Event → Type 0
SparesEvent n (event c r) = Spares n c

-- Every call so far spares it.
abbrev pub SparesBackup : String → List Event → Type 0
SparesBackup n log = All (SparesEvent n) log

plain-Spares : (n : String) (c : Call) → is_plain c ≡ true → Spares n c
plain-Spares n (delete_pvc m) h = cc
plain-Spares n _ h = tt

abbrev Holds : String → State → Type 0
Holds n s = (s.instance.name ≡ n) × SparesBackup n s.log

module _ {env : Env} (faithful : IsFaithful env) (n : String) where
  Holds-stable : IsStable env (Holds n)
  Holds-stable = record {
    plain = λ s c r h j. (j.0, (plain-Spares n c h, j.1));
    restatus = λ s change h j. j;
    refused = λ s f j. (j.0, (tt, j.1));
    written = λ s i e j. (faithful.honest.status_name s.log s.instance i e ∙ j.0, (tt, j.1));
  }

  Holds-detached : IsDetached env (Holds n)
  Holds-detached = record { stable = Holds-stable; any_status = λ s change j. j }

  delete_volume-Holds :
      (m : String) → m ≢ n <> ("-" <> backup_volume_name) → Keeps env (Holds n) (delete_volume m)
  unfolding delete_volume ask
  delete_volume-Holds m h =
      Keeps-bind (ask (delete_pvc m)) _ (record { at = λ s j. (j.0, (h, j.1)) })
        λ r. unless_missing-Keeps _ r

  -- An action that takes the Instance is run on one of that name.
  with_current :
      (f : Instance → Action (Unit {0}))
      → ((i : Instance) → i.name ≡ n → Keeps env (Holds n) (f i))
      → Keeps env (Holds n) (current >>= f)
  with_current f k =
      Does-bind current f current-Does
        λ i. record { at = λ s j. (k i (ap (λ (x : Instance). x.name) j.1 ∙ j.0.0)).at s j.0 }

  primary-ne-backup :
      (i : Instance) → i.name ≡ n → primary_pvc_name i ≢ n <> ("-" <> backup_volume_name)
  unfolding primary_pvc_name
  primary-ne-backup i e = rw e (suffixes_differ n "-primary" "-backup" refl)

  shadow-ne-backup :
      (i : Instance) → i.name ≡ n → shadow_pvc_name i ≢ n <> ("-" <> backup_volume_name)
  unfolding shadow_pvc_name
  shadow-ne-backup i e = rw e (suffixes_differ n "-shadow" "-backup" refl)

  release-Holds : Keeps env (Holds n) release_primary_and_shadow_storage
  unfolding release_primary_and_shadow_storage
  release-Holds = Keeps-then _ _ (set_deletion_message-Keeps Holds-stable _) (
      with_current _ λ i e. Keeps-then _ _ (delete_volume-Holds _ (primary-ne-backup i e)) (
        with_current _
          λ i' e'. search (keeps_rules, delete_volume-Holds _ (shadow-ne-backup i' e'))))

  update_instance_with-Holds :
      (i : Instance) (text : String)
      → i.name ≡ n
      → Keeps env (Holds n) (update_instance_with i text)
  unfolding update_instance_with wrap call ask ◌>>=◌ become pure raise
  update_instance_with-Holds i text e = record {
    at = λ s j. elim (Reply-cases (env.reply s.log (update_instance i))) [
      | inl (i', q) ↦ ground (arith, q, faithful.update_name s.log i i' q)
      | inr (f, q) ↦ ground (arith, q)
    ];
  }

  ensure_finalizer-Holds : Keeps env (Holds n) ensure_finalizer
  unfolding ensure_finalizer
  ensure_finalizer-Holds = with_current _ λ i e.
      Keeps-bind (asks λ env. env.contains_finalizer) _ (Keeps-asks _) λ contains.
        Does-bind (asks λ env. env.add_finalizer) _ (asks-Does _) λ add. record {
          at = λ s j.
              (Keeps-if (contains i finalizer_name) _ _ (λ _. Keeps-pure tt)
                  (λ _. update_instance_with-Holds _ _ (
                    ap (λ f. (f i finalizer_name).name) j.1
                    ∙ faithful.add_name i finalizer_name
                    ∙ e))).at
                s j.0;
        }

  back_up_if_needed-Holds : Keeps env (Holds n) back_up_if_needed
  unfolding back_up_if_needed
  back_up_if_needed-Holds = search (keeps_rules, backup_databases-Keeps Holds-stable)

  remove_finalizer-Holds : Keeps env (Holds n) remove_finalizer
  unfolding remove_finalizer
  remove_finalizer-Holds = Keeps-then _ _ (set_deletion_message-Keeps Holds-stable _) (
      with_current _ λ i e. Does-bind (asks λ env. env.remove_finalizer) _ (asks-Does _) λ remove.
        record {
          at = λ s j.
              (update_instance_with-Holds _ _ (
                  ap (λ f. (f i finalizer_name).name) j.1
                  ∙ faithful.remove_name i finalizer_name
                  ∙ e)).at
                s j.0;
        })

  reconcile_deletion-Holds : Keeps env (Holds n) reconcile_deletion
  unfolding reconcile_deletion
  reconcile_deletion-Holds = Keeps-bind current _ Keeps-current λ i.
      Keeps-bind (asks λ env. env.contains_finalizer) _ (Keeps-asks _) λ contains.
        Keeps-if (not (contains i finalizer_name)) _ _ (λ _. Keeps-pure tt)
          λ _. Keeps-then _ _ (Keeps-wrap _ _ (set_phase-Keeps Holds-stable _)) (
            Keeps-then _ _ (set_deletion_message-Keeps Holds-stable _) (
              Keeps-then _ _ back_up_if_needed-Holds
                (Keeps-then _ _ release-Holds remove_finalizer-Holds)))

  reconcile_live-Holds : Keeps env (Holds n) reconcile_live
  unfolding reconcile_live
  reconcile_live-Holds = Keeps-then _ _ ensure_finalizer-Holds (
      Keeps-bind (catch reconcile_instance) _
        (Keeps-catch _ (
          reconcile_instance-Keeps Holds-stable (finish_major_upgrade-Keeps Holds-detached)
            (reconcile_major_upgrade-Keeps Holds-detached release-Holds)))
        λ r. conclude-Keeps Holds-stable r)

  Spared : State → Type 0
  Spared s = SparesBackup n s.log

  handle-Spared :
      (i : Instance) → i.name ≡ n → Does env Spared (instance_got (done i)) (λ _. Spared) Spared
  unfolding instance_got become Spared
  handle-Spared i e =
      Does-bind (become i) _ (record { at = λ s j. (e, j) })
        λ _.
          Does-after env _ (λ s j. j.1)
            (Keeps-if i.deleting _ _ (λ _. Keeps-then _ _ reconcile_deletion-Holds (Keeps-pure _))
              (λ _. reconcile_live-Holds))

  instance_got-Spared :
      (r : Reply Instance)
      → ((i : Instance) → r ≡ done i → i.name ≡ n)
      → Keeps env Spared (instance_got r)
  unfolding instance_got
  instance_got-Spared (done i) h = handle-Spared i (h i refl)
  instance_got-Spared (fault (Calls.not_found m)) h = Keeps-pure settled
  instance_got-Spared (fault (Calls.exit_code c m)) h = Keeps-raise _
  instance_got-Spared (fault (Calls.other m)) h = Keeps-raise _

-- If the API server answers a write with the object written and a read of an Instance with one of
-- that name, and AddFinalizer and RemoveFinalizer keep the name, then a reconcile of an Instance
-- adds to a history that does not delete that Instance's backup volume no call that deletes it.
pub reconcile-SparesBackup :
    {env : Env}
    → IsFaithful env
    → (n : String) (s : State) → SparesBackup n s.log
    → SparesBackup n (reconcile n env s).1.log
unfolding reconcile ◌>>=◌ ask Spared
reconcile-SparesBackup {env} faithful n s j =
    let r = env.reply s.log (get_instance n) in
    let s' = record s { log = event (get_instance n) r ∷ s.log } in
    let (x, t) = instance_got r env s' in
    ended (Spared faithful n) x t
      ((instance_got-Spared faithful n r (faithful.get_name s.log n)).at s' (tt, j))
