-- ===== src/Deletion/Ordered.antt =====
-- The order in which the deletion of an Instance backs up, releases its volumes and lets the
-- Instance go.
use kubebird.Prelude.{
  String, ◌<>◌, Bool, true, false, not, ◌≡◌, refl, ap, ◌∙◌, List, [], ◌∷◌, ◌⊎◌, inl, inr,
  if◌then◌else◌, is_none, arith,
}
use kubebird.Api.{Instance, InstanceStatus}
use kubebird.Naming.{
  primary_pvc_name, shadow_pvc_name, finalizer_name, backup_volume_spec, backup_on_delete,
}
use kubebird.Kube.Calls.{
  Call, Answer, Reply, done, fault, not_found, Event, event, Env, delete_pvc, update_instance,
}
use kubebird.Kube.Calls
use kubebird.Kube.Action.{State, pure, raise, ◌>>=◌, wrap, call, ask, current, become, asks}
use kubebird.Kube.Rules.{
  Does, Does-bind, Does-if, Does-pure, Does-raise, Does-weaken, Does-fail, current-Does, ended,
  Keeps, Keeps-asks, Keeps-current, Keeps-bind, Keeps-pure, Keeps-wrap, Reply-cases,
}
use kubebird.Kube.Stable.{IsStable, is_plain}
use kubebird.Kube.Honest.{IsHonest}
use kubebird.Status.Keeps.{set_phase-Keeps, set_deletion_message-Keeps}
use kubebird.Storage.{delete_volume, release_primary_and_shadow_storage, unless_missing}
use kubebird.Storage.Keeps.{unless_missing-Keeps}
use kubebird.Backup.{backup_databases}
use kubebird.Backup.Evidence.{HasBackup, backup_databases-Does}
use kubebird.Deletion.Needed.{NeedsBackup, needs_final_backup-NeedsBackup}
use kubebird.Deletion.{
  databases_version, needs_final_backup, back_up_if_needed, remove_finalizer, update_instance_with,
  reconcile_deletion,
}

-- The event shows that the deletion of the primary volume of Instance `n` was accepted, or found it
-- gone.
abbrev IsRelease : String → Event → Type 0
IsRelease n (event (delete_pvc m) (done x)) = m ≡ n <> "-primary"
IsRelease n (event (delete_pvc m) (fault (not_found text))) = m ≡ n <> "-primary"
IsRelease n _ = ⊥

abbrev pub HasRelease : String → List Event → Type 0
HasRelease n [] = ⊥
HasRelease n (e ∷ log) = IsRelease n e ⊎ HasRelease n log

-- The call may follow the history: a volume is deleted on evidence of a backup, where one is
-- needed, and the Instance is written where its primary volume is gone.
abbrev pub May : Type 0 → String → Call → List Event → Type 0
May needed n (delete_pvc m) log = needed → HasBackup n log
May needed n (update_instance i) log = HasRelease n log
May needed n _ log = Unit

abbrev pub InOrder : Type 0 → String → List Event → Type 0
InOrder needed n [] = Unit
InOrder needed n (event c r ∷ log) = May needed n c log × InOrder needed n log

plain-May :
    (needed : Type 0) (n : String) (c : Call) (log : List Event)
    → is_plain c ≡ true
    → May needed n c log
plain-May needed n (delete_pvc m) log h = cc
plain-May needed n (update_instance i) log h = cc
plain-May needed n _ log h = tt

-- Whether a backup is needed is read off the spec and status.upgrade.
needs-cong :
    (i i' : Instance)
    → i'.spec ≡ i.spec
    → i'.status.upgrade ≡ i.status.upgrade
    → needs_final_backup i' ≡ needs_final_backup i
unfolding needs_final_backup backup_volume_spec backup_on_delete
needs-cong i i' hs hu = rw (hs, hu) refl

clash : false ≡ true → ⊥
clash h = cc

module _ {env : Env} (honest : IsHonest env) (needed : Type 0) (n : String) where
  abbrev Named : State → Type 0
  Named s = (s.instance.name ≡ n) × InOrder needed n s.log

  abbrev Begun : State → Type 0
  Begun s = Named s × (needed → needs_final_backup s.instance ≡ true)

  Begun-stable : IsStable env Begun
  Begun-stable = record {
    plain = λ s c r h j. ((j.0.0, (plain-May needed n c s.log h, j.0.1)), j.1);
    restatus = λ s change h j. (j.0, λ q. needs-cong _ _ refl (h s.instance.status) ∙ j.1 q);
    refused = λ s f j. ((j.0.0, (tt, j.0.1)), j.1);
    written = λ s i e j. (
      (honest.status_name s.log s.instance i e ∙ j.0.0, (tt, j.0.1)),
      λ q.
          needs-cong _ _ (honest.status_spec s.log s.instance i e)
            (ap (λ (st : InstanceStatus). st.upgrade) (honest.status_status s.log s.instance i e))
          ∙ j.1 q,
    );
  }

  abbrev BackedUp : State → Type 0
  BackedUp s = Named s × (needed → HasBackup n s.log)

  BackedUp-stable : IsStable env BackedUp
  BackedUp-stable = record {
    plain = λ s c r h j. ((j.0.0, (plain-May needed n c s.log h, j.0.1)), λ e. inr (j.1 e));
    restatus = λ s change h j. j;
    refused = λ s f j. ((j.0.0, (tt, j.0.1)), λ e. inr (j.1 e));
    written = λ s i e j.
        ((honest.status_name s.log s.instance i e ∙ j.0.0, (tt, j.0.1)), λ e. inr (j.1 e));
  }

  by_need :
      (b : Bool) (version : String)
      → (needed → b ≡ true)
      → Does env Begun (if b then backup_databases version else pure tt) (λ _. BackedUp) Named
  by_need true version e =
      Does-weaken (λ s j. j) (λ a s j. (j.0.0, λ q. j.1))
        (Does-fail _ (λ s j. j.0) (backup_databases-Does Begun-stable (λ s j. j.0.0) version))
  by_need false version e = Does-pure tt λ s j. (j.0, λ q. absurd (clash (e q)))

  back_up_if_needed-Does : Does env Begun back_up_if_needed (λ _. BackedUp) Named
  unfolding back_up_if_needed
  back_up_if_needed-Does = Does-bind current _ (Does-fail current (λ s j. j.0) current-Does) λ i.
      record {
        at = λ s j.
            (by_need (needs_final_backup i) (databases_version i i.status.upgrade)
                λ q. ap needs_final_backup j.1 ∙ j.0.1 q).at
              s j.0;
      }

  abbrev Released : State → Type 0
  Released s = BackedUp s × HasRelease n s.log

  Released-stable : IsStable env Released
  Released-stable = record {
    plain = λ s c r h j. (BackedUp-stable.plain s c r h j.0, inr j.1);
    restatus = λ s change h j. j;
    refused = λ s f j. (BackedUp-stable.refused s f j.0, inr j.1);
    written = λ s i e j. (BackedUp-stable.written s i e j.0, inr j.1);
  }

  -- Deleting any volume keeps the order, once there is a backup.
  delete_volume-Keeps : (m : String) → Keeps env Released (delete_volume m)
  unfolding delete_volume ask
  delete_volume-Keeps m =
      Keeps-bind (ask (delete_pvc m)) _
        (record { at = λ s j. (((j.0.0.0, (j.0.1, j.0.0.1)), λ e. inr (j.0.1 e)), inr j.1) })
        λ r. unless_missing-Keeps _ r

  primary_name : (i : Instance) → i.name ≡ n → primary_pvc_name i ≡ n <> "-primary"
  unfolding primary_pvc_name
  primary_name i e = rw e refl

  -- What unless_missing lets pass is a volume that is gone.
  gone-Does :
      (text m : String) (r : Reply (Unit {0}))
      → m ≡ n <> "-primary"
      → Does env
          (λ s. BackedUp s × (IsRelease n (event (delete_pvc m) r) → HasRelease n s.log))
          (unless_missing text r)
          (λ _. Released)
          BackedUp
  unfolding unless_missing
  gone-Does text m (done x) e = Does-pure tt λ s j. (j.0, j.1 e)
  gone-Does text m (fault (not_found t)) e = Does-pure tt λ s j. (j.0, j.1 e)
  gone-Does text m (fault (Calls.exit_code c t)) e = Does-raise _ (λ s j. j.0)
  gone-Does text m (fault (Calls.other t)) e = Does-raise _ (λ s j. j.0)

  delete_primary-Does :
      (m : String)
      → m ≡ n <> "-primary"
      → Does env BackedUp (delete_volume m) (λ _. Released) BackedUp
  unfolding delete_volume ask
  delete_primary-Does m e =
      Does-bind (ask (delete_pvc m)) _
        (record { at = λ s j. (((j.0.0, (j.1, j.0.1)), λ q. inr (j.1 q)), λ h. inl h) })
        λ r. gone-Does _ m r e

  release-Does : Does env BackedUp release_primary_and_shadow_storage (λ _. Released) BackedUp
  unfolding release_primary_and_shadow_storage
  release-Does = Does-bind _ _ (set_deletion_message-Keeps BackedUp-stable _) λ _.
      Does-bind current _ current-Does λ i. record {
        at = λ s j.
            (Does-bind _ _
                (delete_primary-Does (primary_pvc_name i)
                  (primary_name i (ap (λ (x : Instance). x.name) j.1 ∙ j.0.0.0)))
                λ _.
                  Does-fail _ (λ s j. j.0)
                    (Keeps-bind current _ Keeps-current λ i'.
                      Does-if (is_none i'.spec.storage.shadow) _ _ (Keeps-pure tt)
                        (delete_volume-Keeps (shadow_pvc_name i')))).at
              s j.0;
      }

  update_instance_with-Does :
      (i : Instance) (text : String)
      → Does env Released
          (update_instance_with i text)
          (λ _ s. InOrder needed n s.log)
          (λ s. InOrder needed n s.log)
  unfolding update_instance_with wrap call ask ◌>>=◌ become pure raise
  update_instance_with-Does i text = record {
    at = λ s j. elim (Reply-cases (env.reply s.log (update_instance i))) [
      | inl (i', q) ↦ ground (arith, q)
      | inr (f, q) ↦ ground (arith, q)
    ];
  }

  remove_finalizer-Does :
      Does env Released remove_finalizer
        (λ _ s. InOrder needed n s.log)
        (λ s. InOrder needed n s.log)
  unfolding remove_finalizer
  remove_finalizer-Does =
      Does-bind _ _ (Does-fail _ (λ s j. j.0.0.1) (set_deletion_message-Keeps Released-stable _))
        λ _. Does-bind current _ (Does-fail current (λ s j. j.0.0.1) Keeps-current) λ i.
          Does-bind (asks λ env. env.remove_finalizer) _
            (Does-fail _ (λ s j. j.0.0.1) (Keeps-asks _)) λ remove. update_instance_with-Does _ _

  reconcile_deletion-Does :
      Does env Begun reconcile_deletion
        (λ _ s. InOrder needed n s.log)
        (λ s. InOrder needed n s.log)
  unfolding reconcile_deletion
  reconcile_deletion-Does =
      Does-bind current _ (Does-fail current (λ s j. j.0.1) Keeps-current) λ i.
        Does-bind (asks λ env. env.contains_finalizer) _ (Does-fail _ (λ s j. j.0.1) (Keeps-asks _))
          λ contains. Does-if (not (contains i finalizer_name)) _ _ (Does-pure tt λ s j. j.0.1) (
            Does-bind _ _
              (Does-fail _ (λ s j. j.0.1) (Keeps-wrap _ _ (set_phase-Keeps Begun-stable _)))
              λ _.
                Does-bind _ _
                  (Does-fail _ (λ s j. j.0.1) (set_deletion_message-Keeps Begun-stable _))
                  λ _. Does-bind _ _ (Does-fail _ (λ s j. j.1) back_up_if_needed-Does) λ _.
                    Does-bind _ _ (Does-fail _ (λ s j. j.0.1) release-Does)
                      λ _. remove_finalizer-Does)

-- If the API server answers a status write with the object written, a deletion of an Instance after
-- calls that come in order makes its own in order: where the Instance needs a final backup (backups
-- are enabled with a local destination, backupOnDelete is not false, and an upgrade, if any, is still
-- at BackingUp), no volume is deleted before the history shows its StatefulSet missing or its backup
-- pod succeeded; and the Instance is written only after the deletion of its primary volume was
-- accepted or found it gone.
pub reconcile_deletion-InOrder :
    {env : Env}
    → IsHonest env
    → (s : State) → InOrder (NeedsBackup s.instance) s.instance.name s.log
    → InOrder (NeedsBackup s.instance) s.instance.name (reconcile_deletion env s).1.log
reconcile_deletion-InOrder {env} honest s h =
    let (r, s') = reconcile_deletion env s in
    ended (λ t. InOrder (NeedsBackup s.instance) s.instance.name t.log) r s'
      ((reconcile_deletion-Does honest (NeedsBackup s.instance) s.instance.name).at s
        ((refl, h), needs_final_backup-NeedsBackup s.instance))
