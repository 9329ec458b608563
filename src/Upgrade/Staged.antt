-- ===== src/Upgrade/Staged.antt =====
-- How the stages of an upgrade move its abstract machine.
use kubebird.Prelude.{
  String, true, false, not, ◌≡◌, refl, sym, ap, ◌∙◌, subst, Option, none, some, ◌=?◌,
}
use kubebird.Api.{
  Instance, InstanceStatus, UpgradeStatus, UpgradeStage, backing_up, releasing, restoring,
}
use kubebird.Kube.Objects.{StatefulSet}
use kubebird.Kube.Calls.{Env, delete_pvc}
use kubebird.Kube.Action.{Action, State, pure, ◌>>=◌, ◌>>◌, ask, current, modify_status}
use kubebird.Kube.Rules.{
  Does, Does-bind, Does-when, Does-pure, Does-weaken, Does-fail, Does-after, current-Does, Keeps,
  Keeps-wrap, Keeps-current,
}
use kubebird.Kube.Stable.{IsStable, modify_status-Keeps, write_status-Keeps}
use kubebird.Kube.Honest.{IsHonest}
use kubebird.Storage.Keeps.{release-Keeps}
use kubebird.Backup.Keeps.{backup_databases-Keeps}
use kubebird.Version.{stateful_set_firebird_version}
use kubebird.Upgrade.{
  with_stage, set_upgrade_stage, release_storage_for_upgrade, back_up_stage, release_stage,
  releasing_on,
}
use kubebird.Upgrade.Keeps.{release_storage_for_upgrade-Keeps}
use kubebird.Upgrade.Machine.{
  Step, saved, released, Reach, here, Follows, Follows-next, Follows-plain,
}

module _ {env : Env} (honest : IsHonest env) (first : Option UpgradeStatus) where
  -- The machine is at `u`, in memory and after what was written.
  abbrev pub At : Option UpgradeStatus → State → Type 0
  At u s = (s.instance.status.upgrade ≡ u) × Follows first s.log u

  abbrev pub Along : State → Type 0
  Along s = Follows first s.log s.instance.status.upgrade

  pub along : {u : Option UpgradeStatus} (s : State) → At u s → Along s
  along s j = subst (Follows first s.log) (sym j.0) j.1

  pub at : (i : Instance) (s : State) → Along s → i ≡ s.instance → At i.status.upgrade s
  at i s j e =
      let same = ap (λ (x : Instance). x.status.upgrade) e in
      (sym same, subst (Follows first s.log) (sym same) j)

  At-stable : (u : Option UpgradeStatus) → IsStable env (At u)
  At-stable u = record {
    plain = λ s c r h j. (j.0, Follows-plain first u s.log c r h j.1);
    restatus = λ s change h j. (h s.instance.status ∙ j.0, j.1);
    refused = λ s f j.
        (j.0, (subst (Follows first s.log) (sym j.0) j.1, subst (λ x. Reach x u) (sym j.0) here));
    written = λ s i e j. (
      ap (λ (st : InstanceStatus). st.upgrade) (honest.status_status s.log s.instance i e) ∙ j.0,
      (subst (Follows first s.log) (sym j.0) j.1, subst (λ x. Reach x u) (sym j.0) here),
    );
  }

  pub Along-stable : IsStable env Along
  Along-stable = record {
    plain = λ s c r h j. Follows-plain first s.instance.status.upgrade s.log c r h j;
    restatus = λ s change h j. subst (Follows first s.log) (sym (h s.instance.status)) j;
    refused = λ s f j. (j, here);
    written = λ s i e j. (
      j,
      subst (Reach s.instance.status.upgrade)
          (sym
            (ap (λ (st : InstanceStatus). st.upgrade) (honest.status_status s.log s.instance i e)))
          here,
    );
  }

  -- The next step depends on the Instance as it is now.
  pub with_current :
      {A : Type 0} (f : Instance → Action A)
      → ((i : Instance) → Does env (At i.status.upgrade) (f i) (λ _. Along) Along)
      → Keeps env Along (current >>= f)
  with_current f d =
      Does-bind current f (Does-fail current (λ s j. j) current-Does)
        λ i. Does-weaken (λ s j. at i s j.0 j.1) (λ a s j. j) (d i)

  -- What keeps the machine where it is lets it go on.
  stays :
      {A : Type 0} {u : Option UpgradeStatus} (m : Action A)
      → Keeps env (At u) m
      → Does env (At u) m (λ _. Along) Along
  stays m k = Does-after env m along k

  set_upgrade_stage-Does :
      (u : UpgradeStatus) (stage : UpgradeStage)
      → Step (some u) (some (record u { stage = stage }))
      → Does env
          (At (some u))
          (set_upgrade_stage stage)
          (λ _. At (some (record u { stage = stage })))
          Along
  unfolding set_upgrade_stage modify_status
  set_upgrade_stage-Does u stage st =
      Does-bind current _ (Does-fail current along Keeps-current) λ i.
        Does-bind _ _
          (record { at = λ s j. (ap (with_stage stage) j.0, Follows-next first s.log st j.1) })
          λ _. Does-fail _ along (Keeps-wrap _ _ (write_status-Keeps (At-stable _)))

  back_up_stage-Does :
      (u : UpgradeStatus) (version : String)
      → u.stage ≡ backing_up
      → Does env
          (At (some u))
          (back_up_stage version)
          (λ _. At (some (record u { stage = releasing })))
          Along
  unfolding back_up_stage
  back_up_stage-Does u version e =
      Does-bind _ _ (Does-fail _ along (backup_databases-Keeps (At-stable _) version)) λ _.
        Does-bind current _ (Does-fail current along Keeps-current) λ i.
          Does-bind _ _ (Does-fail _ along (modify_status-Keeps (At-stable _) _ λ x. refl))
            λ _. set_upgrade_stage-Does u releasing (saved u e)

  deleted : (u : Option UpgradeStatus) (name : String) → Keeps env (At u) (ask (delete_pvc name))
  unfolding ask
  deleted u name = record { at = λ s j. j }

  freed : (u : Option UpgradeStatus) → Keeps env (At u) release_storage_for_upgrade
  freed u =
      release_storage_for_upgrade-Keeps (At-stable u) (release-Keeps (At-stable u) (deleted u))

  to_restoring :
      (u : UpgradeStatus)
      → u.stage ≡ releasing
      → Does env (At (some u)) (set_upgrade_stage restoring >> pure true) (λ _. Along) Along
  to_restoring u e =
      Does-bind _ _ (set_upgrade_stage-Does u restoring (released u e)) λ _. Does-pure true along

  release_stage-Does :
      (sts : StatefulSet) (u : UpgradeStatus)
      → u.stage ≡ releasing
      → Does env (At (some u)) (release_stage sts u) (λ _. Along) Along
  unfolding release_stage
  release_stage-Does sts u e =
      Does-when (stateful_set_firebird_version sts =? u.to_version) _ _ (λ _. to_restoring u e)
        λ _.
          Does-bind _ _ (Does-fail _ along (freed (some u)))
            λ gone. Does-when gone _ _ (λ _. to_restoring u e) λ _. Does-pure false along

  by_stage :
      (sts : StatefulSet) (u : UpgradeStatus) (stage : UpgradeStage)
      → u.stage ≡ stage
      → Does env
          (At (some u))
          (elim stage [
            | releasing ↦ (do gone ← release_stage sts u; pure (not gone))
            | _ ↦ pure false
          ])
          (λ _. Along)
          Along
  by_stage sts u releasing e =
      Does-bind _ _ (release_stage-Does sts u e) λ done. Does-pure (not done) λ s j. j
  by_stage sts u backing_up e = Does-pure false along
  by_stage sts u restoring e = Does-pure false along

  releasing_on-Does :
      (sts : StatefulSet) (u : Option UpgradeStatus)
      → Does env (At u) (releasing_on sts u) (λ _. Along) Along
  unfolding releasing_on
  releasing_on-Does sts none = Does-pure false along
  releasing_on-Does sts (some u) = by_stage sts u u.stage refl

  pub from_stage :
      (sts : StatefulSet) (u : UpgradeStatus) (stage : UpgradeStage)
      → u.stage ≡ stage
      → Does env
          (At (some u))
          (elim stage [
            | backing_up ↦ (do
              back_up_stage u.from_version
              i' ← current
              releasing_on sts i'.status.upgrade)
            | _ ↦ releasing_on sts (some u)
          ])
          (λ _. Along)
          Along
  from_stage sts u backing_up e = Does-bind _ _ (back_up_stage-Does u u.from_version e) λ _.
      Does-weaken along (λ a s j. j)
        (with_current (λ i'. releasing_on sts i'.status.upgrade)
          λ i'. releasing_on-Does sts i'.status.upgrade)
  from_stage sts u releasing e = releasing_on-Does sts (some u)
  from_stage sts u restoring e = releasing_on-Does sts (some u)
