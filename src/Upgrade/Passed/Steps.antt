-- ===== src/Upgrade/Passed/Steps.antt =====
-- The stages of an upgrade, from the StatefulSet that was found to the stage Restoring.
use kubebird.Prelude.{
  String, true, false, not, ◌≡◌, refl, sym, ap, ◌∙◌, subst, inl, inr, Option, some, ◌=?◌, eq_iff,
}
use kubebird.Api.{
  Instance, InstanceSpec, UpgradeStatus, UpgradeStage, backing_up, releasing, restoring,
}
use kubebird.Kube.Objects.{StatefulSet}
use kubebird.Kube.Calls.{Env}
use kubebird.Kube.Action.{pure, ◌>>=◌, ◌>>◌, current}
use kubebird.Kube.Rules.{
  Does, Does-bind, Does-when, Does-pure, Does-raise, Does-weaken, Does-fail, current-Does, Ends,
  Keeps-current,
}
use kubebird.Kube.Stable.{modify_status-Keeps}
use kubebird.Kube.Traced.{Anything, Does-given}
use kubebird.Kube.Honest.{IsHonest}
use kubebird.Backup.Keeps.{backup_databases-Keeps}
use kubebird.Version.{stateful_set_firebird_version}
use kubebird.Upgrade.{
  set_upgrade_stage, back_up_stage, release_stage, releasing_on, continue_upgrade,
}
use kubebird.Upgrade.Passed.Evidence.{
  released_volumes, UpClosed, AllGone-up, At, Found, Ready, Restores, Passes,
}
use kubebird.Upgrade.Passed.Volumes.{At-stable, set_upgrade_stage-Does, release-Does}

module _ {env : Env} (honest : IsHonest env) (n : String) (spec : InstanceSpec) where
  to_restoring :
      (sts : StatefulSet) (first : Option UpgradeStatus) (u : UpgradeStatus)
      → Does env
          (At n spec (Ready n spec sts u) (some u))
          (set_upgrade_stage restoring >> pure true)
          (λ done s. (done ≡ true) × Restores n spec sts first s)
          Anything
  to_restoring sts first u =
      Does-bind _ _
        (set_upgrade_stage-Does honest n spec (Ready n spec sts u) (up sts u) u restoring)
        λ _. Does-pure true λ s j.
          (refl, (record u { stage = restoring }, (j.0.0, (refl, inr (j.0.1, (j.0.2, j.1))))))
    where
      up : (sts : StatefulSet) (u : UpgradeStatus) → UpClosed (Ready n spec sts u)
      up sts u e log (f, inl same) = (inr f, inl same)
      up sts u e log (f, inr gone) =
          (inr f, inr λ i h k. AllGone-up (released_volumes i) e log (gone i h k))

  release_stage-Does :
      (sts : StatefulSet) (first : Option UpgradeStatus) (u : UpgradeStatus)
      → Does env
          (At n spec (Found n spec sts) (some u))
          (release_stage sts u)
          (λ done s. (done ≡ true) × Restores n spec sts first s)
          Anything
  unfolding release_stage
  release_stage-Does sts first u =
      Does-when (stateful_set_firebird_version sts =? u.to_version) _ _
        (λ h.
          Does-weaken (λ s j. (j.0, (j.1, inl ((eq_iff _ _).0 h)))) (λ b s j. j)
            (to_restoring sts first u))
        λ h.
          Does-bind _ _ (release-Does honest n spec (Found n spec sts) (λ e log j. inr j) (some u))
            λ gone. Does-given λ e.
              Does-when gone _ _
                (λ k.
                  Does-weaken (λ s j. (j.0, (j.1.0, inr j.1.1))) (λ b s j. j)
                    (to_restoring sts first u))
                λ k. Does-pure false λ s j. cc

  back_up_stage-Does :
      (sts : StatefulSet) (u : UpgradeStatus) (version : String)
      → Does env
          (At n spec (Found n spec sts) (some u))
          (back_up_stage version)
          (λ _. At n spec (Found n spec sts) (some (record u { stage = releasing })))
          Anything
  unfolding back_up_stage
  back_up_stage-Does sts u version =
      let st = At-stable honest n spec (Found n spec sts) (λ e log j. inr j) (some u) in
      Does-bind _ _ (Does-fail _ (λ s j. tt) (backup_databases-Keeps st version)) λ _.
        Does-bind current _ (Does-fail current (λ s j. tt) Keeps-current) λ i.
          Does-bind _ _ (Does-fail _ (λ s j. tt) (modify_status-Keeps st _ λ x. refl)) λ _.
            set_upgrade_stage-Does honest n spec (Found n spec sts) (λ e log j. inr j) u releasing

  by_stage :
      (sts : StatefulSet) (first : Option UpgradeStatus) (u : UpgradeStatus) (stage : UpgradeStage)
      → u.stage ≡ stage
      → (stage ≡ backing_up → ⊥)
      → (stage ≡ restoring → first ≡ some u)
      → Does env
          (At n spec (Found n spec sts) (some u))
          (elim stage [
            | releasing ↦ (do gone ← release_stage sts u; pure (not gone))
            | _ ↦ pure false
          ])
          (Passes n spec sts first)
          Anything
  by_stage sts first u releasing e apart r =
      Does-bind _ _ (release_stage-Does sts first u)
        λ done. Does-given λ h. Does-pure (not done) λ s j. (ap not h, inr j)
  by_stage sts first u backing_up e apart r = absurd (apart refl)
  by_stage sts first u restoring e apart r =
      Does-pure false λ s j. (refl, inr (u, (j.0.0, (e, inl (r refl)))))

  from_stage :
      (sts : StatefulSet) (first : Option UpgradeStatus) (u : UpgradeStatus) (stage : UpgradeStage)
      → u.stage ≡ stage
      → (stage ≡ restoring → first ≡ some u)
      → Does env
          (At n spec (Found n spec sts) (some u))
          (elim stage [
            | backing_up ↦ (do
              back_up_stage u.from_version
              i' ← current
              releasing_on sts i'.status.upgrade)
            | _ ↦ releasing_on sts (some u)
          ])
          (Passes n spec sts first)
          Anything
  unfolding releasing_on
  from_stage sts first u backing_up e r =
      Does-bind _ _ (back_up_stage-Does sts u u.from_version) λ _.
        Does-bind current _ (Does-fail current (λ s j. tt) current-Does) λ i'.
          let u' = record u { stage = releasing } in
          record {
            at = λ s j.
                subst (λ v. Ends (Passes n spec sts first) Anything (releasing_on sts v env s))
                  (sym (ap (λ (x : Instance). x.status.upgrade) j.1 ∙ j.0.0.0))
                  ((by_stage sts first u' releasing refl (λ h. cc) (λ h. cc)).at s j.0);
          }
  from_stage sts first u releasing e r = by_stage sts first u u.stage refl (λ h. cc) (λ h. cc)
  from_stage sts first u restoring e r = by_stage sts first u u.stage refl (λ h. cc) (λ h. r refl)

  pub continue_upgrade-Does :
      (sts : StatefulSet) (first : Option UpgradeStatus) (u : UpgradeStatus)
      → (u.stage ≡ restoring → first ≡ some u)
      → Does env
          (At n spec (Found n spec sts) (some u))
          (continue_upgrade sts (some u))
          (Passes n spec sts first)
          Anything
  unfolding continue_upgrade
  continue_upgrade-Does sts first u r =
      Does-bind current _ (Does-fail current (λ s j. tt) Keeps-current) λ i.
        Does-when (not (i.spec.version =? u.to_version)) _ _ (λ _. Does-raise _ λ s j. tt)
          λ _. from_stage sts first u u.stage refl r
