-- ===== src/Upgrade/Keeps.antt =====
-- A major version upgrade keeps every invariant that the status does not touch, if releasing the
-- storage does.
use kubebird.Prelude.{ℕ, String, Bool, true, false, not, Option, none, some, List, [], ◌∷◌, refl}
use kubebird.Api.{Instance, UpgradeStatus, UpgradeStage, backing_up, releasing, restoring}
use kubebird.Kube.Objects.{StatefulSet, Pvc}
use kubebird.Kube.Calls.{Env, Reply, done, fault, not_found, get_stateful_set, get_pvc}
use kubebird.Kube.Calls
use kubebird.Kube.Action.{Action, State, pure, ◌>>=◌, ◌>>◌, ask, current}
use kubebird.Kube.Rules.{Keeps, Keeps-bind, Keeps-pure, Keeps-current, Keeps-wrap, keeps_rules}
use kubebird.Kube.Stable.{
  IsStable, IsDetached, ask-Keeps, modify_any-Keeps, write_any-Keeps, write_status-Keeps,
}
use kubebird.Backup.Keeps.{backup_databases-Keeps}
use kubebird.Storage.{release_primary_and_shadow_storage}
use kubebird.Upgrade.{
  set_upgrade_stage, pvc_gone, await_released, release_storage_for_upgrade, record_upgrade,
  compare_majors, start_major_upgrade, back_up_stage, release_stage, releasing_on, continue_upgrade,
  upgrade_set_got, reconcile_major_upgrade, clear_upgrade, finish_major_upgrade,
}

module _ {env : Env} {J : State → Type 0} (st : IsStable env J)
    (release-Keeps : Keeps env J release_primary_and_shadow_storage) where
  pvc_gone-Keeps :
      (i : Instance) (name : String) (r : Reply Pvc) (rest : Action Bool)
      → Keeps env J rest
      → Keeps env J (pvc_gone i name r rest)
  unfolding pvc_gone
  pvc_gone-Keeps i name (done x) rest h = search keeps_rules
  pvc_gone-Keeps i name (fault (not_found m)) rest h = h
  pvc_gone-Keeps i name (fault (Calls.exit_code c m)) rest h = search keeps_rules
  pvc_gone-Keeps i name (fault (Calls.other m)) rest h = search keeps_rules

  await_released-Keeps : (names : List String) → Keeps env J (await_released names)
  unfolding await_released
  await_released-Keeps [] = Keeps-pure true
  await_released-Keeps (name ∷ names) = Keeps-bind _ _ (ask-Keeps st (get_pvc name) refl) λ r.
      Keeps-bind _ _ Keeps-current
        λ i. pvc_gone-Keeps i name r (await_released names) (await_released-Keeps names)

  pub release_storage_for_upgrade-Keeps : Keeps env J release_storage_for_upgrade
  unfolding release_storage_for_upgrade
  release_storage_for_upgrade-Keeps =
      Keeps-bind _ _ release-Keeps
        λ _. Keeps-bind _ _ Keeps-current λ i. search (await_released-Keeps)

module _ {env : Env} {J : State → Type 0} (d : IsDetached env J)
    (release-Keeps : Keeps env J release_primary_and_shadow_storage) where
  pub set_upgrade_stage-Keeps : (stage : UpgradeStage) → Keeps env J (set_upgrade_stage stage)
  unfolding set_upgrade_stage
  set_upgrade_stage-Keeps stage = Keeps-bind _ _ Keeps-current λ i. write_any-Keeps d _ _

  record_upgrade-Keeps : (running : String) → Keeps env J (record_upgrade running)
  unfolding record_upgrade
  record_upgrade-Keeps running = Keeps-bind _ _ Keeps-current λ i.
      Keeps-bind _ _ (modify_any-Keeps d _)
        λ _. Keeps-bind _ _ (Keeps-wrap _ _ (write_status-Keeps d.stable)) λ _. Keeps-pure true

  compare_majors-Keeps :
      (i : Instance) (running : String) (from to : Option ℕ)
      → Keeps env J (compare_majors i running from to)
  unfolding compare_majors
  compare_majors-Keeps i running (some from) (some to) =
      search (keeps_rules, record_upgrade-Keeps) depth 8
  compare_majors-Keeps i running (some from) none = search keeps_rules
  compare_majors-Keeps i running none to = search keeps_rules

  start_major_upgrade-Keeps : (sts : StatefulSet) → Keeps env J (start_major_upgrade sts)
  unfolding start_major_upgrade
  start_major_upgrade-Keeps sts = Keeps-bind _ _ Keeps-current λ i. search (compare_majors-Keeps)

  back_up_stage-Keeps : (version : String) → Keeps env J (back_up_stage version)
  unfolding back_up_stage
  back_up_stage-Keeps version = Keeps-bind _ _ (backup_databases-Keeps d.stable version) λ _.
      Keeps-bind _ _ Keeps-current
        λ i. Keeps-bind _ _ (modify_any-Keeps d _) λ _. set_upgrade_stage-Keeps releasing

  released-Keeps : Keeps env J release_storage_for_upgrade
  released-Keeps = release_storage_for_upgrade-Keeps d.stable release-Keeps

  release_stage-Keeps : (sts : StatefulSet) (u : UpgradeStatus) → Keeps env J (release_stage sts u)
  unfolding release_stage
  release_stage-Keeps sts u = search (keeps_rules, released-Keeps, set_upgrade_stage-Keeps) depth 9

  at_stage :
      (sts : StatefulSet) (u : UpgradeStatus) (stage : UpgradeStage)
      → Keeps env J (elim stage [
        | releasing ↦ (do finished ← release_stage sts u; pure (not finished))
        | _ ↦ pure false
      ])
  at_stage sts u releasing = search (keeps_rules, release_stage-Keeps)
  at_stage sts u backing_up = search keeps_rules
  at_stage sts u restoring = search keeps_rules

  pub releasing_on-Keeps :
      (sts : StatefulSet) (u : Option UpgradeStatus) → Keeps env J (releasing_on sts u)
  unfolding releasing_on
  releasing_on-Keeps sts none = search keeps_rules
  releasing_on-Keeps sts (some u) = at_stage sts u u.stage

  from_stage :
      (sts : StatefulSet) (u : UpgradeStatus) (stage : UpgradeStage)
      → Keeps env J (elim stage [
        | backing_up ↦ (do
          back_up_stage u.from_version
          i' ← current
          releasing_on sts i'.status.upgrade)
        | _ ↦ releasing_on sts (some u)
      ])
  from_stage sts u backing_up = search (keeps_rules, back_up_stage-Keeps, releasing_on-Keeps)
  from_stage sts u releasing = releasing_on-Keeps sts (some u)
  from_stage sts u restoring = releasing_on-Keeps sts (some u)

  continue_upgrade-Keeps :
      (sts : StatefulSet) (u : Option UpgradeStatus) → Keeps env J (continue_upgrade sts u)
  unfolding continue_upgrade
  continue_upgrade-Keeps sts none = search keeps_rules
  continue_upgrade-Keeps sts (some u) =
      Keeps-bind _ _ Keeps-current λ i. search (keeps_rules, from_stage sts u u.stage) depth 8

  upgrade_set_got-Keeps : (r : Reply StatefulSet) → Keeps env J (upgrade_set_got r)
  unfolding upgrade_set_got
  upgrade_set_got-Keeps (done sts) =
      search (keeps_rules, start_major_upgrade-Keeps, continue_upgrade-Keeps) depth 9
  upgrade_set_got-Keeps (fault (not_found m)) = search keeps_rules
  upgrade_set_got-Keeps (fault (Calls.exit_code c m)) = search keeps_rules
  upgrade_set_got-Keeps (fault (Calls.other m)) = search keeps_rules

  get_stateful_set-Keeps : (name : String) → Keeps env J (ask (get_stateful_set name))
  get_stateful_set-Keeps name = ask-Keeps d.stable (get_stateful_set name) refl

  pub reconcile_major_upgrade-Keeps : Keeps env J reconcile_major_upgrade
  unfolding reconcile_major_upgrade
  reconcile_major_upgrade-Keeps =
      search (keeps_rules, get_stateful_set-Keeps, upgrade_set_got-Keeps)

module _ {env : Env} {J : State → Type 0} (d : IsDetached env J) where
  clear_upgrade-Keeps : Keeps env J clear_upgrade
  unfolding clear_upgrade
  clear_upgrade-Keeps = write_any-Keeps d _ _

  pub finish_major_upgrade-Keeps : Keeps env J finish_major_upgrade
  unfolding finish_major_upgrade
  finish_major_upgrade-Keeps =
      Keeps-bind _ _ Keeps-current λ i. search (keeps_rules, clear_upgrade-Keeps)
