-- ===== src/Upgrade.antt =====
-- A major version upgrade (internal/controller/instance_upgrade.go): recorded in status.upgrade, it
-- backs up, releases the old storage, and lets the rest of the reconcile restore on a fresh one.
pub mod Keeps
pub mod Started
pub mod Guard
pub mod Machine
pub mod Staged
pub mod Refines
pub mod Ordered
pub mod Passed
pub mod Histories
pub mod Cooperates
pub mod Freed
pub mod Completes
use kubebird.Prelude.{
  ℕ, String, ◌<>◌, Bool, true, false, not, ◌&&◌, ◌||◌, Option, none, some, List, [], ◌∷◌, ◌++◌,
  ◌=?◌, ◌==◌, ltb, if◌then◌else◌, is_none, pos,
}
use kubebird.Prelude.Text.{quote, show}
use kubebird.Api.{
  Instance, InstanceStatus, UpgradeStatus, UpgradeStage, backing_up, releasing, restoring,
}
use kubebird.Naming.{primary_pvc_name, shadow_pvc_name, backup_volume_spec}
use kubebird.Kube.Objects.{StatefulSet, Pvc}
use kubebird.Kube.Calls.{Reply, done, fault, not_found, get_stateful_set, get_pvc}
use kubebird.Kube.Action.{
  Action, external, failed, wrapped, waiting, pure, raise, ◌>>=◌, ◌>>◌, wrap, ask, current,
  modify_status, write_status,
}
use kubebird.Status.{phase_upgrading}
use kubebird.Storage.{release_primary_and_shadow_storage}
use kubebird.Version.{firebird_major_version, stateful_set_firebird_version}
use kubebird.Backup.{backup_databases}

-- status.upgrade with its stage set; the code has a non-nil pointer there.
abbrev pub with_stage : UpgradeStage → Option UpgradeStatus → Option UpgradeStatus
with_stage stage none = none
with_stage stage (some u) = some (record u { stage = stage })

unfoldable pub set_upgrade_stage : UpgradeStage → Action (Unit {0})
set_upgrade_stage stage = do
  i ← current
  modify_status (λ st. record st { upgrade = with_stage stage st.upgrade })
  wrap "failed to record the Firebird upgrade's progress: " write_status

abbrev to_version_of : Option UpgradeStatus → String
to_version_of none = ""
to_version_of (some u) = u.to_version

pvc_gone : Instance → String → Reply Pvc → Action Bool → Action Bool
pvc_gone i name (done pvc) rest = raise (
    waiting (
      "waiting for PVC "
      <> (quote name
          <> (" to be released before restoring onto Firebird "
              <> to_version_of i.status.upgrade))))
pvc_gone i name (fault (not_found m)) rest = rest
pvc_gone i name (fault f) rest =
    raise (wrapped ("failed to get PVC " <> (quote name <> ": ")) (external f) "")

-- Each of the volumes is gone.
unfoldable pub await_released : List String → Action Bool
unfolding pvc_gone
await_released [] = pure true
await_released (name ∷ names) = do
  r ← ask (get_pvc name)
  i ← current
  pvc_gone i name r (await_released names)

unfoldable pub release_storage_for_upgrade : Action Bool
unfolding await_released
release_storage_for_upgrade = do
  release_primary_and_shadow_storage
  i ← current
  await_released
      (primary_pvc_name i ∷ (if is_none i.spec.storage.shadow then [] else shadow_pvc_name i ∷ []))

unfoldable pub record_upgrade : String → Action Bool
record_upgrade running = do
  i ← current
  modify_status (λ st. record st {
    upgrade =
        some (record { from_version = running; to_version = i.spec.version; stage = backing_up });
    phase = phase_upgrading;
  })
  wrap "failed to record the Firebird upgrade: " write_status
  pure true

-- What the two versions' majors ask for.
unfoldable pub compare_majors : Instance → String → Option ℕ → Option ℕ → Action Bool
unfolding record_upgrade
compare_majors i running (some from) (some to) =
    if from == to
    then pure false
    else if ltb to from
    then raise (
        failed (
          "downgrading Firebird from "
          <> (running
              <> (" to "
                  <> (i.spec.version
                      <> (" isn't supported: only a newer major version can be upgraded to; set spec.version back to a "
                          <> (show from <> ".x release")))))))
    else if is_none (backup_volume_spec i)
    then raise (
        failed (
          "upgrading Firebird from "
          <> (running
              <> (" to "
                  <> (i.spec.version
                      <> " needs a local backup volume (spec.backup.enabled with a local entry in spec.backup.destinations) to back up the databases into")))))
    else record_upgrade running
compare_majors i running _ _ = pure false

unfoldable pub start_major_upgrade : StatefulSet → Action Bool
unfolding compare_majors
start_major_upgrade sts = do
  i ← current
  let running = stateful_set_firebird_version sts
  compare_majors i running (firebird_major_version running) (firebird_major_version i.spec.version)

-- The stage BackingUp: back up with the old version, forget the databases, and move on.
unfoldable pub back_up_stage : String → Action (Unit {0})
back_up_stage from_version = do
  backup_databases from_version
  i ← current
  modify_status (λ st. record st { databases = []; database_count = pos 0 })
  set_upgrade_stage releasing

-- The stage Releasing; true where it is done.
unfoldable pub release_stage : StatefulSet → UpgradeStatus → Action Bool
release_stage sts u =
    if stateful_set_firebird_version sts =? u.to_version
    then (do set_upgrade_stage restoring; pure true)
    else (do
      gone ← release_storage_for_upgrade
      if gone then (do set_upgrade_stage restoring; pure true) else pure false)

-- From the stage that status.upgrade is at, which the code takes to be there; true where the reconcile must stop here.
unfoldable pub releasing_on : StatefulSet → Option UpgradeStatus → Action Bool
unfolding release_stage
releasing_on sts none = pure false
releasing_on sts (some u) = elim u.stage [
  | releasing ↦ (do finished ← release_stage sts u; pure (not finished))
  | _ ↦ pure false
]

unfoldable pub continue_upgrade : StatefulSet → Option UpgradeStatus → Action Bool
unfolding releasing_on back_up_stage
continue_upgrade sts none = pure false
continue_upgrade sts (some u) = do
  i ← current
  if not (i.spec.version =? u.to_version)
      then raise (
          failed (
            "spec.version changed to "
            <> (i.spec.version
                <> (" while upgrading Firebird from "
                    <> (u.from_version
                        <> (" to "
                            <> (u.to_version
                                <> ("; set it back to "
                                    <> (u.to_version <> " to let the upgrade finish")))))))))
      else elim u.stage [
        | backing_up ↦ (do
          back_up_stage u.from_version
          i' ← current
          releasing_on sts i'.status.upgrade)
        | _ ↦ releasing_on sts (some u)
      ]

upgrade_set_got : Reply StatefulSet → Action Bool
unfolding continue_upgrade start_major_upgrade
upgrade_set_got (fault (not_found m)) = pure false
upgrade_set_got (fault f) = raise (wrapped "failed to get StatefulSet: " (external f) "")
upgrade_set_got (done sts) = do
  i ← current
  if is_none i.status.upgrade
      then (do
        started ← start_major_upgrade sts
        i' ← current
        if started then continue_upgrade sts i'.status.upgrade else pure false)
      else continue_upgrade sts i.status.upgrade

-- reconcileMajorUpgrade: whether it took over this reconcile.
unfoldable pub reconcile_major_upgrade : Action Bool
unfolding upgrade_set_got
reconcile_major_upgrade = do i ← current; r ← ask (get_stateful_set i.name); upgrade_set_got r

unfoldable pub clear_upgrade : Action (Unit {0})
clear_upgrade = do
  modify_status (λ st. record st { upgrade = none })
  wrap "failed to record the Firebird upgrade's completion: " write_status

unfoldable pub finish_major_upgrade : Action (Unit {0})
unfolding clear_upgrade
finish_major_upgrade = do i ← current; if is_none i.status.upgrade then pure tt else clear_upgrade
