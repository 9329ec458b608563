-- ===== src/Upgrade/Ordered.antt =====
-- When a major upgrade releases the old storage.
use kubebird.Prelude.{
  String, Bool, true, false, not, ◌≡◌, refl, sym, ap, ◌∙◌, Option, none, some, is_none, ◌=?◌, ℕ,
}
use kubebird.Api.{Instance, UpgradeStatus, UpgradeStage, backing_up, releasing, restoring}
use kubebird.Kube.Objects.{StatefulSet}
use kubebird.Kube.Calls.{Reply, done, fault, not_found, Env, get_stateful_set}
use kubebird.Kube.Calls
use kubebird.Kube.Action.{Action, State, pure, ◌>>=◌, ◌>>◌, current, modify_status}
use kubebird.Kube.Rules.{
  Does, Does-bind, Does-if, Does-pure, Does-raise, Does-weaken, Does-fail, Does-after, current-Does,
  ended, Keeps, Keeps-current, Keeps-bind, Keeps-pure, Keeps-raise, Keeps-wrap, keeps_rules,
}
use kubebird.Kube.Stable.{ask-Keeps, modify_any-Keeps, write_status-Keeps}
use kubebird.Kube.Honest.{IsHonest}
use kubebird.Backup.Evidence.{HasBackup, backup_databases-Does}
use kubebird.Upgrade.Keeps.{set_upgrade_stage-Keeps, releasing_on-Keeps}
use kubebird.Upgrade.Guard.{
  IsGuarded, is_releasing, Trusted, Trusted-stable, Backed, Backed-detached, Backed-Trusted,
  Backed-release,
}
use kubebird.Upgrade.{
  record_upgrade, compare_majors, start_major_upgrade, back_up_stage, release_stage, releasing_on,
  continue_upgrade, upgrade_set_got, reconcile_major_upgrade, clear_upgrade, finish_major_upgrade,
}

module _ {env : Env} (honest : IsHonest env) (n : String) (tracked : Bool) where
  abbrev Before : State → Type 0
  Before = Trusted honest n tracked

  abbrev After : State → Type 0
  After = Backed honest n tracked

  back_up_stage-Does :
      (version : String) → Does env Before (back_up_stage version) (λ _. After) Before
  unfolding back_up_stage
  back_up_stage-Does version =
      let later = Backed-detached honest n tracked in
      Does-bind _ _
        (Does-weaken (λ s j. j) (λ a s j. (j.0.0, j.1))
          (backup_databases-Does (Trusted-stable honest n tracked) (λ s j. j.0.0) version))
        λ _. Does-fail _ (Backed-Trusted honest n tracked) (
          Keeps-bind current _ Keeps-current λ i.
            Keeps-bind _ _ (modify_any-Keeps later _)
              λ _. set_upgrade_stage-Keeps later (Backed-release honest n tracked) releasing)

  -- The rest of an upgrade, where there is evidence.
  backed_on :
      (sts : StatefulSet) (u : Option UpgradeStatus)
      → Does env After (releasing_on sts u) (λ _. Before) Before
  backed_on sts u = Does-after env _ (Backed-Trusted honest n tracked) (
      releasing_on-Keeps (Backed-detached honest n tracked) (Backed-release honest n tracked) sts u)

  -- The upgrade in memory.
  abbrev At : Option UpgradeStatus → State → Type 0
  At u s = Before s × (s.instance.status.upgrade ≡ u)

  evidence :
      (u : Option UpgradeStatus) (s : State) → is_releasing u ≡ true → At u s → HasBackup n s.log
  evidence u s e j = j.0.1 (ap is_releasing j.1 ∙ e)

  by_stage :
      (sts : StatefulSet) (u : UpgradeStatus) (stage : UpgradeStage)
      → (elim stage [ releasing ↦ true | _ ↦ false ] ≡ true → is_releasing (some u) ≡ true)
      → Does env After
          (elim stage [
            | releasing ↦ (do gone ← release_stage sts u; pure (not gone))
            | _ ↦ pure false
          ])
          (λ _. Before)
          Before
      → Does env
          (At (some u))
          (elim stage [
            | releasing ↦ (do gone ← release_stage sts u; pure (not gone))
            | _ ↦ pure false
          ])
          (λ _. Before)
          Before
  by_stage sts u releasing e d =
      Does-weaken (λ s j. (j.0.0, evidence (some u) s (e refl) j)) (λ a s j. j) d
  by_stage sts u backing_up e d = Does-pure false λ s j. j.0
  by_stage sts u restoring e d = Does-pure false λ s j. j.0

  releasing_on-Does :
      (sts : StatefulSet) (u : UpgradeStatus)
      → Does env (At (some u)) (releasing_on sts (some u)) (λ _. Before) Before
  unfolding releasing_on
  releasing_on-Does sts u = by_stage sts u u.stage (λ e. e) (backed_on sts (some u))

  from_stage :
      (sts : StatefulSet) (u : UpgradeStatus) (stage : UpgradeStage)
      → Does env
          (At (some u))
          (elim stage [
            | backing_up ↦ (do
              back_up_stage u.from_version
              i' ← current
              releasing_on sts i'.status.upgrade)
            | _ ↦ releasing_on sts (some u)
          ])
          (λ _. Before)
          Before
  from_stage sts u backing_up =
      Does-bind _ _ (Does-weaken (λ s j. j.0) (λ a s j. j) (back_up_stage-Does u.from_version)) λ _.
        Does-bind current _ (Does-fail current (Backed-Trusted honest n tracked) Keeps-current)
          λ i'. backed_on sts i'.status.upgrade
  from_stage sts u releasing = releasing_on-Does sts u
  from_stage sts u restoring = releasing_on-Does sts u

  continue_upgrade-Does :
      (sts : StatefulSet) (u : Option UpgradeStatus)
      → Does env (At u) (continue_upgrade sts u) (λ _. Before) Before
  unfolding continue_upgrade
  continue_upgrade-Does sts none = Does-pure false λ s j. j.0
  continue_upgrade-Does sts (some u) =
      Does-bind current _ (Does-fail current (λ s j. j.0) Keeps-current) λ i.
        Does-if (not (i.spec.version =? u.to_version)) _ _ (Does-raise _ λ s j. j.0)
          (from_stage sts u u.stage)

  -- What follows depends on the upgrade in memory.
  with_current :
      {A : Type 0} (f : Instance → Action A)
      → ((i : Instance) → Does env (At i.status.upgrade) (f i) (λ _. Before) Before)
      → Keeps env Before (current >>= f)
  with_current f d = Does-bind current f (Does-fail current (λ s j. j) current-Does) λ i.
      Does-weaken (λ s j. (j.0, sym (ap (λ (x : Instance). x.status.upgrade) j.1))) (λ a s j. j)
        (d i)

  record_upgrade-Keeps : (running : String) → Keeps env Before (record_upgrade running)
  unfolding record_upgrade modify_status
  record_upgrade-Keeps running = Keeps-bind current _ Keeps-current λ i.
      Keeps-bind _ _ (record { at = λ s j. (j.0, λ e. cc) })
        λ _.
          Keeps-bind _ _ (Keeps-wrap _ _ (write_status-Keeps (Trusted-stable honest n tracked)))
            λ _. Keeps-pure true

  compare_majors-Keeps :
      (i : Instance) (running : String) (from to : Option ℕ)
      → Keeps env Before (compare_majors i running from to)
  unfolding compare_majors
  compare_majors-Keeps i running (some from) (some to) =
      search (keeps_rules, record_upgrade-Keeps) depth 8
  compare_majors-Keeps i running (some from) none = Keeps-pure false
  compare_majors-Keeps i running none to = Keeps-pure false

  start_major_upgrade-Keeps : (sts : StatefulSet) → Keeps env Before (start_major_upgrade sts)
  unfolding start_major_upgrade
  start_major_upgrade-Keeps sts =
      Keeps-bind current _ Keeps-current λ i. search (compare_majors-Keeps)

  upgrade_set_got-Keeps : (r : Reply StatefulSet) → Keeps env Before (upgrade_set_got r)
  unfolding upgrade_set_got
  upgrade_set_got-Keeps (done sts) = with_current _ λ i.
      Does-if (is_none i.status.upgrade) _ _
        (Does-weaken (λ s j. j.0) (λ a s j. j)
          (Keeps-bind _ _ (start_major_upgrade-Keeps sts) λ begun. with_current _ λ i'.
            Does-if begun _ _ (continue_upgrade-Does sts i'.status.upgrade)
              (Does-pure false λ s j. j.0)))
        (continue_upgrade-Does sts i.status.upgrade)
  upgrade_set_got-Keeps (fault (not_found m)) = Keeps-pure false
  upgrade_set_got-Keeps (fault (Calls.exit_code c m)) = Keeps-raise _
  upgrade_set_got-Keeps (fault (Calls.other m)) = Keeps-raise _

  pub reconcile_major_upgrade-Keeps : Keeps env Before reconcile_major_upgrade
  unfolding reconcile_major_upgrade
  reconcile_major_upgrade-Keeps = Keeps-bind current _ Keeps-current λ i.
      Keeps-bind _ _ (ask-Keeps (Trusted-stable honest n tracked) (get_stateful_set i.name) refl)
        upgrade_set_got-Keeps

  clear_upgrade-Keeps : Keeps env Before clear_upgrade
  unfolding clear_upgrade modify_status
  clear_upgrade-Keeps =
      Keeps-bind _ _ (record { at = λ s j. (j.0, λ e. cc) })
        λ _. Keeps-wrap _ _ (write_status-Keeps (Trusted-stable honest n tracked))

  pub finish_major_upgrade-Keeps : Keeps env Before finish_major_upgrade
  unfolding finish_major_upgrade
  finish_major_upgrade-Keeps =
      Keeps-bind current _ Keeps-current λ i. search (keeps_rules, clear_upgrade-Keeps)

-- If the API server answers a status write with the object written, a reconcile of a major upgrade
-- that is not at the stage Releasing, after calls that delete no volume too early, deletes no volume
-- before the history shows the Instance's StatefulSet missing or its backup pod succeeded.
pub reconcile_major_upgrade-IsGuarded :
    {env : Env}
    → IsHonest env
    → (s : State) → is_releasing s.instance.status.upgrade ≡ false
    → IsGuarded s.instance.name s.log
    → IsGuarded s.instance.name (reconcile_major_upgrade env s).1.log
reconcile_major_upgrade-IsGuarded {env} honest s h g =
    let n = s.instance.name in
    let (r, t) = reconcile_major_upgrade env s in
    (ended (Trusted honest n false) r t
      ((reconcile_major_upgrade-Keeps honest n false).at s ((refl, g, λ t. cc), λ e. cc))).0.1
