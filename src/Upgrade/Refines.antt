-- ===== src/Upgrade/Refines.antt =====
-- How the reconcile of an Instance moves the abstract machine of an upgrade.
use kubebird.Prelude.{
  ℕ, String, true, false, not, ◌≡◌, refl, sym, subst, Option, none, some, ◌==◌, ltb, ◌=?◌, is_none,
}
use kubebird.Api.{Instance, UpgradeStatus}
use kubebird.Naming.{backup_volume_spec}
use kubebird.Kube.Objects.{StatefulSet}
use kubebird.Kube.Calls.{Reply, done, fault, not_found, Event, Env, delete_pvc, get_stateful_set}
use kubebird.Kube.Calls
use kubebird.Kube.Action.{State, current, modify_status}
use kubebird.Kube.Rules.{
  Does, Does-bind, Does-when, Does-pure, Does-raise, Does-weaken, Does-fail, Does-still, ended,
  current-Does, Keeps, Keeps-bind, Keeps-pure, Keeps-raise, Keeps-wrap, Keeps-current,
}
use kubebird.Kube.Stable.{ask-Keeps, write_status-Keeps}
use kubebird.Kube.Honest.{IsHonest}
use kubebird.Version.{stateful_set_firebird_version}
use kubebird.Upgrade.{
  record_upgrade, compare_majors, start_major_upgrade, continue_upgrade, upgrade_set_got,
  reconcile_major_upgrade, clear_upgrade, finish_major_upgrade,
}
use kubebird.Upgrade.Started.{newer}
use kubebird.Upgrade.Machine.{Newer, IsNewer, started, finished, Follows, Follows-next}
use kubebird.Reconcile.{reconcile_instance}
use kubebird.Reconcile.Keeps.{reconcile_instance-Keeps}
use kubebird.Upgrade.Staged.{At, Along, along, Along-stable, with_current, from_stage}

module _ {env : Env} (honest : IsHonest env) (first : Option UpgradeStatus) where
  continue_upgrade-Does :
      (sts : StatefulSet) (u : Option UpgradeStatus)
      → Does env
          (At honest first u)
          (continue_upgrade sts u)
          (λ _. Along honest first)
          (Along honest first)
  unfolding continue_upgrade
  continue_upgrade-Does sts none = Does-pure false (along honest first)
  continue_upgrade-Does sts (some u) =
      Does-bind current _ (Does-fail current (along honest first) Keeps-current) λ i.
        Does-when (not (i.spec.version =? u.to_version)) _ _
          (λ _. Does-raise _ (along honest first)) λ _. from_stage honest first sts u u.stage refl

  -- There is no upgrade, and the Instance is known.
  abbrev Idle : Instance → State → Type 0
  Idle i s = At honest first none s × (s.instance ≡ i)

  record_upgrade-Does :
      (i : Instance) (running : String)
      → IsNewer running i.spec.version
      → Does env (Idle i) (record_upgrade running) (λ _. Along honest first) (Along honest first)
  unfolding record_upgrade modify_status
  record_upgrade-Does i running newer =
      Does-still i _ (λ s j. j.1)
        (Does-bind _ _
          (record { at = λ s j. Follows-next first s.log (started _ refl newer) j.0.1 })
          λ _.
            Does-bind _ _ (Keeps-wrap _ _ (write_status-Keeps (Along-stable honest first)))
              λ _. Keeps-pure true)

  compare_majors-Does :
      (i : Instance) (running : String) (from to : Option ℕ)
      → (Newer from to → IsNewer running i.spec.version)
      → Does env
          (Idle i)
          (compare_majors i running from to)
          (λ _. Along honest first)
          (Along honest first)
  unfolding compare_majors
  compare_majors-Does i running none to n = Does-pure false λ s j. along honest first s j.0
  compare_majors-Does i running (some from) none n = Does-pure false λ s j. along honest first s j.0
  compare_majors-Does i running (some from) (some to) n =
      Does-when (from == to) _ _ (λ h. Does-pure false λ s j. along honest first s j.0)
        λ h.
          Does-when (ltb to from) _ _ (λ k. Does-raise _ λ s j. along honest first s j.0)
            λ k.
              Does-when (is_none (backup_volume_spec i)) _ _
                (λ v. Does-raise _ λ s j. along honest first s j.0)
                λ v. record_upgrade-Does i running (n (newer from to h k))

  start_major_upgrade-Does :
      (sts : StatefulSet)
      → Does env
          (At honest first none)
          (start_major_upgrade sts)
          (λ _. Along honest first)
          (Along honest first)
  unfolding start_major_upgrade
  start_major_upgrade-Does sts =
      Does-bind current _ (Does-fail current (along honest first) current-Does) λ i.
        Does-weaken (λ s j. (j.0, sym j.1)) (λ a s j. j)
          (compare_majors-Does i (stateful_set_firebird_version sts) _ _ λ n. n)

  idle : (u : Option UpgradeStatus) → is_none u ≡ true → u ≡ none
  idle none h = refl
  idle (some u) h = cc

  upgrade_set_got-Keeps :
      (r : Reply StatefulSet) → Keeps env (Along honest first) (upgrade_set_got r)
  unfolding upgrade_set_got
  upgrade_set_got-Keeps (done sts) = with_current honest first _ λ i.
      Does-when (is_none i.status.upgrade) _ _
        (λ h.
          Does-weaken (λ s j. subst (λ u. At honest first u s) (idle i.status.upgrade h) j)
            (λ a s j. j)
            (Does-bind _ _ (start_major_upgrade-Does sts) λ begun. with_current honest first _ λ i'.
              Does-when begun _ _ (λ _. continue_upgrade-Does sts i'.status.upgrade)
                λ _. Does-pure false (along honest first)))
        λ h. continue_upgrade-Does sts i.status.upgrade
  upgrade_set_got-Keeps (fault (not_found m)) = Keeps-pure false
  upgrade_set_got-Keeps (fault (Calls.exit_code c m)) = Keeps-raise _
  upgrade_set_got-Keeps (fault (Calls.other m)) = Keeps-raise _

  reconcile_major_upgrade-Keeps : Keeps env (Along honest first) reconcile_major_upgrade
  unfolding reconcile_major_upgrade
  reconcile_major_upgrade-Keeps = Keeps-bind current _ Keeps-current λ i.
      Keeps-bind _ _ (ask-Keeps (Along-stable honest first) (get_stateful_set i.name) refl)
        upgrade_set_got-Keeps

  clear_upgrade-Does :
      (u : Option UpgradeStatus)
      → is_none u ≡ false
      → Does env (At honest first u) clear_upgrade (λ _. Along honest first) (Along honest first)
  unfolding clear_upgrade modify_status
  clear_upgrade-Does none h = cc
  clear_upgrade-Does (some u) h =
      Does-bind _ _ (record { at = λ s j. Follows-next first s.log (finished u) j.1 })
        λ _. Keeps-wrap _ _ (write_status-Keeps (Along-stable honest first))

  finish_major_upgrade-Keeps : Keeps env (Along honest first) finish_major_upgrade
  unfolding finish_major_upgrade
  finish_major_upgrade-Keeps = with_current honest first _ λ i.
      Does-when (is_none i.status.upgrade) _ _ (λ _. Does-pure tt (along honest first))
        λ h. clear_upgrade-Does i.status.upgrade h

-- If the API server answers a status write with the object written, a reconcile of a live Instance
-- whose history so far follows the machine, from its value `first` to the Instance's status.upgrade,
-- ends, in success or in an error, with a longer history that follows the machine from `first` to
-- the status.upgrade left in memory: every status write, in its order, carries the value that the
-- machine is at, and the machine moves by its steps alone.
pub reconcile_instance-Follows :
    {env : Env}
    → IsHonest env
    → (first : Option UpgradeStatus) (s : State) → Follows first s.log s.instance.status.upgrade
    → let t = (reconcile_instance env s).1 in Follows first t.log t.instance.status.upgrade
reconcile_instance-Follows {env} honest first s f =
    let (r, t) = reconcile_instance env s in
    ended (Along honest first) r t (
      (reconcile_instance-Keeps (Along-stable honest first)
          (finish_major_upgrade-Keeps honest first) (reconcile_major_upgrade-Keeps honest first)).at
        s f)
