-- ===== src/Upgrade/Completes.antt =====
-- A major upgrade against a cluster that does its part: it gets through to the stage Restoring.
use kubebird.Prelude.{
  String, Bool, true, false, not, ◌≡◌, refl, sym, ap, ◌∙◌, subst, Option, some, List, ◌=?◌, eq_refl,
  is_none, if◌then◌else◌,
}
use kubebird.Api.{
  Instance, InstanceSpec, UpgradeStatus, UpgradeStage, backing_up, releasing, restoring,
}
use kubebird.Kube.Objects.{StatefulSet}
use kubebird.Kube.Calls.{done, Event, Env, get_stateful_set}
use kubebird.Kube.Action.{Action, State, Result, ok, err, pure, ◌>>=◌, ◌>>◌, current, modify_status}
use kubebird.Kube.Rules.{Does-bind, Does-when, Does-if, Does-pure, Does-weaken, Ends}
use kubebird.Version.{stateful_set_firebird_version}
use kubebird.Upgrade.{
  set_upgrade_stage, start_major_upgrade, back_up_stage, release_stage, releasing_on,
  continue_upgrade, upgrade_set_got, reconcile_major_upgrade,
}
use kubebird.Upgrade.Histories.{KeptPods, KeptPods-lasts, Any, Any-lasts, Lasts}
use kubebird.Upgrade.Freed.{release_storage-Goes}
use kubebird.Upgrade.Cooperates.{
  Cooperates, Never, clash, At, Goes, set_upgrade_stage-Goes, read_known, ask_known,
  backup_databases-Goes, set_known,
}

-- What follows once the StatefulSet is found, for the upgrade that there is.
abbrev upgrade_of : StatefulSet → Option UpgradeStatus → Action Bool
upgrade_of sts u =
    if is_none u
    then (do
      started ← start_major_upgrade sts
      i' ← current
      if started then continue_upgrade sts i'.status.upgrade else pure false)
    else continue_upgrade sts u

module _ {env : Env} {n : String} (c : Cooperates env n) (spec : InstanceSpec) where
  back_up_stage-Goes :
      (u : UpgradeStatus) (version : String)
      → Goes c spec KeptPods
          (some u)
          (back_up_stage version)
          (λ _. At c spec Any (some (record u { stage = releasing })))
  unfolding back_up_stage modify_status
  back_up_stage-Goes u version = Does-bind _ _ (backup_databases-Goes c spec (some u) version) λ _.
      read_known c spec Any-lasts (some u) _ λ i e name same.
        Does-bind _ _ (record { at = λ s j. j })
          λ _. set_upgrade_stage-Goes c spec Any-lasts u releasing

  release_stage-Goes :
      (u : UpgradeStatus)
      → Goes c spec Any
          (some u)
          (release_stage c.set u)
          (λ done s. (done ≡ true) × At c spec Any (some (record u { stage = restoring })) s)
  unfolding release_stage
  release_stage-Goes u = Does-if (stateful_set_firebird_version c.set =? u.to_version) _ _ finish (
      Does-bind _ _ (release_storage-Goes c spec (some u)) λ gone.
        Does-when gone _ _ (λ h. Does-weaken (λ s j. j.1) (λ b s j. j) finish)
          λ h. record { at = λ s j. absurd (clash (sym h ∙ j.0)) })
    where
      finish :
          Goes c spec Any
            (some u)
            (set_upgrade_stage restoring >> pure true)
            (λ done s. (done ≡ true) × At c spec Any (some (record u { stage = restoring })) s)
      finish =
          Does-bind _ _ (set_upgrade_stage-Goes c spec Any-lasts u restoring)
            λ _. Does-pure true λ s j. (refl, j)

  -- The reconcile goes on, with the upgrade at the stage Restoring.
  abbrev Restored : UpgradeStatus → Bool → State → Type 0
  Restored u handled s = (handled ≡ false) × At c spec Any (some (record u { stage = restoring })) s

  by_stage :
      (u : UpgradeStatus) (stage : UpgradeStage)
      → u.stage ≡ stage
      → (stage ≡ backing_up → ⊥)
      → Goes c spec Any
          (some u)
          (elim stage [
            | releasing ↦ (do gone ← release_stage c.set u; pure (not gone))
            | _ ↦ pure false
          ])
          (Restored u)
  by_stage u releasing e apart =
      Does-bind _ _ (release_stage-Goes u) λ done. Does-pure (not done) λ s j. (ap not j.0, j.1)
  by_stage u backing_up e apart = absurd (apart refl)
  by_stage u restoring e apart =
      Does-pure false λ s j. (refl, (j.0 ∙ ap (λ x. some (record u { stage = x })) e, j.1, j.2, tt))

  -- At BackingUp no pod was deleted yet.
  abbrev Unsaved : UpgradeStatus → List Event → Type 0
  Unsaved u log = u.stage ≡ backing_up → KeptPods log

  Unsaved-lasts : (u : UpgradeStatus) → Lasts (Unsaved u)
  Unsaved-lasts u = record { after = λ d r log p h e. KeptPods-lasts.after d r log p (h e) }

  forgetting :
      (u : UpgradeStatus) {m : Action Bool}
      → Goes c spec Any (some u) m (Restored u)
      → Goes c spec (Unsaved u) (some u) m (Restored u)
  forgetting u g = Does-weaken (λ s j. (j.0, j.1, j.2, tt)) (λ a s j. j) g

  from_stage :
      (u : UpgradeStatus) (stage : UpgradeStage)
      → u.stage ≡ stage
      → Goes c spec
          (Unsaved u)
          (some u)
          (elim stage [
            | backing_up ↦ (do
              back_up_stage u.from_version
              i' ← current
              releasing_on c.set i'.status.upgrade)
            | _ ↦ releasing_on c.set (some u)
          ])
          (Restored u)
  unfolding releasing_on
  from_stage u backing_up e =
      let u' : UpgradeStatus = record u { stage = releasing } in
      Does-bind _ _
        (Does-weaken (λ s j. (j.0, j.1, j.2, j.3 e)) (λ a s j. j)
          (back_up_stage-Goes u u.from_version))
        λ _.
          read_known c spec Any-lasts (some u') (λ i'. releasing_on c.set i'.status.upgrade)
            λ i' at name same.
              subst (λ v. Goes c spec Any (some u') (releasing_on c.set v) (Restored u)) (sym at)
                (by_stage u' releasing refl λ h. cc)
  from_stage u releasing e = forgetting u (by_stage u u.stage refl λ h. cc)
  from_stage u restoring e = forgetting u (by_stage u u.stage refl λ h. cc)

  continue_upgrade-Goes :
      (u : UpgradeStatus)
      → spec.version ≡ u.to_version
      → Goes c spec (Unsaved u) (some u) (continue_upgrade c.set (some u)) (Restored u)
  unfolding continue_upgrade
  continue_upgrade-Goes u v = read_known c spec (Unsaved-lasts u) (some u) _ λ i e name same.
      Does-when (not (i.spec.version =? u.to_version)) _ _
        (λ h. absurd (
          clash (
            sym (
              ap not (
                agrees (i.spec.version) u.to_version
                  (ap (λ (x : InstanceSpec). x.version) same ∙ v)))
            ∙ h)))
        λ _. from_stage u u.stage refl
    where
      agrees : (x y : String) → x ≡ y → (x =? y) ≡ true
      agrees x y h = rw h (eq_refl y)

  reconcile_major_upgrade-Goes :
      (u : UpgradeStatus)
      → spec.version ≡ u.to_version
      → Goes c spec (Unsaved u) (some u) reconcile_major_upgrade (Restored u)
  unfolding reconcile_major_upgrade upgrade_set_got
  reconcile_major_upgrade-Goes u v = read_known c spec (Unsaved-lasts u) (some u) _ λ i e name same.
      ask_known c spec (Unsaved-lasts u) (some u) (get_stateful_set i.name) (done c.set) _ refl
        (λ log h. set_known c spec i name log)
        (read_known c spec (Unsaved-lasts u) (some u) _ λ i' at name' same'.
          subst (λ w. Goes c spec (Unsaved u) (some u) (upgrade_of c.set w) (Restored u)) (sym at)
            (continue_upgrade-Goes u v))

-- A run that cannot fail returns.
returns :
    {A : Type 0} {P : A → State → Type 0} (r : Result A × State)
    → Ends P Never r
    → (a : A) × ((t : State) × ((r ≡ (ok a, t)) × P a t))
returns (ok a, t) h = (a, (t, (refl, h)))
returns (err e, t) h = absurd h

-- Where a major upgrade is under way, at whatever stage, to the version of the spec, and the cluster
-- does its part (the StatefulSet's pod has stopped, the backup pod succeeded and is there until a pod
-- is deleted, deletions and status writes go through, and a volume is gone once it was deleted), and
-- no pod was deleted yet if the stage is BackingUp: one reconcile of the upgrade returns without an
-- error, lets the reconcile go on, and leaves the upgrade at the stage Restoring with its versions as
-- they were.
pub reconcile_major_upgrade-Completes :
    {env : Env} (i : Instance) (u : UpgradeStatus) (log : List Event)
    → Cooperates env i.name
    → i.status.upgrade ≡ some u
    → i.spec.version ≡ u.to_version
    → (u.stage ≡ backing_up → KeptPods log)
    → (t : State) × ((reconcile_major_upgrade env (record { instance = i; log = log })
          ≡ (ok false, t))
        × (t.instance.status.upgrade ≡ some (record u { stage = restoring })))
reconcile_major_upgrade-Completes {env} i u log c e v kept =
    let s : State = record { instance = i; log = log } in
    let (handled, (t, (run, (h, j)))) =
      returns (reconcile_major_upgrade env s)
        ((reconcile_major_upgrade-Goes c i.spec u v).at s (e, refl, refl, kept)) in
    (t, (run ∙ ap (λ b. (ok b, t)) h, j.0))
