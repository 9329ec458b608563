-- ===== src/Upgrade/Passed.antt =====
-- When a reconcile goes on past the step of a major upgrade.
pub mod Evidence
pub mod Volumes
pub mod Steps
use kubebird.Prelude.{
  ℕ, String, Bool, true, false, not, ◌≡◌, refl, sym, ap, ◌∙◌, subst, ◌⊎◌, inl, inr, Option, none,
  some, List, [], ◌∷◌, All, ◌==◌, ltb, ◌=?◌, eq_iff, is_none, if◌then◌else◌,
}
use kubebird.Api.{
  Instance, InstanceSpec, InstanceStatus, UpgradeStatus, UpgradeStage, backing_up, releasing,
  restoring,
}
use kubebird.Naming.{backup_volume_spec, primary_pvc_name, shadow_pvc_name}
use kubebird.Kube.Objects.{StatefulSet, Pvc}
use kubebird.Kube.Calls.{
  Reply, done, fault, not_found, Event, event, Env, delete_pvc, get_pvc, get_stateful_set,
}
use kubebird.Kube.Calls
use kubebird.Kube.Action.{
  Action, State, ok, pure, ◌>>=◌, ◌>>◌, wrap, ask, current, modify_status, write_status,
}
use kubebird.Kube.Rules.{
  Does, Does-bind, Does-when, Does-pure, Does-raise, Does-wrap, Does-weaken, Does-fail, Does-after,
  Does-still, Does-run, Does-any, current-Does, Ends, Keeps, Keeps-current, Keeps-wrap,
}
use kubebird.Kube.Stable.{IsStable, ask-Keeps, modify_status-Keeps, write_status-Keeps}
use kubebird.Kube.Traced.{Anything, Does-given}
use kubebird.Kube.Honest.{IsHonest}
use kubebird.Storage.Keeps.{release-Keeps}
use kubebird.Backup.Keeps.{backup_databases-Keeps}
use kubebird.Version.{firebird_major_version, stateful_set_firebird_version}
use kubebird.Upgrade.{
  with_stage, set_upgrade_stage, pvc_gone, await_released, release_storage_for_upgrade,
  record_upgrade, compare_majors, start_major_upgrade, back_up_stage, release_stage, releasing_on,
  continue_upgrade, upgrade_set_got, reconcile_major_upgrade,
}
use kubebird.Upgrade.Passed.Evidence.{
  Occurs, IsGone, IsFound, released_volumes, AllGone, UpClosed, same_volumes, AllGone-up, At,
  Looked, Freed, Found, Ready, Restores, Passes, IsMissing, Outcome,
}
use kubebird.Upgrade.Passed.Volumes.{At-stable, set_upgrade_stage-Does, release-Does}
use kubebird.Upgrade.Passed.Steps.{continue_upgrade-Does}

module _ {env : Env} (honest : IsHonest env) (n : String) (spec : InstanceSpec) where
  -- Whether an upgrade was started.
  abbrev Begun : StatefulSet → Bool → State → Type 0
  Begun sts true s =
      (u : UpgradeStatus) × ((u.stage ≡ backing_up) × At n spec (Found n spec sts) (some u) s)
  Begun sts false s = At n spec (Found n spec sts) none s

  record_upgrade-Does :
      (sts : StatefulSet) (running : String)
      → Does env (At n spec (Found n spec sts) none) (record_upgrade running) (Begun sts) Anything
  unfolding record_upgrade modify_status
  record_upgrade-Does sts running =
      Does-bind current _ (Does-fail current (λ s j. tt) Keeps-current) λ i.
        let u : UpgradeStatus = record {
          from_version = running;
          to_version = i.spec.version;
          stage = backing_up;
        } in
        Does-bind _ _ (record { at = λ s j. ((refl, j.0.1, j.0.2), j.1) })
          λ _.
            Does-bind _ _
              (Does-fail _ (λ s j. tt)
                (Keeps-wrap _ _ (
                  write_status-Keeps
                    (At-stable honest n spec (Found n spec sts) (λ e log j. inr j) (some u)))))
              λ _. Does-pure true λ s j. (u, (refl, j))

  compare_majors-Does :
      (sts : StatefulSet) (i : Instance) (running : String) (from to : Option ℕ)
      → Does env
          (At n spec (Found n spec sts) none)
          (compare_majors i running from to)
          (Begun sts)
          Anything
  unfolding compare_majors
  compare_majors-Does sts i running none to = Does-pure false λ s j. j
  compare_majors-Does sts i running (some from) none = Does-pure false λ s j. j
  compare_majors-Does sts i running (some from) (some to) =
      Does-when (from == to) _ _ (λ h. Does-pure false λ s j. j)
        λ h.
          Does-when (ltb to from) _ _ (λ k. Does-raise _ λ s j. tt)
            λ k.
              Does-when (is_none (backup_volume_spec i)) _ _ (λ v. Does-raise _ λ s j. tt)
                λ v. record_upgrade-Does sts running

  after_start :
      (sts : StatefulSet) (begun : Bool)
      → Does env
          (Begun sts begun)
          (do i' ← current; if begun then continue_upgrade sts i'.status.upgrade else pure false)
          (Passes n spec sts none)
          Anything
  after_start sts false =
      Does-bind current _
        (Does-fail current (λ s j. tt) (Keeps-current {J = At n spec (Found n spec sts) none}))
        λ i'. Does-pure false λ s j. (refl, inl (refl, j.0.0))
  after_start sts true =
      Does-bind current _ (Does-fail current (λ s j. tt) (current-Does {J = Begun sts true})) λ i'.
        record {
          at = λ s j.
              subst (λ v. Ends (Passes n spec sts none) Anything (continue_upgrade sts v env s))
                (sym (ap (λ (x : Instance). x.status.upgrade) j.1 ∙ j.0.1.1.0.0))
                ((continue_upgrade-Does honest n spec sts none j.0.0
                    (λ h. absurd (differ (sym j.0.1.0 ∙ h)))).at
                  s j.0.1.1);
        }
    where
      differ : backing_up ≡ restoring → ⊥
      differ h = cc

  upgrade_known-Does :
      (sts : StatefulSet) (first : Option UpgradeStatus)
      → Does env
          (At n spec (Found n spec sts) first)
          (if is_none first
            then (do
              started ← start_major_upgrade sts
              i' ← current
              if started then continue_upgrade sts i'.status.upgrade else pure false)
            else continue_upgrade sts first)
          (Passes n spec sts first)
          Anything
  unfolding start_major_upgrade
  upgrade_known-Does sts none =
      Does-bind _ _
        (Does-bind current _ (Does-fail current (λ s j. tt) Keeps-current) λ i.
          compare_majors-Does sts i (stateful_set_firebird_version sts)
            (firebird_major_version (stateful_set_firebird_version sts))
            (firebird_major_version i.spec.version))
        (after_start sts)
  upgrade_known-Does sts (some u) = continue_upgrade-Does honest n spec sts (some u) u λ h. refl

  -- The StatefulSet was asked for at first.
  abbrev Asked : Option UpgradeStatus → Reply StatefulSet → State → Type 0
  Asked first r s =
      ((s.instance.status.upgrade ≡ first) × (s.instance.name ≡ n) × (s.instance.spec ≡ spec))
      × (s.log ≡ event (get_stateful_set n) r ∷ [])

  abbrev upgrade_of : StatefulSet → Option UpgradeStatus → Action Bool
  upgrade_of sts u =
      if is_none u
      then (do
        started ← start_major_upgrade sts
        i' ← current
        if started then continue_upgrade sts i'.status.upgrade else pure false)
      else continue_upgrade sts u

  passed :
      (sts : StatefulSet) (first : Option UpgradeStatus) (handled : Bool) (s : State)
      → Passes n spec sts first handled s
      → Outcome n spec first handled s
  passed sts first handled s (e, inl idle) = (e, inr (inl idle))
  passed sts first handled s (e, inr r) = (e, inr (inr (sts, r)))

  upgrade_of-Does :
      (sts : StatefulSet) (first : Option UpgradeStatus)
      → Does env (Asked first (done sts)) (upgrade_of sts first) (Outcome n spec first) Anything
  upgrade_of-Does sts first =
      Does-weaken (λ s j. (j.0, subst (Occurs (IsFound n sts)) (sym j.1) (inl (refl, refl))))
        (passed sts first) (upgrade_known-Does sts first)

  upgrade_set_got-Does :
      (first : Option UpgradeStatus) (r : Reply StatefulSet)
      → Does env (Asked first r) (upgrade_set_got r) (Outcome n spec first) Anything
  unfolding upgrade_set_got
  upgrade_set_got-Does first (done sts) =
      Does-bind current _
        (Does-fail current (λ s j. tt) (current-Does {J = Asked first (done sts)}))
        λ i. record {
          at = λ s j.
              subst (λ u. Ends (Outcome n spec first) Anything (upgrade_of sts u env s))
                (sym (ap (λ (x : Instance). x.status.upgrade) j.1 ∙ j.0.0.0))
                ((upgrade_of-Does sts first).at s j.0);
        }
  upgrade_set_got-Does first (fault (not_found m)) = Does-pure false λ s j. (refl, inl (m, j.1))
  upgrade_set_got-Does first (fault (Calls.exit_code c m)) = Does-raise _ λ s j. tt
  upgrade_set_got-Does first (fault (Calls.other m)) = Does-raise _ λ s j. tt

first_call :
    {env : Env} (honest : IsHonest env) (i : Instance)
    → Does env
        (λ s. s ≡ record { instance = i; log = [] })
        (ask (get_stateful_set i.name))
        (λ r. Asked honest i.name i.spec i.status.upgrade r)
        Anything
unfolding ask
first_call {env} honest i = record {
  at = λ s j. (
    (
      ap (λ (x : State). x.instance.status.upgrade) j,
      ap (λ (x : State). x.instance.name) j,
      ap (λ (x : State). x.instance.spec) j,
    ),
    ap
        (λ (l : List Event).
          event (get_stateful_set i.name) (env.reply s.log (get_stateful_set i.name)) ∷ l)
        (ap (λ (x : State). x.log) j),
  );
}

-- If the API server answers a status write with the object written, then reconcileMajorUpgrade, from
-- an empty history, returns without an error only to let the reconcile go on (it returns false), and
-- then: the StatefulSet was asked for and found missing, and nothing else was called; or there was no
-- upgrade and there is none; or the upgrade is at the stage Restoring. In the last case the upgrade
-- was so, versions included, when the reconcile began, or the StatefulSet was found running the
-- version to upgrade to, or it was found and the primary volume, and the shadow volume if the spec
-- has one, were looked for and are not there.
pub reconcile_major_upgrade-Passes :
    {env : Env}
    → IsHonest env
    → (i : Instance) (handled : Bool) (t : State)
    → reconcile_major_upgrade env (record { instance = i; log = [] }) ≡ (ok handled, t)
    → Outcome i.name i.spec i.status.upgrade handled t
unfolding reconcile_major_upgrade
reconcile_major_upgrade-Passes {env} honest i handled t run =
    Does-run {env = env} {P = λ s. s ≡ record { instance = i; log = [] }}
      (Does-still i _ (λ s j. ap (λ (x : State). x.instance) j)
        (Does-bind (ask (get_stateful_set i.name)) upgrade_set_got (first_call honest i)
          (upgrade_set_got-Does honest i.name i.spec i.status.upgrade)))
      (record { instance = i; log = [] }) t handled refl run
