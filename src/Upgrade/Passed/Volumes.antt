-- ===== src/Upgrade/Passed/Volumes.antt =====
-- Releasing the storage, and waiting until it is gone.
use kubebird.Prelude.{
  String, Bool, true, ◌≡◌, refl, sym, ap, ◌∙◌, subst, inl, inr, Option, some, List, [], ◌∷◌,
}
use kubebird.Api.{Instance, InstanceSpec, InstanceStatus, UpgradeStatus, UpgradeStage}
use kubebird.Kube.Objects.{Pvc}
use kubebird.Kube.Calls.{
  Reply, done, fault, not_found, Event, event, Env, delete_pvc, get_pvc, get_stateful_set,
}
use kubebird.Kube.Calls
use kubebird.Kube.Action.{Action, ask, current, modify_status}
use kubebird.Kube.Rules.{
  Does, Does-bind, Does-pure, Does-raise, Does-weaken, Does-fail, current-Does, Keeps,
  Keeps-current, Keeps-wrap,
}
use kubebird.Kube.Stable.{IsStable, write_status-Keeps}
use kubebird.Kube.Traced.{Anything}
use kubebird.Kube.Honest.{IsHonest}
use kubebird.Storage.Keeps.{release-Keeps}
use kubebird.Upgrade.{
  with_stage, set_upgrade_stage, pvc_gone, await_released, release_storage_for_upgrade,
}
use kubebird.Upgrade.Passed.Evidence.{
  Occurs, IsGone, released_volumes, AllGone, UpClosed, same_volumes, At, Looked, Freed,
}

module _ {env : Env} (honest : IsHonest env) (n : String) (spec : InstanceSpec) where
  pub At-stable :
      (E : List Event → Type 0)
      → UpClosed E
      → (u : Option UpgradeStatus) → IsStable env (At n spec E u)
  At-stable E up u = record {
    plain = λ s c r h j. (j.0, up _ s.log j.1);
    restatus = λ s change h j. ((h s.instance.status ∙ j.0.0, j.0.1, j.0.2), j.1);
    refused = λ s f j. (j.0, up _ s.log j.1);
    written = λ s i e j. (
      (
        ap (λ (st : InstanceStatus). st.upgrade) (honest.status_status s.log s.instance i e)
            ∙ j.0.0,
        honest.status_name s.log s.instance i e ∙ j.0.1,
        honest.status_spec s.log s.instance i e ∙ j.0.2,
      ),
      up _ s.log j.1,
    );
  }

  deleted :
      (E : List Event → Type 0)
      → UpClosed E
      → (u : Option UpgradeStatus) (name : String)
      → Keeps env (At n spec E u) (ask (delete_pvc name))
  unfolding ask
  deleted E up u name = record { at = λ s j. (j.0, up _ s.log j.1) }

  pub set_upgrade_stage-Does :
      (E : List Event → Type 0)
      → UpClosed E
      → (u : UpgradeStatus) (stage : UpgradeStage)
      → Does env
          (At n spec E (some u))
          (set_upgrade_stage stage)
          (λ _. At n spec E (some (record u { stage = stage })))
          Anything
  unfolding set_upgrade_stage modify_status
  set_upgrade_stage-Does E up u stage =
      Does-bind current _ (Does-fail current (λ s j. tt) Keeps-current) λ i.
        Does-bind _ _ (record { at = λ s j. ((ap (with_stage stage) j.0.0, j.0.1, j.0.2), j.1) })
          λ _. Does-fail _ (λ s j. tt) (Keeps-wrap _ _ (write_status-Keeps (At-stable E up _)))

  look-Does :
      (E : List Event → Type 0)
      → UpClosed E
      → (u : Option UpgradeStatus) (name : String)
      → Does env (At n spec E u) (ask (get_pvc name)) (Looked n spec E u name) Anything
  unfolding ask
  look-Does E up u name = record {
    at = λ s j. (
      (j.0, up _ s.log j.1),
      λ m e. inl (subst (λ r. IsGone name (event (get_pvc name) r)) (sym e) refl),
    );
  }

  pvc_gone-Does :
      (E : List Event → Type 0) (u : Option UpgradeStatus) (i : Instance) (name : String)
      (names : List String) (r : Reply Pvc) (rest : Action Bool)
      → Does env
          (At n spec (λ log. E log × Occurs (IsGone name) log) u)
          rest
          (λ gone s.
            (gone ≡ true)
            × At n spec (λ log. (E log × Occurs (IsGone name) log) × AllGone names log) u s)
          Anything
      → Does env
          (Looked n spec E u name r)
          (pvc_gone i name r rest)
          (λ gone s. (gone ≡ true) × At n spec (λ log. E log × AllGone (name ∷ names) log) u s)
          Anything
  unfolding pvc_gone
  pvc_gone-Does E u i name names (done p) rest d = Does-raise _ λ s j. tt
  pvc_gone-Does E u i name names (fault (not_found m)) rest d =
      Does-weaken (λ s j. (j.0.0, (j.0.1, j.1 m refl)))
        (λ b s j. (j.0, (j.1.0, (j.1.1.0.0, (j.1.1.0.1, j.1.1.1))))) d
  pvc_gone-Does E u i name names (fault (Calls.exit_code c m)) rest d = Does-raise _ λ s j. tt
  pvc_gone-Does E u i name names (fault (Calls.other m)) rest d = Does-raise _ λ s j. tt

  -- Each of the volumes is gone.
  await_released-Does :
      (E : List Event → Type 0)
      → UpClosed E
      → (u : Option UpgradeStatus) (names : List String)
      → Does env
          (At n spec E u)
          (await_released names)
          (λ gone s. (gone ≡ true) × At n spec (λ log. E log × AllGone names log) u s)
          Anything
  unfolding await_released
  await_released-Does E up u [] = Does-pure true λ s j. (refl, (j.0, (j.1, tt)))
  await_released-Does E up u (name ∷ names) =
      Does-bind (ask (get_pvc name)) _ (look-Does E up u name) λ r.
        Does-bind current _
          (Does-fail current (λ s j. tt) (Keeps-current {J = Looked n spec E u name r}))
          λ i. pvc_gone-Does E u i name names r (await_released names) (
            await_released-Does (λ log. E log × Occurs (IsGone name) log)
              (λ e log j. (up e log j.0, inr j.1)) u names)

  pub release-Does :
      (E : List Event → Type 0)
      → UpClosed E
      → (u : Option UpgradeStatus)
      → Does env
          (At n spec E u)
          release_storage_for_upgrade
          (λ gone s. (gone ≡ true) × At n spec (λ log. E log × Freed n spec log) u s)
          Anything
  unfolding release_storage_for_upgrade
  release-Does E up u =
      Does-bind _ _ (Does-fail _ (λ s j. tt) (release-Keeps (At-stable E up u) (deleted E up u)))
        λ _. Does-bind current _ (Does-fail current (λ s j. tt) current-Does) λ i. record {
          at = λ s j.
              let name = ap (λ (x : Instance). x.name) j.1 ∙ j.0.0.1 in
              let same = ap (λ (x : Instance). x.spec) j.1 ∙ j.0.0.2 in
              (Does-weaken {P' = At n spec E u} (λ s j. j)
                  (λ b s k. (
                    k.0,
                    (
                      k.1.0,
                      (
                        k.1.1.0,
                        λ i' e f.
                            subst (λ names. AllGone names s.log)
                              (same_volumes i i' (name ∙ sym e) (same ∙ sym f)) k.1.1.1,
                      ),
                    ),
                  ))
                  (await_released-Does E up u (released_volumes i))).at
                s j.0;
        }
