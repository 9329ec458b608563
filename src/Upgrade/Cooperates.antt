-- ===== src/Upgrade/Cooperates.antt =====
-- What the steps of a major upgrade do against a cluster that does its part.
use kubebird.Prelude.{
  String, ◌<>◌, true, false, not, ◌≡◌, refl, sym, ap, ◌∙◌, subst, Option, some, List, [], ◌∷◌, ◌==◌,
  ◌=?◌, inl,
}
use kubebird.Prelude.Text.{quote}
use kubebird.Api.{Instance, InstanceSpec, UpgradeStatus, UpgradeStage}
use kubebird.Naming.{database_backup_pod_name}
use kubebird.Kube.Objects.{StatefulSet, Pod, PodPhase, succeeded}
use kubebird.Kube.Calls.{
  Call, Answer, Reply, done, fault, not_found, Event, event, Env, get_stateful_set, get_pod,
  delete_pod, delete_pvc, get_pvc, update_status,
}
use kubebird.Kube.Calls
use kubebird.Kube.Action.{
  Action, State, ◌>>=◌, ask, current, modify_status, write_status, adopt, pure,
}
use kubebird.Kube.Rules.{Does, Does-bind, Does-when, Does-if, Does-pure, Does-wrap, Ends}
use kubebird.Kube.Traced.{IsGone}
use kubebird.Status.{set_deletion_message}
use kubebird.Storage.{delete_volume, unless_missing}
use kubebird.Backup.{
  backup_databases, backup_databases_offline, backup_set_got, backup_pod_got, by_phase,
  wants_replicas,
}
use kubebird.Upgrade.{with_stage, set_upgrade_stage, pvc_gone, await_released}
use kubebird.Upgrade.Histories.{
  KeptPods, Deleted, AllDeleted, is_pod_deletion, Lasts, Any, KeptPods-lasts,
}

-- The cluster of Instance `n` does its part: the StatefulSet is there and its pod has stopped, the
-- backup pod is there until a pod is deleted, and has succeeded, deletions and status writes go
-- through, and a volume that was deleted is gone.
pub record Cooperates (env : Env) (n : String) : Type 0 where
  pub set : StatefulSet
  pub set_found : (log : List Event) → env.reply log (get_stateful_set n) ≡ done set
  pub set_stopping : wants_replicas set.replicas ≡ false
  pub set_stopped : (set.status_replicas == 0) ≡ true
  pub pod : Pod
  pub pod_found :
      (log : List Event)
      → KeptPods log
      → env.reply log (get_pod (n <> "-database-backup")) ≡ done pod
  pub pod_succeeded : pod.phase ≡ succeeded
  pub pod_deleted : (log : List Event) (m : String) → IsGone (env.reply log (delete_pod m))
  pub volume_deleted : (log : List Event) (m : String) → IsGone (env.reply log (delete_pvc m))
  pub text : String → String
  pub volume_gone :
      (log : List Event) (m : String)
      → Deleted m log
      → env.reply log (get_pvc m) ≡ fault (not_found (text m))
  pub status_written : (log : List Event) (i : Instance) → env.reply log (update_status i) ≡ done i

-- No run fails.
abbrev pub Never : State → Type 0
Never s = ⊥

pub clash : false ≡ true → ⊥
clash h = cc

module _ {env : Env} {n : String} (c : Cooperates env n) (spec : InstanceSpec) where
  abbrev pub At : (List Event → Type 0) → Option UpgradeStatus → State → Type 0
  At H u s =
      (s.instance.status.upgrade ≡ u) × (s.instance.name ≡ n) × (s.instance.spec ≡ spec) × H s.log

  abbrev pub Goes {ℓ} :
      {A : Type ℓ}
      → (List Event → Type 0)
      → Option UpgradeStatus
      → Action A
      → (A → State → Type 0)
      → Type ℓ
  Goes H u m Q = Does env (At H u) m Q Never

  module _ {H : List Event → Type 0} (lasts : Lasts H) where
    pub ask_known :
        {A : Type 0} {Q : A → State → Type 0} (u : Option UpgradeStatus) (d : Call)
        (r : Reply (Answer d)) (f : Reply (Answer d) → Action A)
        → is_pod_deletion d ≡ false
        → ((log : List Event) → H log → env.reply log d ≡ r)
        → Goes H u (f r) Q
        → Goes H u (ask d >>= f) Q
    unfolding ask ◌>>=◌
    ask_known {Q} u d r f p e g = record {
      at = λ s j.
          subst (λ x. Ends Q Never (f x env (record s { log = event d x ∷ s.log })))
            (sym (e s.log j.3))
            (g.at (record s { log = event d r ∷ s.log })
              (j.0, j.1, j.2, lasts.after d r s.log p j.3));
    }

    saved : (u : Option UpgradeStatus) → Goes H u write_status (λ _. At H u)
    unfolding write_status
    saved u = record {
      at = λ s j.
          subst (λ r. Ends (λ (_ : Unit {0}). At H u) Never (adopt r s))
            (sym (c.status_written s.log s.instance))
            (j.0, j.1, j.2, lasts.after (update_status s.instance) _ s.log refl j.3);
    }

    pub read_known :
        {A : Type 0} {Q : A → State → Type 0} (u : Option UpgradeStatus) (f : Instance → Action A)
        → ((i : Instance) → i.status.upgrade ≡ u → i.name ≡ n → i.spec ≡ spec → Goes H u (f i) Q)
        → Goes H u (current >>= f) Q
    unfolding current ◌>>=◌
    read_known u f g = record { at = λ s j. (g s.instance j.0 j.1 j.2).at s j }

    pub set_deletion_message-Goes :
        (u : Option UpgradeStatus) (message : String)
        → Goes H u (set_deletion_message message) (λ _. At H u)
    unfolding set_deletion_message modify_status
    set_deletion_message-Goes u message = read_known u _ λ i e name same.
        Does-if (i.status.message =? message) _ _ (Does-pure tt λ s j. j)
          (Does-bind _ _ (record { at = λ s j. j }) λ _. Does-wrap _ _ (saved u))

    pub set_upgrade_stage-Goes :
        (u : UpgradeStatus) (stage : UpgradeStage)
        → Goes H (some u) (set_upgrade_stage stage) (λ _. At H (some (record u { stage = stage })))
    unfolding set_upgrade_stage modify_status
    set_upgrade_stage-Goes u stage = read_known (some u) _ λ i e name same.
        Does-bind _ _ (record { at = λ s j. (ap (with_stage stage) j.0, j.1, j.2, j.3) })
          λ _. Does-wrap _ _ (saved _)

    -- A volume that was to be deleted is deleted, and what lasts is still there.
    pub delete_volume-Goes :
        (u : Option UpgradeStatus) (m : String)
        → Goes H u (delete_volume m) (λ _. At (λ log. H log × Deleted m log) u)
    unfolding delete_volume unless_missing ask ◌>>=◌ pure
    delete_volume-Goes u m = record {
      at = λ s j. by s j (env.reply s.log (delete_pvc m)) (c.volume_deleted s.log m);
    }
      where
        by :
            (s : State)
            → At H u s
            → (r : Reply (Unit {0})) → IsGone r
            → Ends
                (λ (_ : Unit {0}). At (λ log. H log × Deleted m log) u)
                Never
                (unless_missing
                  ("failed to delete PVC " <> (quote m <> ": "))
                  r
                  env
                  (record s { log = event (delete_pvc m) r ∷ s.log }))
        by s j (done x) g =
            (j.0, j.1, j.2, (lasts.after (delete_pvc m) _ s.log refl j.3, inl (refl, tt)))
        by s j (fault (not_found t)) g =
            (j.0, j.1, j.2, (lasts.after (delete_pvc m) _ s.log refl j.3, inl (refl, tt)))
        by s j (fault (Calls.exit_code k t)) g = absurd g
        by s j (fault (Calls.other t)) g = absurd g

    pub await_released-Goes :
        (u : Option UpgradeStatus) (names : List String)
        → ((log : List Event) → H log → AllDeleted names log)
        → Goes H u (await_released names) (λ gone s. (gone ≡ true) × At H u s)
    unfolding await_released pvc_gone
    await_released-Goes u [] all = Does-pure true λ s j. (refl, j)
    await_released-Goes u (name ∷ names) all =
        ask_known u (get_pvc name) (fault (not_found (c.text name))) _ refl
          (λ log h. c.volume_gone log name (all log h).0)
          (read_known u _ λ i e m same. await_released-Goes u names λ log h. (all log h).1)

  by_phase-Goes :
      (u : Option UpgradeStatus) (name : String) (phase : PodPhase)
      → phase ≡ succeeded
      → Does env (At KeptPods u) (by_phase name c.pod phase) (λ _. At Any u) Never
  unfolding by_phase unless_missing ask ◌>>=◌ pure
  by_phase-Goes u name phase e =
      subst (λ p. Does env (At KeptPods u) (by_phase name c.pod p) (λ _. At Any u) Never) (sym e)
        (record {
          at = λ s j.
              by s j (env.reply s.log (delete_pod c.pod.name)) (c.pod_deleted s.log c.pod.name);
        })
    where
      by :
          (s : State)
          → At KeptPods u s
          → (r : Reply (Unit {0})) → IsGone r
          → Ends
              (λ (_ : Unit {0}). At Any u)
              Never
              (unless_missing "failed to delete database backup Pod: " r env
                (record s { log = event (delete_pod c.pod.name) r ∷ s.log }))
      by s j (done x) g = (j.0, j.1, j.2, tt)
      by s j (fault (not_found t)) g = (j.0, j.1, j.2, tt)
      by s j (fault (Calls.exit_code k t)) g = absurd g
      by s j (fault (Calls.other t)) g = absurd g

  offline-Goes :
      (u : Option UpgradeStatus) (version : String)
      → Goes KeptPods u (backup_databases_offline version) (λ _. At Any u)
  unfolding backup_databases_offline backup_pod_got database_backup_pod_name
  offline-Goes u version = read_known KeptPods-lasts u _ λ i e name same.
      ask_known KeptPods-lasts u (get_pod (i.name <> "-database-backup")) (done c.pod) _ refl
        (subst
          (λ m.
            (log : List Event)
            → KeptPods log
            → env.reply log (get_pod (m <> "-database-backup")) ≡ done c.pod)
          (sym name) c.pod_found)
        (by_phase-Goes u _ c.pod.phase c.pod_succeeded)

  backup_set_got-Goes :
      (u : Option UpgradeStatus) (version : String)
      → Goes KeptPods u (backup_set_got version (done c.set)) (λ _. At Any u)
  unfolding backup_set_got
  backup_set_got-Goes u version =
      Does-when (wants_replicas c.set.replicas) _ _ (λ h. absurd (clash (sym c.set_stopping ∙ h)))
        λ _.
          Does-when (not (c.set.status_replicas == 0)) _ _
            (λ h. absurd (clash (sym (ap not c.set_stopped) ∙ h)))
            λ _.
              Does-bind _ _ (set_deletion_message-Goes KeptPods-lasts u _)
                λ _. offline-Goes u version

  pub set_known :
      (i : Instance)
      → i.name ≡ n
      → (log : List Event) → env.reply log (get_stateful_set i.name) ≡ done c.set
  set_known i e =
      subst (λ m. (log : List Event) → env.reply log (get_stateful_set m) ≡ done c.set) (sym e)
        c.set_found

  pub backup_databases-Goes :
      (u : Option UpgradeStatus) (version : String)
      → Goes KeptPods u (backup_databases version) (λ _. At Any u)
  unfolding backup_databases
  backup_databases-Goes u version = read_known KeptPods-lasts u _ λ i e name same.
      ask_known KeptPods-lasts u (get_stateful_set i.name) (done c.set) _ refl
        (λ log h. set_known i name log) (backup_set_got-Goes u version)
