-- ===== src/Backup/Evidence.antt =====
-- When backupDatabases returns without an error.
use kubebird.Prelude.{String, ◌<>◌, not, ◌==◌, ◌≡◌, refl, ap, ◌∙◌, List, [], ◌∷◌, ◌⊎◌, inl, inr}
use kubebird.Api.{Instance}
use kubebird.Naming.{database_backup_pod_name}
use kubebird.Kube.Objects.{StatefulSet, Pod, PodPhase, succeeded}
use kubebird.Kube.Objects
use kubebird.Kube.Calls.{
  Call, Answer, Reply, done, fault, not_found, Event, event, Env, get_stateful_set, get_pod,
}
use kubebird.Kube.Calls
use kubebird.Kube.Action.{State, ask, current}
use kubebird.Kube.Rules.{
  Does, Does-bind, Does-if, Does-pure, Does-raise, Does-weaken, Does-fail, current-Does,
  Keeps-current, Keeps-wrap,
}
use kubebird.Kube.Stable.{IsStable}
use kubebird.Status.Keeps.{set_deletion_message-Keeps}
use kubebird.Storage.Keeps.{unless_missing-Keeps}
use kubebird.Backup.{
  create_database_backup_pod, by_phase, backup_pod_got, backup_databases_offline, backup_set_got,
  backup_databases, wants_replicas,
}
use kubebird.Backup.Keeps.{
  by_phase-Keeps, own-Keeps, create_pod-Keeps, delete_pod-Keeps, update_stateful_set-Keeps,
}

-- The event shows that Instance `n` has nothing left to back up.
abbrev pub IsEvidence : String → Event → Type 0
IsEvidence n (event (get_stateful_set m) (fault (not_found text))) = m ≡ n
IsEvidence n (event (get_pod m) (done pod)) =
    (m ≡ n <> "-database-backup") × (pod.phase ≡ succeeded)
IsEvidence n _ = ⊥

abbrev pub HasBackup : String → List Event → Type 0
HasBackup n [] = ⊥
HasBackup n (e ∷ log) = IsEvidence n e ⊎ HasBackup n log

-- `Before` is kept until there is evidence, and follows from what is kept from then on.
module _ {env : Env} {n : String} {Before : State → Type 0} (st : IsStable env Before)
    (named : (s : State) → Before s → s.instance.name ≡ n) where
  abbrev pub After : State → Type 0
  After s = Before s × HasBackup n s.log

  pub After-stable : IsStable env After
  After-stable = record {
    plain = λ s c r h j. (st.plain s c r h j.0, inr j.1);
    restatus = λ s change h j. (st.restatus s change h j.0, j.1);
    refused = λ s f j. (st.refused s f j.0, inr j.1);
    written = λ s i e j. (st.written s i e j.0, inr j.1);
  }

  by_phase-Does :
      (name : String) (pod : Pod) (phase : PodPhase)
      → Does env
          (λ s. Before s × (phase ≡ succeeded → HasBackup n s.log))
          (by_phase name pod phase)
          (λ _. After)
          Before
  unfolding by_phase
  by_phase-Does name pod succeeded =
      Does-weaken (λ s j. (j.0, j.1 refl)) (λ a s j. j)
        (Does-fail _ (λ s j. j.0) (by_phase-Keeps After-stable name pod succeeded))
  by_phase-Does name pod Objects.failed =
      Does-weaken (λ s j. j.0) (λ a s j. j)
        (Does-bind _ _ (delete_pod-Keeps st pod.name)
          λ r. Does-bind _ _ (unless_missing-Keeps _ r) λ _. Does-raise _ (λ s j. j))
  by_phase-Does name pod _ = Does-raise _ (λ s j. j.0)

  create_database_backup_pod-Does :
      (version : String) → Does env Before (create_database_backup_pod version) (λ _. After) Before
  unfolding create_database_backup_pod
  create_database_backup_pod-Does version = Does-bind current _ Keeps-current λ i.
      Does-bind _ _ (Keeps-wrap _ _ (own-Keeps st _))
        λ _. Does-bind _ _ (Keeps-wrap _ _ (create_pod-Keeps st _)) λ _. Does-raise _ (λ s j. j)

  backup_pod_got-Does :
      (name version : String) (r : Reply Pod)
      → Does env
          (λ s. Before s × ((pod : Pod) → r ≡ done pod → pod.phase ≡ succeeded → HasBackup n s.log))
          (backup_pod_got name version r)
          (λ _. After)
          Before
  unfolding backup_pod_got
  backup_pod_got-Does name version (done pod) =
      Does-weaken (λ s j. (j.0, j.1 pod refl)) (λ a s j. j) (by_phase-Does name pod pod.phase)
  backup_pod_got-Does name version (fault (not_found m)) =
      Does-weaken (λ s j. j.0) (λ a s j. j) (create_database_backup_pod-Does version)
  backup_pod_got-Does name version (fault (Calls.exit_code c m)) = Does-raise _ (λ s j. j.0)
  backup_pod_got-Does name version (fault (Calls.other m)) = Does-raise _ (λ s j. j.0)

  -- Asking for the backup pod of the Instance that the invariant names.
  ask_pod-Does :
      (name : String)
      → name ≡ n <> "-database-backup"
      → Does env Before
          (ask (get_pod name))
          (λ r s.
            Before s × ((pod : Pod) → r ≡ done pod → pod.phase ≡ succeeded → HasBackup n s.log))
          Before
  unfolding ask
  ask_pod-Does name e = record {
    at = λ s j. (
      st.plain s (get_pod name) _ refl j,
      λ pod q h. inl (evident (env.reply s.log (get_pod name)) pod q h),
    );
  }
    where
      evident :
          (r : Reply Pod) (pod : Pod)
          → r ≡ done pod
          → pod.phase ≡ succeeded
          → IsEvidence n (event (get_pod name) r)
      evident r pod q h = rw q (e, h)

  backup_databases_offline-Does :
      (version : String) → Does env Before (backup_databases_offline version) (λ _. After) Before
  unfolding backup_databases_offline database_backup_pod_name
  backup_databases_offline-Does version = Does-bind current _ current-Does λ i. record {
    at = λ s j.
        (Does-bind _ _
            (ask_pod-Does (i.name <> "-database-backup") (
              ap (λ (x : Instance). x.name <> "-database-backup") j.1
              ∙ ap (λ x. x <> "-database-backup") (named s j.0)))
            λ r. backup_pod_got-Does (i.name <> "-database-backup") version r).at
          s j.0;
  }

  backup_set_got-Does :
      (version : String) (r : Reply StatefulSet)
      → Does env
          (λ s. Before s × ((m : String) → r ≡ fault (not_found m) → HasBackup n s.log))
          (backup_set_got version r)
          (λ _. After)
          Before
  unfolding backup_set_got
  backup_set_got-Does version (fault (not_found m)) = Does-pure tt (λ s j. (j.0, j.1 m refl))
  backup_set_got-Does version (fault (Calls.exit_code c m)) = Does-raise _ (λ s j. j.0)
  backup_set_got-Does version (fault (Calls.other m)) = Does-raise _ (λ s j. j.0)
  backup_set_got-Does version (done sts) =
      Does-weaken (λ s j. j.0) (λ a s j. j)
        (Does-if (wants_replicas sts.replicas) _ _
          (Does-bind _ _ (set_deletion_message-Keeps st _) λ _.
            Does-bind _ _ (Keeps-wrap _ _ (update_stateful_set-Keeps st _))
              λ _. Does-raise _ (λ s j. j))
          (Does-if (not (sts.status_replicas == 0)) _ _
            (Does-bind _ _ (set_deletion_message-Keeps st _) λ _. Does-raise _ (λ s j. j))
            (Does-bind _ _ (set_deletion_message-Keeps st _)
              λ _. backup_databases_offline-Does version)))

  ask_set-Does :
      (name : String)
      → name ≡ n
      → Does env Before
          (ask (get_stateful_set name))
          (λ r s. Before s × ((m : String) → r ≡ fault (not_found m) → HasBackup n s.log))
          Before
  unfolding ask
  ask_set-Does name e = record {
    at = λ s j. (
      st.plain s (get_stateful_set name) _ refl j,
      λ m q. inl (evident (env.reply s.log (get_stateful_set name)) m q),
    );
  }
    where
      evident :
          (r : Reply StatefulSet) (m : String)
          → r ≡ fault (not_found m)
          → IsEvidence n (event (get_stateful_set name) r)
      evident r m q = rw q e

  -- Where backupDatabases returns, there is evidence in the history; where it fails, what was so
  -- before still is.
  pub backup_databases-Does :
      (version : String) → Does env Before (backup_databases version) (λ _. After) Before
  unfolding backup_databases
  backup_databases-Does version = Does-bind current _ current-Does λ i. record {
    at = λ s j.
        (Does-bind _ _ (ask_set-Does i.name (ap (λ (x : Instance). x.name) j.1 ∙ named s j.0))
            λ r. backup_set_got-Does version r).at
          s j.0;
  }
