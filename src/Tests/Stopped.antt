-- ===== src/Tests/Stopped.antt =====
-- A cluster on which the pod of Instance `shop` has stopped in the middle of a major upgrade.
use kubebird.Prelude.{
  String, Bool, true, ◌||◌, ◌=?◌, ◌≡◌, refl, none, some, List, [], ◌∷◌, eq_refl, inl, inr,
  if◌then◌else◌,
}
use kubebird.Api.{Instance, UpgradeStatus, backing_up}
use kubebird.Kube.Objects.{StatefulSet, Pod, Pvc, succeeded}
use kubebird.Kube.Calls.{
  Call, Answer, Reply, done, fault, not_found, Event, event, Env, get_stateful_set, get_pod,
  delete_pod, get_pvc, delete_pvc,
}
use kubebird.Upgrade.Histories.{KeptPods, Deleted}
use kubebird.Upgrade.Cooperates.{Cooperates}
use kubebird.Kube.Traced.{IsGone}
use kubebird.Tests.Server.{server, answer, instance_of, server_set, server_pod}
use kubebird.Prelude.{false}

abbrev stopped_set : StatefulSet
stopped_set = record (server_set "4.0.2") { replicas = some 0; status_replicas = 0 }

abbrev backup_pod : Pod
backup_pod = record (server_pod "shop-database-backup") { phase = succeeded }

abbrev volume_of : String → Pvc
volume_of n = record {
  name = n;
  labels = [];
  access_modes = [];
  size = "1Gi";
  storage_class = none;
}

-- The volumes that were deleted in the history.
abbrev was_deleted : String → List Event → Bool
was_deleted name [] = false
was_deleted name (event (delete_pvc m) r ∷ log) = m =? name || was_deleted name log
was_deleted name (event _ r ∷ log) = was_deleted name log

abbrev pods_kept : List Event → Bool
pods_kept [] = true
pods_kept (event (delete_pod m) r ∷ log) = false
pods_kept (event _ r ∷ log) = pods_kept log

-- The volumes and the backup pod are there until they are deleted.
abbrev stopped : List Event → (c : Call) → Reply (Answer c)
stopped log (get_stateful_set n) = done stopped_set
stopped log (get_pod n) = if pods_kept log then done backup_pod else fault (not_found n)
stopped log (delete_pod n) = if pods_kept log then done tt else fault (not_found n)
stopped log (delete_pvc n) = if was_deleted n log then fault (not_found n) else done tt
stopped log (get_pvc n) = if was_deleted n log then fault (not_found n) else done (volume_of n)
stopped log c = answer log c

or_true : (b : Bool) → (b || true) ≡ true
or_true true = refl
or_true false = refl

either-IsGone : (b : Bool) (n : String) → IsGone (if b then done tt else fault (not_found n))
either-IsGone true n = tt
either-IsGone false n = tt

missing-IsGone : (b : Bool) (n : String) → IsGone (if b then fault (not_found n) else done tt)
missing-IsGone true n = tt
missing-IsGone false n = tt

kept : (log : List Event) → KeptPods log → pods_kept log ≡ true
kept [] h = refl
kept (event (delete_pod m) r ∷ log) h = absurd h
kept (event _ r ∷ log) h = kept log h

gone : (log : List Event) (m : String) → Deleted m log → was_deleted m log ≡ true
gone [] m h = absurd h
gone (event (delete_pvc k) r ∷ log) m (inl h) = rw (h.0, eq_refl m) refl
gone (event (delete_pvc k) r ∷ log) m (inr h) = rw (gone log m h) (or_true (k =? m))
gone (event _ r ∷ log) m h = gone log m h

abbrev pub stopped_server : Env
stopped_server = record server { reply = stopped }

abbrev pub upgrade : UpgradeStatus
upgrade = record { from_version = "4.0.2"; to_version = "5.0.1"; stage = backing_up }

abbrev pub upgrading_instance : Instance
upgrading_instance = record (instance_of false "shop") {
  status = record (instance_of false "shop").status { upgrade = some upgrade };
}

pub stopped_server-Cooperates : Cooperates stopped_server "shop"
stopped_server-Cooperates = record {
  set = stopped_set;
  set_found = λ log. refl;
  set_stopping = refl;
  set_stopped = refl;
  pod = backup_pod;
  pod_found = λ log h. rw (kept log h) refl;
  pod_succeeded = refl;
  pod_deleted = λ log m. either-IsGone (pods_kept log) m;
  volume_deleted = λ log m. missing-IsGone (was_deleted m log) m;
  text = λ m. m;
  volume_gone = λ log m h. rw (gone log m h) refl;
  status_written = λ log i. refl;
}
