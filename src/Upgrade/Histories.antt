-- ===== src/Upgrade/Histories.antt =====
-- What the history of a major upgrade tells of volumes and pods, and which calls it outlasts.
use kubebird.Prelude.{String, Bool, true, false, ◌≡◌, List, [], ◌∷◌, ◌⊎◌, inr}
use kubebird.Kube.Calls.{Call, Answer, Reply, Event, event, delete_pod, delete_pvc}
use kubebird.Kube.Traced.{IsGone}

-- No pod was deleted.
abbrev pub KeptPods : List Event → Type 0
KeptPods [] = Unit
KeptPods (event (delete_pod m) r ∷ log) = ⊥
KeptPods (event _ r ∷ log) = KeptPods log

-- The volume was deleted, or found missing when it was to be deleted.
abbrev pub Deleted : String → List Event → Type 0
Deleted m [] = ⊥
Deleted m (event (delete_pvc k) r ∷ log) = ((k ≡ m) × IsGone r) ⊎ Deleted m log
Deleted m (event _ r ∷ log) = Deleted m log

abbrev pub is_pod_deletion : Call → Bool
is_pod_deletion (delete_pod m) = true
is_pod_deletion c = false

-- What holds of a history goes on holding after any call but the deletion of a pod.
pub record Lasts (H : List Event → Type 0) : Type 0 where
  pub after :
      (c : Call) (r : Reply (Answer c)) (log : List Event)
      → is_pod_deletion c ≡ false
      → H log
      → H (event c r ∷ log)

abbrev pub Any : List Event → Type 0
Any log = Unit

pub Any-lasts : Lasts Any
Any-lasts = record { after = λ c r log p h. tt }

pub KeptPods-lasts : Lasts KeptPods
KeptPods-lasts = record { after = step }
  where
    step :
        (c : Call) (r : Reply (Answer c)) (log : List Event)
        → is_pod_deletion c ≡ false
        → KeptPods log
        → KeptPods (event c r ∷ log)
    step (delete_pod m) r log p h = cc
    step _ r log p h = h

pub Deleted-lasts : (m : String) → Lasts (Deleted m)
Deleted-lasts m = record { after = step }
  where
    step :
        (c : Call) (r : Reply (Answer c)) (log : List Event)
        → is_pod_deletion c ≡ false
        → Deleted m log
        → Deleted m (event c r ∷ log)
    step (delete_pvc k) r log p h = inr h
    step _ r log p h = h

-- Each of the volumes was deleted.
abbrev pub AllDeleted : List String → List Event → Type 0
AllDeleted [] log = Unit
AllDeleted (m ∷ names) log = Deleted m log × AllDeleted names log
