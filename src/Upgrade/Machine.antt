-- ===== src/Upgrade/Machine.antt =====
-- The life of status.upgrade as an abstract machine, and the histories that follow it.
use kubebird.Prelude.{ℕ, String, ◌<◌, true, ◌≡◌, Option, none, some, List, [], ◌∷◌}
use kubebird.Api.{UpgradeStatus, backing_up, releasing, restoring}
use kubebird.Kube.Calls.{Call, Answer, Reply, Event, event, update_status}
use kubebird.Kube.Stable.{is_plain}
use kubebird.Version.{firebird_major_version}

-- The second major is known and greater than the first, which is known.
abbrev pub Newer : Option ℕ → Option ℕ → Type 0
Newer (some from) (some to) = from < to
Newer none to = ⊥
Newer (some from) none = ⊥

-- The version to upgrade to has a greater major than the one to upgrade from.
abbrev pub IsNewer : String → String → Type 0
IsNewer from to = Newer (firebird_major_version from) (firebird_major_version to)

-- One step of an upgrade: it is recorded at its first stage, goes through the other two with its
-- versions as they are, and may be forgotten at any stage.
pub data Step : Option UpgradeStatus → Option UpgradeStatus → Type 0 where
  started :
      (u : UpgradeStatus)
      → u.stage ≡ backing_up
      → IsNewer u.from_version u.to_version
      → Step none (some u)
  saved :
      (u : UpgradeStatus)
      → u.stage ≡ backing_up
      → Step (some u) (some (record u { stage = releasing }))
  released :
      (u : UpgradeStatus)
      → u.stage ≡ releasing
      → Step (some u) (some (record u { stage = restoring }))
  finished : (u : UpgradeStatus) → Step (some u) none

pub data Reach (u : Option UpgradeStatus) : Option UpgradeStatus → Type 0 where
  here : Reach u u
  next : {v w : Option UpgradeStatus} → Reach u v → Step v w → Reach u w

-- Beginning with `u`, the machine goes through the values that the history's writes of the status
-- carry, in their order, and on to `v`.
abbrev pub Follows : Option UpgradeStatus → List Event → Option UpgradeStatus → Type 0
Follows u [] v = Reach u v
Follows u (event (update_status i) r ∷ log) v =
    Follows u log i.status.upgrade × Reach i.status.upgrade v
Follows u (event _ r ∷ log) v = Follows u log v

pub Follows-next :
    (u : Option UpgradeStatus) (log : List Event) {v w : Option UpgradeStatus}
    → Step v w
    → Follows u log v
    → Follows u log w
Follows-next u [] st f = next f st
Follows-next u (event (update_status i) r ∷ log) st f = (f.0, next f.1 st)
Follows-next u (event _ r ∷ log) st f = Follows-next u log st f

-- A call that is no write of the Instance leaves the machine alone.
pub Follows-plain :
    (u v : Option UpgradeStatus) (log : List Event) (c : Call) (r : Reply (Answer c))
    → is_plain c ≡ true
    → Follows u log v
    → Follows u (event c r ∷ log) v
Follows-plain u v log (update_status i) r h f = cc
Follows-plain u v log _ r h f = f
