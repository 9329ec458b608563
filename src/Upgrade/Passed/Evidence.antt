-- ===== src/Upgrade/Passed/Evidence.antt =====
-- What the history shows of the volumes and the StatefulSet, and what it allows an upgrade.
use kubebird.Prelude.{
  String, Bool, false, ◌≡◌, refl, ◌⊎◌, inr, Option, none, some, List, [], ◌∷◌, All, is_none,
  if◌then◌else◌,
}
use kubebird.Api.{Instance, InstanceSpec, UpgradeStatus, restoring}
use kubebird.Naming.{primary_pvc_name, shadow_pvc_name}
use kubebird.Kube.Objects.{StatefulSet, Pvc}
use kubebird.Kube.Calls.{Reply, done, fault, not_found, Event, event, get_pvc, get_stateful_set}
use kubebird.Kube.Action.{State}
use kubebird.Version.{stateful_set_firebird_version}

-- Some event of the history is such.
abbrev pub Occurs : (Event → Type 0) → List Event → Type 0
Occurs P [] = ⊥
Occurs P (e ∷ log) = P e ⊎ Occurs P log

-- The volume was looked for and is not there.
abbrev pub IsGone : String → Event → Type 0
IsGone name (event (get_pvc m) (fault (not_found text))) = m ≡ name
IsGone name _ = ⊥

-- The StatefulSet was found so.
abbrev pub IsFound : String → StatefulSet → Event → Type 0
IsFound name sts (event (get_stateful_set m) (done x)) = (m ≡ name) × (x ≡ sts)
IsFound name sts _ = ⊥

-- The volumes that an upgrade releases.
abbrev pub released_volumes : Instance → List String
released_volumes i =
    primary_pvc_name i ∷ (if is_none i.spec.storage.shadow then [] else shadow_pvc_name i ∷ [])

abbrev pub AllGone : List String → List Event → Type 0
AllGone names log = All (λ name. Occurs (IsGone name) log) names

-- What holds of a history holds of each longer one.
abbrev pub UpClosed : (List Event → Type 0) → Type 0
UpClosed E = (e : Event) (log : List Event) → E log → E (e ∷ log)

pub same_volumes :
    (i i' : Instance)
    → i.name ≡ i'.name
    → i.spec ≡ i'.spec
    → released_volumes i ≡ released_volumes i'
unfolding primary_pvc_name shadow_pvc_name
same_volumes i i' e f = rw (e, f) refl

pub AllGone-up : (names : List String) → UpClosed (AllGone names)
AllGone-up [] e log h = tt
AllGone-up (name ∷ names) e log h = (inr h.0, AllGone-up names e log h.1)

module _ (n : String) (spec : InstanceSpec) where
  -- The upgrade in memory, and what the history shows; name and spec stay.
  abbrev pub At : (List Event → Type 0) → Option UpgradeStatus → State → Type 0
  At E u s =
      ((s.instance.status.upgrade ≡ u) × (s.instance.name ≡ n) × (s.instance.spec ≡ spec)) × E s.log

  -- A volume was looked for.
  abbrev pub Looked :
      (List Event → Type 0) → Option UpgradeStatus → String → Reply Pvc → State → Type 0
  Looked E u name r s =
      At E u s × ((m : String) → r ≡ fault (not_found m) → Occurs (IsGone name) s.log)

  -- The volumes of any Instance of that name and spec are gone.
  abbrev pub Freed : List Event → Type 0
  Freed log = (i : Instance) → i.name ≡ n → i.spec ≡ spec → AllGone (released_volumes i) log

  -- The StatefulSet that was found, and why the storage may be restored onto.
  abbrev pub Found : StatefulSet → List Event → Type 0
  Found sts log = Occurs (IsFound n sts) log

  abbrev pub Ready : StatefulSet → UpgradeStatus → List Event → Type 0
  Ready sts u log = Found sts log × ((stateful_set_firebird_version sts ≡ u.to_version) ⊎ Freed log)

  -- The upgrade is restoring, and was so at first, or may do so.
  abbrev pub Restores : StatefulSet → Option UpgradeStatus → State → Type 0
  Restores sts first s =
      (u : UpgradeStatus) × ((s.instance.status.upgrade ≡ some u)
        × ((u.stage ≡ restoring)
            × ((first ≡ some u)
                ⊎ ((s.instance.name ≡ n) × ((s.instance.spec ≡ spec) × Ready sts u s.log)))))

  -- The reconcile may go on, with no upgrade or with one that restores.
  abbrev pub Passes : StatefulSet → Option UpgradeStatus → Bool → State → Type 0
  Passes sts first handled s =
      (handled ≡ false)
      × (((first ≡ none) × (s.instance.status.upgrade ≡ none)) ⊎ Restores sts first s)

  -- The StatefulSet was asked for once and is missing.
  abbrev pub IsMissing : State → Type 0
  IsMissing s = (m : String) × (s.log ≡ event (get_stateful_set n) (fault (not_found m)) ∷ [])

  -- What the step of a major upgrade comes to where it returns without an error.
  abbrev pub Outcome : Option UpgradeStatus → Bool → State → Type 0
  Outcome first handled s =
      (handled ≡ false)
      × (IsMissing s
          ⊎ (((first ≡ none) × (s.instance.status.upgrade ≡ none))
              ⊎ ((sts : StatefulSet) × Restores sts first s)))
