-- ===== src/Upgrade/Started.antt =====
-- When a major upgrade starts.
use kubebird.Prelude.{
  ℕ, String, true, false, ◌≡◌, refl, Option, none, some, ◌==◌, ltb, ◌<◌, is_none, arith,
}
use kubebird.Api.{Instance, UpgradeStatus, backing_up}
use kubebird.Naming.{backup_volume_spec}
use kubebird.Kube.Objects.{StatefulSet}
use kubebird.Kube.Calls.{Env}
use kubebird.Kube.Action.{ok, State, modify_status, write_status}
use kubebird.Kube.Rules.{
  Does, Does-bind, Does-when, Does-pure, Does-raise, Does-wrap, Does-run, Does-weaken, Does-still,
}
use kubebird.Kube.Honest.{IsHonest}
use kubebird.Status.Settled.{written-Does}
use kubebird.Version.{firebird_major_version, stateful_set_firebird_version}
use kubebird.Upgrade.{record_upgrade, compare_majors, start_major_upgrade}

-- The upgrade from `running` to the spec's version, at its first stage.
abbrev pub first_stage : Instance → String → UpgradeStatus
first_stage i running = record {
  from_version = running;
  to_version = i.spec.version;
  stage = backing_up;
}

-- An upgrade may start: to a newer major, with a volume to back up into.
abbrev pub MayStart : Instance → Option ℕ → Option ℕ → Type 0
MayStart i (some from) (some to) = (from < to) × (is_none (backup_volume_spec i) ≡ false)
MayStart i none to = ⊥
MayStart i (some from) none = ⊥

pub newer : (from to : ℕ) → (from == to) ≡ false → ltb to from ≡ false → from < to
newer from to h k = ground (arith, h, k)

module _ {env : Env} (honest : IsHonest env) (i : Instance) (running : String) where
  record_upgrade-Does :
      Does env
        (λ s. s.instance ≡ i)
        (record_upgrade running)
        (λ b t. t.instance.status.upgrade ≡ some (first_stage i running))
        (λ t. Unit)
  unfolding record_upgrade modify_status
  record_upgrade-Does =
      Does-still i _ (λ s j. j)
        (Does-bind _ _ (record { at = λ s j. refl })
          λ _.
            Does-bind _ _
              (Does-wrap _ write_status
                (written-Does honest (λ st. st.upgrade ≡ some (first_stage i running))))
              λ _. Does-pure true λ s j. j)

  compare_majors-Does :
      (from to : Option ℕ)
      → Does env
          (λ s. s.instance ≡ i)
          (compare_majors i running from to)
          (λ b t.
            b ≡ true
            → MayStart i from to × (t.instance.status.upgrade ≡ some (first_stage i running)))
          (λ t. Unit)
  unfolding compare_majors
  compare_majors-Does none to = Does-pure false λ s j e. cc
  compare_majors-Does (some from) none = Does-pure false λ s j e. cc
  compare_majors-Does (some from) (some to) =
      Does-when (from == to) _ _ (λ h. Does-pure false λ s j e. cc)
        λ h.
          Does-when (ltb to from) _ _ (λ k. Does-raise _ λ s j. tt)
            λ k.
              Does-when (is_none (backup_volume_spec i)) _ _ (λ v. Does-raise _ λ s j. tt)
                λ v.
                  Does-weaken (λ s j. j) (λ b t j e. ((newer from to h k, v), j))
                    record_upgrade-Does

start_major_upgrade-Does :
    {env : Env}
    → IsHonest env
    → (sts : StatefulSet) (i : Instance)
    → Does env
        (λ s. s.instance ≡ i)
        (start_major_upgrade sts)
        (λ b t.
          b ≡ true
          → MayStart i
              (firebird_major_version (stateful_set_firebird_version sts))
              (firebird_major_version i.spec.version)
            × (t.instance.status.upgrade
                ≡ some (first_stage i (stateful_set_firebird_version sts))))
        (λ t. Unit)
unfolding start_major_upgrade
start_major_upgrade-Does honest sts i =
    let running = stateful_set_firebird_version sts in
    Does-still i _ (λ s j. j)
      (compare_majors-Does honest i running (firebird_major_version running)
        (firebird_major_version i.spec.version))

-- A major upgrade starts only from a StatefulSet whose firebird image has a version with a major, to
-- a version of the spec with a greater major, where the spec has a local backup volume; it is
-- recorded in status.upgrade then with the two versions and the stage BackingUp, if the API server
-- answers a status write with the object written.
pub start_major_upgrade-MayStart :
    {env : Env}
    → IsHonest env
    → (sts : StatefulSet) (s t : State) → start_major_upgrade sts env s ≡ (ok true, t)
    → MayStart s.instance
        (firebird_major_version (stateful_set_firebird_version sts))
        (firebird_major_version s.instance.spec.version)
      × (t.instance.status.upgrade
          ≡ some (first_stage s.instance (stateful_set_firebird_version sts)))
start_major_upgrade-MayStart honest sts s t run =
    Does-run (start_major_upgrade-Does honest sts s.instance) s t true refl run refl
