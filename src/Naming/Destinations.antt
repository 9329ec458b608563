-- ===== src/Naming/Destinations.antt =====
-- When the spec of an Instance has a backup volume.
use kubebird.Prelude.{
  true, false, ◌≡◌, refl, Option, none, some, List, [], ◌∷◌, ◌⊎◌, inl, inr, is_none, Bool-cases,
}
use kubebird.Api.{Instance, BackupDestinationSpec, LocalBackupSpec, StorageVolumeSpec}
use kubebird.Naming.{backup_volume_spec, first_local}

-- One of the destinations is local.
abbrev pub HasLocal : List BackupDestinationSpec → Type 0
HasLocal [] = ⊥
HasLocal (t ∷ ts) = (is_none t.local ≡ false) ⊎ HasLocal ts

first_found :
    (l : Option LocalBackupSpec) (rest : Option StorageVolumeSpec) {P : Type 0}
    → (P → is_none rest ≡ false)
    → (is_none l ≡ false) ⊎ P
    → is_none (elim l [ none ↦ rest | some x ↦ some x.storage ]) ≡ false
first_found none rest f (inl e) = cc
first_found none rest f (inr r) = f r
first_found (some x) rest f h = refl

local_found : (ts : List BackupDestinationSpec) → HasLocal ts → is_none (first_local ts) ≡ false
unfolding first_local
local_found [] h = absurd h
local_found (t ∷ ts) h = first_found t.local (first_local ts) (local_found ts) h

local_first :
    (l : Option LocalBackupSpec) (rest : Option StorageVolumeSpec) {P : Type 0}
    → (is_none rest ≡ false → P)
    → is_none (elim l [ none ↦ rest | some x ↦ some x.storage ]) ≡ false
    → (is_none l ≡ false) ⊎ P
local_first none rest f h = inr (f h)
local_first (some x) rest f h = inl refl

found_local : (ts : List BackupDestinationSpec) → is_none (first_local ts) ≡ false → HasLocal ts
unfolding first_local
found_local [] h = cc
found_local (t ∷ ts) h = local_first t.local (first_local ts) (found_local ts) h

-- Where backups are enabled and a destination is local, there is a backup volume.
pub backup_volume_spec-HasLocal :
    (i : Instance)
    → i.spec.backup.enabled ≡ true
    → HasLocal i.spec.backup.destinations
    → is_none (backup_volume_spec i) ≡ false
unfolding backup_volume_spec
backup_volume_spec-HasLocal i e h = rw e (local_found i.spec.backup.destinations h)

-- Only there.
pub HasLocal-backup_volume_spec :
    (i : Instance)
    → is_none (backup_volume_spec i) ≡ false
    → (i.spec.backup.enabled ≡ true) × HasLocal i.spec.backup.destinations
unfolding backup_volume_spec
HasLocal-backup_volume_spec i h = elim (Bool-cases i.spec.backup.enabled) [
  | inl e ↦ (e, found_local i.spec.backup.destinations (rw e at h))
  | inr e ↦ absurd (stuck (rw e at h))
]
  where
    stuck : true ≡ false → ⊥
    stuck q = cc
